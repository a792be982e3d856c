-- ===== src/Program/Answers.antt =====
-- From the network and the web interface to the DNS: what was observed and what was mapped is answered.
use local_dns.Dnsmsg.Header.{Header}
use local_dns.Dnsmsg.Question.{Question}
use local_dns.Store.State.{Store}
use local_dns.Server.Answer.{Server}
use local_dns.Server.Handle.{Network}
