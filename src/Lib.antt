-- ===== src/Lib.antt =====
-- local-dns: a DNS server and device registry for a home network.
--
-- The program scans the network for devices, keeps a registry of them and of the host names that
-- are mapped to them, and answers DNS queries for those names below one domain; it relays every
-- other query to upstream resolvers. The scanner and the web interface write to the store, and the
-- DNS server reads from it through the interface `Resolver`.
--
-- The parts:
--   Dnsmsg   internal/dnsmsg/dnsmsg.go, the wire format. Children: Word (constants, big-endian
--            numbers), Header, Name (`decodeNameUncompressed`, `decodeName`, `EncodeName`), Question
--            (`ParseQuestion`), Query (`BuildQuery`, `SOAData`), Reply (`BuildReply`,
--            `BuildHeaderOnly`), Message (`ParseMessage`), Reverse (`ReverseName`,
--            `ParseReverseName`). What lies below a child is about it.
--   Names    internal/names/names.go: `ValidateLabels`, `Normalize`, `NormalizeMAC`.
--   Store    internal/store/store.go. State has the types, Files `Open` and the saves, Devices,
--            Mappings, Resolve and Views the methods, Run the calls that change the store in any
--            order, Entries, Invariant and Durable the store's invariant, Registry the store without
--            the order of its maps, as a quotient.
--   Server   internal/dnsserver/server.go. Wire has the exchanges with upstream resolvers and the
--            frames on TCP, Answer `local` and the answers, Handle `handle`, `forward` and
--            `serveTCPConn`, Managed and Ptr the server over the store, Told what a client reads, Life
--            `Start`, `serveUDP`, `serveTCP` and `Shutdown` as steps, Registry the responses as a
--            function of the registry.
--   Config   internal/config/config.go. State has the settings, their defaults and the errors, Lines
--            `parse` and `apply`, Validate `validate`, `normalizeHostPort` and `Load`, Duration Go's
--            `time.ParseDuration`.
--   Scanner  internal/scanner. Network is netinfo.go, Arp arp.go, Oui oui.go, Probe probe.go, and
--            Round `scan` of scanner.go with `sweep` of sweep.go; a scan takes what the kernel and
--            the network say (`World`). Loop has `Run`, `Trigger` and `LastScan`, Pool the
--            goroutines of `sweep` behind their semaphore.
--   Web      internal/web/web.go: the handlers (`respond`) and `withAuth` (`serve`); Routes has
--            `Handler` with its routing table, `readJSON` and the headers (`serve_http`).
--   Program  cmd/local-dns/main.go: the start, with a state file that is moved aside, and what each
--            part gets of the settings. Steps has the calls of the store in the life of the process,
--            Live its events (scans, requests, saves, the end of the context) and its last save,
--            Process `main` and `run` from the flag for the version to the exit code,
--            Answers the way from the network and from a request to the DNS, Told the way from the
--            network to a client that parses the answer.
--   Net      what the program uses of Go's package net: `ParseIP`, `To4`, `To16`, `Equal`, `String`,
--            `SplitHostPort`, `ParseCIDR`, `Mask`, `Contains`.
--   Dict     Go's maps with strings as keys, as lists of entries.
--   Base     shared notation and lemmas, and what the program uses of Go's packages strings,
--            strconv and bufio.
--   Tests    the theorems at concrete inputs.
-- A function has the name of the Go function in snake case; its state is an argument and part of its
-- result, its `error` a constructor of the module's `Error` or `Problem`. A part of a long function
-- that is a function of its own says so in its comment.
--
-- Numbers are native ones. The wire format cuts them to 16 and 32 bits where the source converts. A
-- byte string is a list of numbers; theorems on what is read from a message that need it assume
-- that each is below 256.
--
-- Bounds and fuel: the loops over a name run for at most 128 rounds, and `decodeName` to a depth of
-- 16; a round adds at least 2 to a sum that the code keeps at 255 at most, so the rounds are enough,
-- and the constructor `no_fuel` of `Error`, which marks the end of the fuel, is not reached. The
-- loops of `time.ParseDuration` and of `skipNBName` have a round for each byte, and every round reads
-- one; those of `hostsInSubnet` and of the counts in a message are counted.
--
-- Parameters: what an upstream resolver does in an exchange (`Upstream`: whether it can be
-- reached, the datagrams that come back, the bytes of its stream), the clock, and whether the file
-- system lets a save succeed. A state file is a value: `encoding/json` is taken to read back what
-- it wrote, and a list of the file has no null entry. The order of a map's entries stands for the
-- unknown order in which Go walks it. A scan is given the interfaces, the tables of routes and of
-- neighbours, the replies to its probes, and the order in which the probes end; all reads of the
-- clock between reading the table and the probes give one time. What `json.Decoder` makes of the bytes
-- of a body is a function (`Json`); `http.ServeMux` is written out as far as the table needs it, and
-- gets a clean path, given as its decoded segments; `sha256` is a function of the site. The system says
-- whether the sockets can be opened (`Binds`) and what the process meets (`System`). An interface's mask
-- is a number of ones.
--
-- Floating point: `time.ParseDuration` multiplies the digits behind a point by the unit in floating
-- point; here the product is exact and rounded down, so the last nanosecond can differ for a number
-- with more digits than the unit has nanoseconds.
--
-- Goroutines are steps that come in any order: in Server/Life one that handles a datagram is a
-- single step, in Scanner/Pool a start and an end. The mutex of the store makes each method one
-- step: in Program/Steps the calls of a scan, of requests and of the periodic save come in any
-- order, while an event of Program/Live is a whole scan or a whole request. `strings.ToLower` and
-- `strings.TrimSpace` are those on ASCII: a white space or a letter of Unicode beyond it is kept.
--
-- Not modelled: what a socket does below a call, deadlines (one that passes is a read that fails), logging,
-- how the flags are read, the contents of the static files and the browser's side. The time that `Shutdown`
-- waits at most is left out: Server/Life says what it waits for.
pub mod Base
pub mod Config
pub mod Dict
pub mod Dnsmsg
pub mod Names
pub mod Net
pub mod Program
pub mod Scanner
pub mod Server
pub mod Tests
pub mod Store
pub mod Web
