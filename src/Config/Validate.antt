-- ===== src/Config/Validate.antt =====
-- config.go: `normalizeHostPort`, `validate` and `Load`.
use local_dns.Base.{
  ◌*◌, List, [], ◌∷◌, ◌++◌, Bool, true, false, not, ◌&&◌, ◌||◌, Bytes, Option, none, some, Outcome,
  ok, err, ◌>>=◌, leb, ltb, bytes_eq, if◌then◌else◌,
}
use local_dns.Base.Int.{is_above, is_below}
use local_dns.Base.Text.{codes, contains, is_empty}
use local_dns.Base.Text.Search.{count}
use local_dns.Names.{normalize, validate_labels}
use local_dns.Net.HostPort.{split_host_port}
use local_dns.Net.Cidr.{parse_cidr}
use local_dns.Config.Lines.{parse}
use local_dns.Config.State.{
  Config, default, second, Error, File, missing, locked, holds, unreadable, bad_domain,
  bad_dns_listen, bad_web_listen, no_upstream, bad_upstream, bad_ttl, bad_interval, bad_cidr,
  bad_log_level, half_credentials,
}

abbrev pub is_some {ℓ} : {A : Type ℓ} → Option A → Bool
is_some none = false
is_some (some a) = true

-- `net.SplitHostPort(s)` returns no error.
unfoldable pub splits : Bytes → Bool
unfolding split_host_port
splits s = is_some (split_host_port s)

-- A bare IPv6 address gets brackets.
unfoldable pub bracketed : Bytes → Bytes
unfolding count contains
bracketed s = if leb 2 (count b':' s) && not (contains b'[' s) then b'[' ∷ (s ++ b']' ∷ []) else s

unfoldable pub normalize_host_port : Bytes → Bytes → Option Bytes
unfolding splits bracketed
normalize_host_port s default_port =
    let joined = bracketed s ++ b':' ∷ default_port in
    if splits s then some s else if splits joined then some joined else none

-- The loop over the upstreams, which writes them back.
unfoldable pub normalize_all : List Bytes → Outcome Error (List Bytes)
unfolding normalize_host_port
normalize_all [] = ok []
normalize_all (up ∷ ups) = elim (normalize_host_port up (codes "53")) [
  | none ↦ err bad_upstream
  | some normalized ↦ normalize_all ups >>= λ rest. ok (normalized ∷ rest)
]

-- `if cond { return err }`
abbrev pub guard : Bool → Error → Outcome Error (Unit {0})
guard true problem = err problem
guard false problem = ok tt

unfoldable pub validate_domain : Bytes → Outcome Error Bytes
unfolding normalize validate_labels
validate_domain name = elim (validate_labels (normalize name)) [
  | some problem ↦ err (bad_domain problem)
  | none ↦ ok (normalize name)
]

unfoldable pub is_log_level : Bytes → Bool
is_log_level l =
    bytes_eq l (codes "debug")
    || bytes_eq l (codes "info")
    || bytes_eq l (codes "warn")
    || bytes_eq l (codes "error")

-- The checks in the source's order; the error is the first one that fails.
unfoldable pub validate : Config → Outcome Error Config
unfolding validate_domain splits normalize_all is_below is_above is_log_level parse_cidr
validate c = validate_domain c.domain >>= λ domain.
    guard (not (splits c.dns_listen)) bad_dns_listen >>= λ _.
    guard (not (splits c.web_listen)) bad_web_listen >>= λ _.
    (elim c.upstreams [ [] ↦ err no_upstream | up ∷ ups ↦ normalize_all (up ∷ ups) ])
    >>= λ upstreams. guard (ltb c.ttl 1 || ltb 86400 c.ttl) bad_ttl >>= λ _.
        guard (is_below c.scan_interval (5 * second) || is_above c.scan_interval (3600 * second))
          bad_interval
        >>= λ _.
            guard (not (is_empty c.scan_cidr) && not (is_some (parse_cidr c.scan_cidr))) bad_cidr
            >>= λ _. guard (not (is_log_level c.log_level)) bad_log_level >>= λ _.
                guard
                  (if is_empty c.web_username
                    then not (is_empty c.web_password)
                    else is_empty c.web_password)
                  half_credentials
                >>= λ _. ok (record c { domain = domain; upstreams = upstreams })

-- `Load`: the settings and whether the file was found. With an error the caller uses neither.
unfoldable pub load : File → Outcome Error (Config × Bool)
unfolding parse validate
load missing = ok (default, false)
load locked = err unreadable
load (holds r) = parse default r >>= λ cfg. validate cfg >>= λ cfg'. ok (cfg', true)
