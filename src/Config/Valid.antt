-- ===== src/Config/Valid.antt =====
-- What the settings that `Load` returns satisfy.
use mathlib.Core.Path.{subst}
use local_dns.Base.{
  ℕ, ◌*◌, ◌≤◌, ◌≡◌, ◌≢◌, refl, ◌↔◌, ◌⊎◌, inl, inr, List, [], ◌∷◌, ◌&&◌, ◌||◌, Bool, true, false,
  not, Bytes, Option, none, some, Outcome, ok, err, ◌>>=◌, All, ltb, bytes_eq→eq, arith, >>=-eq-ok,
  Bool-cases, Option-cases, if◌then◌else◌,
}
use local_dns.Base.Int.{ℤ, pos, negsuc, is_above, is_below}
use local_dns.Base.Text.{codes, is_empty, lower, split, to_lower, trim, trim_space}
use local_dns.Names.{check_label, check_labels, normalize, validate_labels}
use local_dns.Names.Valid.{IsHostName, validate_labels_iff}
use local_dns.Net.HostPort.{split_host_port}
use local_dns.Net.Cidr.{IpNet, parse_cidr}
use local_dns.Config.Lines.{parse}
use local_dns.Config.State.{
  Config, default, second, Error, File, missing, locked, holds, no_upstream,
}
use local_dns.Config.Validate.{
  splits, is_some, normalize_host_port, normalize_all, guard, validate_domain, is_log_level,
  validate, load,
}

-- The text is a host and a port.
abbrev pub Splits : Bytes → Type 0
Splits s = (hp : Bytes × Bytes) × (split_host_port s ≡ some hp)

-- Settings that the parts of the program can run with.
pub record IsConfig (c : Config) : Type 0 where
  pub domain : IsHostName c.domain
  pub dns_listen : Splits c.dns_listen
  pub web_listen : Splits c.web_listen
  pub some_upstream : c.upstreams ≢ []
  pub upstreams : All Splits c.upstreams
  pub ttl_low : 1 ≤ c.ttl
  pub ttl_high : c.ttl ≤ 86400
  pub interval : (n : ℕ) × (c.scan_interval ≡ pos n) × (5 * second ≤ n) × (n ≤ 3600 * second)
  pub cidr : (c.scan_cidr ≡ []) ⊎ ((net : Bytes × IpNet) × (parse_cidr c.scan_cidr ≡ some net))
  pub log_level :
      (c.log_level ≡ codes "debug")
      ⊎ ((c.log_level ≡ codes "info")
          ⊎ ((c.log_level ≡ codes "warn") ⊎ (c.log_level ≡ codes "error")))
  pub credentials : (c.web_username ≡ []) ↔ (c.web_password ≡ [])

is_some→some {ℓ} : {A : Type ℓ} (o : Option A) → is_some o ≡ true → (a : A) × (o ≡ some a)
is_some→some none h = cc
is_some→some (some a) h = (a, refl)

pub splits→Splits : (s : Bytes) → splits s ≡ true → Splits s
unfolding splits
splits→Splits s h = is_some→some (split_host_port s) h

guard-passed {ℓ} :
    {A : Type ℓ} (b : Bool) (e : Error) (rest : Unit {0} → Outcome Error A) {a : A}
    → (guard b e >>= rest) ≡ ok a
    → (b ≡ false) × (rest tt ≡ ok a)
guard-passed true e rest h = cc
guard-passed false e rest h = (refl, h)

not-false : (b : Bool) → not b ≡ false → b ≡ true
not-false true h = refl
not-false false h = cc

-- What `normalizeHostPort` returns is split.
pub normalize_host_port-Splits : (s p t : Bytes) → normalize_host_port s p ≡ some t → Splits t
unfolding normalize_host_port
normalize_host_port-Splits s p t h = splits→Splits t (ground arith)

normalize_all-Splits : (ups outs : List Bytes) → normalize_all ups ≡ ok outs → All Splits outs
unfolding normalize_all
normalize_all-Splits [] outs h = let e : [] ≡ outs = cc in rw (← e) tt
normalize_all-Splits (up ∷ ups) outs h = elim (Option-cases (normalize_host_port up (codes "53"))) [
  | inl bad ↦ ground arith
  | inr (t, et) ↦
      let (rest, er, went) =
        >>=-eq-ok (normalize_all ups) (λ r. ok (t ∷ r)) (rw (et, normalize_all) at h) in
      let e : t ∷ rest ≡ outs = cc in
      rw (← e) (normalize_host_port-Splits up (codes "53") t et, normalize_all-Splits ups rest er)
]

normalize_all-cons :
    (up : Bytes) (ups outs : List Bytes) → normalize_all (up ∷ ups) ≡ ok outs → outs ≢ []
unfolding normalize_all
normalize_all-cons up ups outs h = elim (Option-cases (normalize_host_port up (codes "53"))) [
  | inl bad ↦ ground arith
  | inr (t, et) ↦
      let (rest, er, went) =
        >>=-eq-ok (normalize_all ups) (λ r. ok (t ∷ r)) (rw (et, normalize_all) at h) in
      λ e. cc
]

validate_domain-IsHostName : (name d : Bytes) → validate_domain name ≡ ok d → IsHostName d
unfolding validate_domain
validate_domain-IsHostName name d h = elim (Option-cases (validate_labels (normalize name))) [
  | inl good ↦
      let e : normalize name ≡ d = ground arith in
      rw (← e) ((validate_labels_iff (normalize name)).0 good)
  | inr (problem, bad) ↦ ground arith
]

validate_upstreams : List Bytes → Outcome Error (List Bytes)
validate_upstreams ups = elim ups [ [] ↦ err no_upstream | u ∷ us ↦ normalize_all (u ∷ us) ]

validate_upstreams-Splits :
    (ups outs : List Bytes) → validate_upstreams ups ≡ ok outs → All Splits outs × (outs ≢ [])
unfolding validate_upstreams
validate_upstreams-Splits [] outs h = cc
validate_upstreams-Splits (u ∷ us) outs h =
    (normalize_all-Splits (u ∷ us) outs h, normalize_all-cons u us outs h)

interval-bounds :
    (z : ℤ) (lo hi : ℕ)
    → (is_below z lo || is_above z hi) ≡ false
    → (n : ℕ) × (z ≡ pos n) × (lo ≤ n) × (n ≤ hi)
unfolding is_below is_above
interval-bounds (pos m) lo hi h = (m, refl, ground arith, ground arith)
interval-bounds (negsuc m) lo hi h = cc

is_empty-true : (s : Bytes) → is_empty s ≡ true → s ≡ []
is_empty-true [] h = refl
is_empty-true (c ∷ s) h = cc

cidr-cases :
    (s : Bytes)
    → (not (is_empty s) && not (is_some (parse_cidr s))) ≡ false
    → (s ≡ []) ⊎ ((net : Bytes × IpNet) × (parse_cidr s ≡ some net))
cidr-cases s h = elim (Bool-cases (is_empty s)) [
  | inl e ↦ inl (is_empty-true s e)
  | inr more ↦ elim (Option-cases (parse_cidr s)) [
    | inl bad ↦ absurd (ground arith)
    | inr found ↦ inr found
  ]
]

log_level-cases :
    (l : Bytes)
    → is_log_level l ≡ true
    → (l ≡ codes "debug") ⊎ ((l ≡ codes "info") ⊎ ((l ≡ codes "warn") ⊎ (l ≡ codes "error")))
unfolding is_log_level
log_level-cases l h = ground (
  arith,
  bytes_eq→eq l (codes "debug"),
  bytes_eq→eq l (codes "info"),
  bytes_eq→eq l (codes "warn"),
  bytes_eq→eq l (codes "error"),
)

credentials_iff :
    (u p : Bytes)
    → (if is_empty u then not (is_empty p) else is_empty p) ≡ false
    → (u ≡ []) ↔ (p ≡ [])
credentials_iff [] [] h = (λ e. refl, λ e. refl)
credentials_iff [] (d ∷ p) h = cc
credentials_iff (c ∷ u) [] h = cc
credentials_iff (c ∷ u) (d ∷ p) h = (λ e. cc, λ e. cc)

-- The settings with what the checks gave.
module _ (c : Config) (domain : Bytes) (upstreams : List Bytes) where
  checked-IsConfig :
      IsHostName domain
      → not (splits c.dns_listen) ≡ false
      → not (splits c.web_listen) ≡ false
      → All Splits upstreams × (upstreams ≢ [])
      → (ltb c.ttl 1 || ltb 86400 c.ttl) ≡ false
      → (is_below c.scan_interval (5 * second) || is_above c.scan_interval (3600 * second)) ≡ false
      → (not (is_empty c.scan_cidr) && not (is_some (parse_cidr c.scan_cidr))) ≡ false
      → not (is_log_level c.log_level) ≡ false
      → (if is_empty c.web_username then not (is_empty c.web_password) else is_empty c.web_password)
        ≡ false
      → IsConfig (record c { domain = domain; upstreams = upstreams })
  checked-IsConfig good dns web (ups, some_up) ttl interval cidr level pair = record {
    domain = good;
    dns_listen = splits→Splits c.dns_listen (not-false (splits c.dns_listen) dns);
    web_listen = splits→Splits c.web_listen (not-false (splits c.web_listen) web);
    some_upstream = some_up;
    upstreams = ups;
    ttl_low = ground arith;
    ttl_high = ground arith;
    interval = interval-bounds c.scan_interval (5 * second) (3600 * second) interval;
    cidr = cidr-cases c.scan_cidr cidr;
    log_level = log_level-cases c.log_level (not-false (is_log_level c.log_level) level);
    credentials = credentials_iff c.web_username c.web_password pair;
  }

ok-injective : (c d : Config) → ◌≡◌ {A = Outcome Error Config} (ok c) (ok d) → c ≡ d
ok-injective c d h = cc

validate-IsConfig : (c d : Config) → validate c ≡ ok d → IsConfig d
unfolding validate validate_upstreams
validate-IsConfig c d h0 =
    let (domain, e1, h1) = >>=-eq-ok (validate_domain c.domain) _ h0 in
    let (dns, h2) = guard-passed (not (splits c.dns_listen)) _ _ h1 in
    let (web, h3) = guard-passed (not (splits c.web_listen)) _ _ h2 in
    let (upstreams, e4, h4) = >>=-eq-ok (validate_upstreams c.upstreams) _ h3 in
    let (ttl, h5) = guard-passed (ltb c.ttl 1 || ltb 86400 c.ttl) _ _ h4 in
    let (interval, h6) = guard-passed _ _ _ h5 in
    let (cidr, h7) = guard-passed _ _ _ h6 in
    let (level, h8) = guard-passed _ _ _ h7 in
    let (pair, h9) = guard-passed _ _ _ h8 in
    subst IsConfig (ok-injective _ d h9) (
      checked-IsConfig c domain upstreams (validate_domain-IsHostName c.domain domain e1) dns web
        (validate_upstreams-Splits c.upstreams upstreams e4) ttl interval cidr level pair)

validate-default : validate default ≡ ok default
unfolding validate trim to_lower trim_space lower check_labels split check_label
validate-default = refl

default-IsConfig : IsConfig default
default-IsConfig = validate-IsConfig default default validate-default

-- The settings that `Load` returns without an error are fit to run with: a host name
-- for the domain, listen addresses and at least one upstream that split into host and port, a TTL
-- from 1 to 86400, a scan interval from 5 s to 1 h, a CIDR if there is one, one of the four log
-- levels, and a user name exactly if there is a password.
pub load-IsConfig :
    (file : File) (c : Config) (found : Bool) → load file ≡ ok (c, found) → IsConfig c
unfolding load
load-IsConfig missing c found h = let e : default ≡ c = cc in subst IsConfig e default-IsConfig
load-IsConfig locked c found h = cc
load-IsConfig (holds r) c found h =
    let (read, _, h1) = >>=-eq-ok (parse default r) _ h in
    let (checked, valid, h2) = >>=-eq-ok (validate read) _ h1 in
    let e : checked ≡ c = cc in subst IsConfig e (validate-IsConfig read checked valid)
