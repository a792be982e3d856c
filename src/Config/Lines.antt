-- ===== src/Config/Lines.antt =====
-- config.go: `parse`, `apply`, `splitList` and `parseBool`.
use local_dns.Base.{
  ℕ, suc, ◌^◌, List, [], ◌∷◌, Bool, true, false, ◌||◌, Bytes, Option, none, some, Outcome, ok, err,
  ◌>>=◌, bytes_eq, if◌then◌else◌,
}
use local_dns.Base.Scan.{Reading, scan_lines, max_line}
use local_dns.Base.Text.{codes, has_prefix, is_empty, split, to_lower, trim_space}
use local_dns.Base.Text.Search.{cut, parse_uint}
use local_dns.Config.Duration.{parse_duration}
use local_dns.Config.State.{
  Config, Error, Refusal, at_line, reading_failed, no_colon, unknown_key, ttl_not_number,
  interval_not_duration, sweep_not_boolean, single_label_not_boolean,
}

-- The loop of `splitList` over the parts.
unfoldable keep_words : List Bytes → List Bytes
unfolding trim_space
keep_words [] = []
keep_words (part ∷ parts) =
    if is_empty (trim_space part) then keep_words parts else trim_space part ∷ keep_words parts

unfoldable pub split_list : Bytes → List Bytes
unfolding keep_words split
split_list v = keep_words (split b',' v)

unfoldable pub parse_bool : Bytes → Option Bool
unfolding to_lower
parse_bool v =
    let w = to_lower v in
    if bytes_eq w (codes "true")
      || bytes_eq w (codes "yes")
      || bytes_eq w (codes "on")
      || bytes_eq w (codes "1")
    then some true
    else if bytes_eq w (codes "false")
        || bytes_eq w (codes "no")
        || bytes_eq w (codes "off")
        || bytes_eq w (codes "0")
    then some false
    else none

-- `v, err := f(value); if err != nil { return …}`, and the assignment.
abbrev parsed {ℓ} : {A : Type ℓ} → Refusal → (A → Config) → Option A → Outcome Refusal Config
parsed refusal assign none = err refusal
parsed refusal assign (some v) = ok (assign v)

-- The `switch` over the keys.
unfoldable assign : Config → Bytes → Bytes → Outcome Refusal Config
unfolding split_list parse_bool parse_uint parse_duration
assign cfg key value =
    if bytes_eq key (codes "domain")
    then ok (record cfg { domain = value })
    else if bytes_eq key (codes "dns_listen")
    then ok (record cfg { dns_listen = value })
    else if bytes_eq key (codes "web_listen")
    then ok (record cfg { web_listen = value })
    else if bytes_eq key (codes "upstreams")
    then ok (record cfg { upstreams = split_list value })
    else if bytes_eq key (codes "ttl")
    then parsed ttl_not_number (λ v. record cfg { ttl = v }) (parse_uint 10 (2 ^ 32) value)
    else if bytes_eq key (codes "scan_interval")
    then parsed interval_not_duration (λ v. record cfg { scan_interval = v }) (parse_duration value)
    else if bytes_eq key (codes "scan_cidr")
    then ok (record cfg { scan_cidr = value })
    else if bytes_eq key (codes "scan_interface")
    then ok (record cfg { scan_interface = value })
    else if bytes_eq key (codes "disable_sweep")
    then parsed sweep_not_boolean (λ v. record cfg { disable_sweep = v }) (parse_bool value)
    else if bytes_eq key (codes "state_path")
    then ok (record cfg { state_path = value })
    else if bytes_eq key (codes "oui_paths")
    then ok (record cfg { oui_paths = split_list value })
    else if bytes_eq key (codes "web_username")
    then ok (record cfg { web_username = value })
    else if bytes_eq key (codes "web_password")
    then ok (record cfg { web_password = value })
    else if bytes_eq key (codes "answer_single_label")
    then parsed single_label_not_boolean (λ v. record cfg { answer_single_label = v })
        (parse_bool value)
    else if bytes_eq key (codes "log_level")
    then ok (record cfg { log_level = to_lower value })
    else err unknown_key

unfoldable pub apply : Config → Bytes → Bytes → Outcome Refusal Config
unfolding assign
apply cfg key value = if is_empty value then ok cfg else assign cfg key value

-- One line: a blank one and a comment are passed over.
unfoldable pub apply_line : Config → Bytes → Outcome Refusal Config
unfolding apply cut
apply_line cfg text =
    let line = trim_space text in
    if is_empty line || has_prefix line (codes "#") then ok cfg else elim (cut b':' line) [
      | none ↦ err no_colon
      | some (key, value) ↦ apply cfg (to_lower (trim_space key)) (trim_space value)
    ]

-- The loop over the lines; `line_no` counts those before.
unfoldable pub apply_lines : ℕ → Config → List Bytes → Outcome Error Config
unfolding apply_line
apply_lines line_no cfg [] = ok cfg
apply_lines line_no cfg (line ∷ lines) = elim (apply_line cfg line) [
  | err refusal ↦ err (at_line (suc line_no) refusal)
  | ok cfg' ↦ apply_lines (suc line_no) cfg' lines
]

unfoldable pub parse : Config → Reading → Outcome Error Config
unfolding apply_lines scan_lines
parse cfg r =
    let scanned = scan_lines max_line r in
    apply_lines 0 cfg scanned.lines >>= λ cfg'.
    if scanned.failed then err reading_failed else ok cfg'
