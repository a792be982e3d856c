-- ===== src/Web.antt =====
-- internal/web/web.go: the handlers of the HTTP interface. An answer is its status code and what is
-- encoded in it. Which handler a request reaches, with which path value and which decoded body, is an
-- argument here (`Action`), and decided in Web/Routes.
pub mod Calls
pub mod Access
pub mod Routes
use local_dns.Base.{
  ℕ, ◌/◌, ◌+◌, List, [], ◌∷◌, ◌++◌, Bool, true, false, not, ◌&&◌, map, Bytes, Option, none, some,
  Outcome, ok, err, bytes_eq, ◌==◌, if◌then◌else◌,
}
use local_dns.Base.Text.{codes, is_empty, trim_space}
use local_dns.Store.State.{Device, Mapping, Store, Error, mapping_not_found}
use local_dns.Store.Devices.{delete_device, set_label}
use local_dns.Store.Mappings.{delete_mapping, set_mapping, update_mapping}
use local_dns.Store.Views.{MappingView, counts, mapping_views}
use local_dns.Store.Views.Listing.{DeviceView, device_views}

-- `Info`, the credentials, and the digest that `sha256.Sum256` computes.
pub record Site : Type 0 where
  pub version : Bytes
  pub domain : Bytes
  pub dns_listen : Bytes
  pub ttl : ℕ
  pub scan_interval : ℕ
  pub upstreams : List Bytes
  pub username : Bytes
  pub password : Bytes
  pub digest : Bytes → Bytes

-- What the handlers share: the store, the scanner's trigger channel, which holds one element at most,
-- and the time of the last scan, 0 for none.
pub record Shared : Type 0 where
  pub store : Store
  pub pending : Bool
  pub last_scan : ℕ

-- The body of a request on a mapping.
pub record MappingBody : Type 0 where
  pub hostname : Bytes
  pub mac : Bytes
  pub ip : Bytes
  pub note : Bytes

-- The handler, with the path value and the body; `none` for a body that `readJSON` refuses. The body of
-- `patchDevice` has a label or not. `served` is a handler that answers with a file or with "ok".
pub data Action : Type 0 where
  get_status get_devices get_mappings post_scan served : Action
  patch_device : Bytes → Option (Option Bytes) → Action
  delete_device_at delete_mapping_at : Bytes → Action
  post_mapping : Option MappingBody → Action
  put_mapping : Bytes → Option MappingBody → Action

pub record NameDto : Type 0 where
  pub hostname : Bytes
  pub fqdn : Bytes

pub record DeviceDto : Type 0 where
  pub device : Device
  pub display_name : Bytes
  pub online : Bool
  pub names : List NameDto

pub record MappingDto : Type 0 where
  pub hostname : Bytes
  pub fqdn : Bytes
  pub mac : Bytes
  pub ip : Bytes
  pub static : Bool
  pub note : Bytes
  pub current_ip : Bytes
  pub device_name : Bytes
  pub online : Bool
  pub updated_at : ℕ

pub record StatusDto : Type 0 where
  pub version : Bytes
  pub domain : Bytes
  pub dns_listen : Bytes
  pub ttl : ℕ
  pub scan_interval_sec : ℕ
  pub upstreams : List Bytes
  pub last_scan : Option ℕ
  pub device_count : ℕ
  pub online_count : ℕ
  pub now : ℕ

-- What an answer says.
pub data Payload : Type 0 where
  status : StatusDto → Payload
  devices : List DeviceDto → Payload
  mappings : List MappingDto → Payload
  mapping : Mapping → Payload
  done bad_json no_label not_found unauthorized content : Payload
  failed : Error → Payload

pub record Answer : Type 0 where
  pub code : ℕ
  pub payload : Payload

abbrev answer : ℕ → Payload → Answer
answer code payload = record { code = code; payload = payload }

abbrev second : ℕ
second = 1000000000

unfoldable pub display_name : DeviceView → Bytes
display_name v =
    if not (is_empty v.device.label)
    then v.device.label
    else if not (is_empty v.device.hostname)
    then v.device.hostname
    else v.device.mac

-- `n + "." + s.Info.Domain`
unfoldable pub fqdn : Site → Bytes → Bytes
fqdn site name = name ++ b'.' ∷ site.domain

unfoldable name_dto : Site → Bytes → NameDto
unfolding fqdn
name_dto site n = record { hostname = n; fqdn = fqdn site n }

unfoldable pub device_dto : Site → DeviceView → DeviceDto
unfolding display_name name_dto
device_dto site v = record {
  device = v.device;
  display_name = display_name v;
  online = v.online;
  names = map (name_dto site) v.names;
}

unfoldable pub mapping_dto : Site → MappingView → MappingDto
unfolding fqdn
mapping_dto site v = record {
  hostname = v.mapping.hostname;
  fqdn = fqdn site v.mapping.hostname;
  mac = v.mapping.mac;
  ip = v.mapping.ip;
  static = not (is_empty v.mapping.ip);
  note = v.mapping.note;
  current_ip = v.current_ip;
  device_name = v.device_name;
  online = v.online;
  updated_at = v.mapping.updated_at;
}

unfoldable pub status_dto : Site → ℕ → Shared → StatusDto
unfolding counts
status_dto site now s =
    let (total, online) = counts now s.store in
    record {
      version = site.version;
      domain = site.domain;
      dns_listen = site.dns_listen;
      ttl = site.ttl;
      scan_interval_sec = site.scan_interval / second;
      upstreams = site.upstreams;
      last_scan = if s.last_scan == 0 then none else some s.last_scan;
      device_count = total;
      online_count = online;
      now = now;
    }

abbrev with_store : Shared → Store → Shared
with_store s store = record s { store = store }

-- `if err != nil { writeError(w, code, err) }`, and the answer otherwise.
abbrev outcome_answer : ℕ → Option Error → Answer
outcome_answer code none = answer 200 done
outcome_answer code (some e) = answer code (failed e)

unfoldable pub do_patch : Bool → Bytes → Option (Option Bytes) → Shared → Answer × Shared
unfolding set_label
do_patch disk mac none s = (answer 400 bad_json, s)
do_patch disk mac (some none) s = (answer 400 no_label, s)
do_patch disk mac (some (some label)) s =
    let (e, store) = set_label disk mac label s.store in (outcome_answer 400 e, with_store s store)

unfoldable pub do_delete_device : Bool → Bytes → Shared → Answer × Shared
unfolding delete_device
do_delete_device disk mac s =
    let (e, store) = delete_device disk mac s.store in (outcome_answer 404 e, with_store s store)

-- The answer to `SetMapping` and `UpdateMapping`.
abbrev mapping_answer : (Error → ℕ) → Outcome Error Mapping → Answer
mapping_answer code (ok m) = answer 200 (mapping m)
mapping_answer code (err e) = answer (code e) (failed e)

-- The code of an error of `putMapping`.
unfoldable pub update_code : Error → ℕ
update_code mapping_not_found = 404
update_code e = 400

unfoldable pub do_post_mapping : Bool → ℕ → Option MappingBody → Shared → Answer × Shared
unfolding set_mapping
do_post_mapping disk now none s = (answer 400 bad_json, s)
do_post_mapping disk now (some b) s =
    let (r, store) =
      set_mapping disk b.hostname (trim_space b.mac) (trim_space b.ip) b.note now s.store in
    (mapping_answer (λ e. 400) r, with_store s store)

unfoldable pub do_put_mapping : Bool → ℕ → Bytes → Option MappingBody → Shared → Answer × Shared
unfolding update_mapping update_code
do_put_mapping disk now old none s = (answer 400 bad_json, s)
do_put_mapping disk now old (some b) s =
    let (r, store) =
      update_mapping disk old b.hostname (trim_space b.mac) (trim_space b.ip) b.note now s.store in
    (mapping_answer update_code r, with_store s store)

-- The answer to `DeleteMapping`.
abbrev deleted_answer : Bool → Option Error → Answer
deleted_answer existed (some e) = answer 500 (failed e)
deleted_answer true none = answer 200 done
deleted_answer false none = answer 404 not_found

unfoldable pub do_delete_mapping : Bool → Bytes → Shared → Answer × Shared
unfolding delete_mapping
do_delete_mapping disk hostname s =
    let (existed, e, store) = delete_mapping disk hostname s.store in
    (deleted_answer existed e, with_store s store)

-- The handlers. `disk` says whether a save succeeds.
unfoldable pub respond : Site → Bool → ℕ → Action → Shared → Answer × Shared
unfolding status_dto device_dto mapping_dto device_views mapping_views do_patch do_delete_device
    do_post_mapping do_put_mapping do_delete_mapping
respond site disk now get_status s = (answer 200 (status (status_dto site now s)), s)
respond site disk now get_devices s =
    (answer 200 (devices (map (device_dto site) (device_views now s.store))), s)
respond site disk now get_mappings s =
    (answer 200 (mappings (map (mapping_dto site) (mapping_views now s.store))), s)
respond site disk now post_scan s = (answer 202 done, record s { pending = true })
respond site disk now served s = (answer 200 content, s)
respond site disk now (patch_device mac body) s = do_patch disk mac body s
respond site disk now (delete_device_at mac) s = do_delete_device disk mac s
respond site disk now (post_mapping body) s = do_post_mapping disk now body s
respond site disk now (put_mapping old body) s = do_put_mapping disk now old body s
respond site disk now (delete_mapping_at hostname) s = do_delete_mapping disk hostname s

-- The two comparisons of `withAuth`.
unfoldable pub is_user : Site → Bytes × Bytes → Bool
is_user site (user, pass) =
    bytes_eq (site.digest user) (site.digest site.username)
    && bytes_eq (site.digest pass) (site.digest site.password)

-- Whether `withAuth` lets a request with these credentials pass.
unfoldable pub allowed : Site → Option (Bytes × Bytes) → Bool
unfolding is_user
allowed site given =
    if is_empty site.username
    then true
    else elim given [ none ↦ false | some pair ↦ is_user site pair ]

-- A request with its credentials, if it has some.
unfoldable pub serve : Site → Bool → ℕ → Option (Bytes × Bytes) → Action → Shared → Answer × Shared
unfolding allowed respond
serve site disk now given action s =
    if allowed site given then respond site disk now action s else (answer 401 unauthorized, s)
