-- ===== src/Web/Routes.antt =====
-- web.go: `Handler`, with the part of `http.ServeMux` that it uses, `withSecurityHeaders`, the headers of
-- `withAuth`, and `readJSON`. A path is clean, and given as its decoded segments, "/" as one empty one.
pub mod Unique
pub mod Safe
use local_dns.Base.{
  ℕ, ◌^◌, List, [], ◌∷◌, ◌++◌, Bool, true, false, ◌&&◌, ◌||◌, Bytes, Option, none, some, take,
  bytes_eq, if◌then◌else◌,
}
use local_dns.Base.Text.{codes, is_empty}
use local_dns.Web.{
  Action, Answer, MappingBody, Shared, Site, allowed, respond, get_status, get_devices,
  get_mappings, post_scan, served, patch_device, delete_device_at, delete_mapping_at, post_mapping,
  put_mapping,
}

pub data Segment : Type 0 where
  lit : Bytes → Segment
  wild : Segment

-- A pattern of the table; with `subtree` its path ends in "/", and all paths below it fit.
pub record Pattern : Type 0 where
  pub method : Bytes
  pub path : List Segment
  pub subtree : Bool

pub data Handler : Type 0 where
  status devices mappings scan health static index : Handler
  patch_one delete_one post_one put_one delete_named : Handler

pub record Request : Type 0 where
  pub method : Bytes
  pub path : List Bytes
  pub credentials : Option (Bytes × Bytes)
  pub body : Bytes

-- What `json.Decoder` makes of the bytes that it is given, for each of the two bodies.
pub record Json : Type 0 where
  pub to_label : Bytes → Option (Option Bytes)
  pub to_mapping : Bytes → Option MappingBody

abbrev max_body : ℕ
max_body = 2 ^ 20

-- `readJSON`: no more than a mebibyte is read.
unfoldable pub read_json : {A : Type 0} → (Bytes → Option A) → Bytes → Option A
read_json decode body = decode (take max_body body)

-- The values of the wildcards, if the path fits.
unfoldable pub match_path : List Segment → Bool → List Bytes → Option (List Bytes)
match_path [] false [] = some []
match_path [] false (x ∷ xs) = none
match_path [] true [] = none
match_path [] true (x ∷ xs) = some []
match_path (p ∷ ps) subtree [] = none
match_path (lit t ∷ ps) subtree (x ∷ xs) = if bytes_eq t x then match_path ps subtree xs else none
match_path (wild ∷ ps) subtree (x ∷ xs) =
    if is_empty x
    then none
    else elim (match_path ps subtree xs) [ none ↦ none | some l ↦ some (x ∷ l) ]

abbrev pub get_text : Bytes
get_text = codes "GET"

abbrev pub head_text : Bytes
head_text = codes "HEAD"

-- A pattern for GET fits HEAD too.
unfoldable pub method_fits : Bytes → Bytes → Bool
method_fits method m = bytes_eq method m || (bytes_eq method get_text && bytes_eq m head_text)

unfoldable pub match_pattern : Pattern → Bytes → List Bytes → Option (List Bytes)
unfolding method_fits match_path
match_pattern p m path = if method_fits p.method m then match_path p.path p.subtree path else none

abbrev pub route : Bytes → List Segment → Bool → Handler → Pattern × Handler
route method path subtree h = (record { method = method; path = path; subtree = subtree }, h)

abbrev pub api : Bytes → List Segment → List Segment
api name rest = lit (codes "api") ∷ lit name ∷ rest

-- The routing table.
unfoldable pub table : List (Pattern × Handler)
table =
    route get_text (api (codes "status") []) false status
    ∷ route get_text (api (codes "devices") []) false devices
    ∷ route (codes "PATCH") (api (codes "devices") (wild ∷ [])) false patch_one
    ∷ route (codes "DELETE") (api (codes "devices") (wild ∷ [])) false delete_one
    ∷ route get_text (api (codes "mappings") []) false mappings
    ∷ route (codes "POST") (api (codes "mappings") []) false post_one
    ∷ route (codes "PUT") (api (codes "mappings") (wild ∷ [])) false put_one
    ∷ route (codes "DELETE") (api (codes "mappings") (wild ∷ [])) false delete_named
    ∷ route (codes "POST") (api (codes "scan") []) false scan
    ∷ route get_text (lit (codes "healthz") ∷ []) false health
    ∷ route get_text (lit (codes "static") ∷ []) true static
    ∷ route get_text (lit [] ∷ []) false index
    ∷ []

-- The handler that a request reaches, with the values of the wildcards.
unfoldable pub find_route :
    Bytes → List Bytes → List (Pattern × Handler) → Option (Handler × List Bytes)
unfolding match_pattern
find_route m path [] = none
find_route m path (e ∷ l) = elim (match_pattern e.0 m path) [
  | some values ↦ some (e.1, values)
  | none ↦ find_route m path l
]

-- Whether a path fits with some method.
unfoldable pub has_path : List Bytes → List (Pattern × Handler) → Bool
unfolding match_path
has_path path [] = false
has_path path (e ∷ l) = elim (match_path e.0.path e.0.subtree path) [
  | some values ↦ true
  | none ↦ has_path path l
]

-- `r.PathValue`
abbrev path_value : List Bytes → Bytes
path_value [] = []
path_value (v ∷ values) = v

-- What the handler is called with.
unfoldable pub action_of : Json → Handler → List Bytes → Bytes → Action
unfolding read_json
action_of json status values body = get_status
action_of json devices values body = get_devices
action_of json mappings values body = get_mappings
action_of json scan values body = post_scan
action_of json health values body = served
action_of json static values body = served
action_of json index values body = served
action_of json patch_one values body =
    patch_device (path_value values) (read_json json.to_label body)
action_of json delete_one values body = delete_device_at (path_value values)
action_of json post_one values body = post_mapping (read_json json.to_mapping body)
action_of json put_one values body =
    put_mapping (path_value values) (read_json json.to_mapping body)
action_of json delete_named values body = delete_mapping_at (path_value values)

-- What a request is answered with: by a handler, or by the mux: 404, 405, or a redirect to the same path with a
-- slash behind it; `denied` is the 401 of `withAuth`.
pub data Reply : Type 0 where
  handled : Answer → Reply
  no_route wrong_method add_slash denied : Reply

pub record Response : Type 0 where
  pub reply : Reply
  pub headers : List (Bytes × Bytes)

abbrev slashed : List Bytes → List Bytes
slashed path = path ++ [] ∷ []

-- The mux where no pattern fits.
unfoldable pub unrouted : Bytes → List Bytes → Reply
unrouted m path = elim (find_route m (slashed path) table) [
  | some r ↦ add_slash
  | none ↦ if has_path path table || has_path (slashed path) table then wrong_method else no_route
]

unfoldable pub serve_mux : Site → Json → Bool → ℕ → Request → Shared → Reply × Shared
serve_mux site json disk now r s = elim (find_route r.method r.path table) [
  | none ↦ (unrouted r.method r.path, s)
  | some (h, values) ↦
      let (answer, s') = respond site disk now (action_of json h values r.body) s in
      (handled answer, s')
]

-- `withSecurityHeaders`
abbrev pub security_headers : List (Bytes × Bytes)
security_headers =
    (codes "X-Content-Type-Options", codes "nosniff")
    ∷ (codes "X-Frame-Options", codes "DENY")
    ∷ (codes "Referrer-Policy", codes "no-referrer")
    ∷ []

abbrev pub auth_headers : List (Bytes × Bytes)
auth_headers = (codes "WWW-Authenticate", codes "Basic realm=\"local-dns\"") ∷ []

-- What `Handler` returns: `withAuth`, and behind it the headers and the mux.
unfoldable pub serve_http : Site → Json → Bool → ℕ → Request → Shared → Response × Shared
unfolding allowed
serve_http site json disk now r s =
    if allowed site r.credentials
    then (let (reply, s') = serve_mux site json disk now r s in
        (record { reply = reply; headers = security_headers }, s'))
    else (record { reply = denied; headers = auth_headers }, s)
