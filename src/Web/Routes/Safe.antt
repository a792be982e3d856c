-- ===== src/Web/Routes/Safe.antt =====
-- What a request can change, by its method, and what stands on every response.
use local_dns.Base.{
  ℕ, ◌≡◌, refl, ◌∙◌, ◌⊎◌, inl, inr, List, [], ◌∷◌, Bool, true, false, Bytes, none, some, All,
  Bool-cases, Option-cases,
}
use local_dns.Store.Invariant.{IsStore}
use local_dns.Web.{Shared, Site, allowed, respond}
use local_dns.Web.Calls.{respond-IsStore}
use local_dns.Web.Routes.{
  Handler, Json, Pattern, Request, auth_headers, denied, security_headers, serve_http, serve_mux,
  find_route, match_pattern, match_path, method_fits, table, action_of, get_text, head_text, status,
  devices, mappings, scan, health, static, index, patch_one, delete_one, post_one, put_one,
  delete_named,
}

-- The handlers that read only.
abbrev IsReading : Handler → Type 0
IsReading status = Unit
IsReading devices = Unit
IsReading mappings = Unit
IsReading health = Unit
IsReading static = Unit
IsReading index = Unit
IsReading scan = ⊥
IsReading patch_one = ⊥
IsReading delete_one = ⊥
IsReading post_one = ⊥
IsReading put_one = ⊥
IsReading delete_named = ⊥

-- What holds of each entry whose method fits holds of the route that is found.
module _ (m : Bytes) (P : Handler → Type 0) where
  find_route-All :
      (path : List Bytes) (l : List (Pattern × Handler)) (h : Handler) (values : List Bytes)
      → All (λ e. method_fits e.0.method m ≡ true → P e.1) l
      → find_route m path l ≡ some (h, values)
      → P h
  unfolding find_route match_pattern
  find_route-All path [] h values a e = cc
  find_route-All path ((p, g) ∷ l) h values (now, later) e =
      elim (Bool-cases (method_fits p.method m)) [
        | inr misfit ↦ find_route-All path l h values later (rw (misfit, find_route) at e)
        | inl fits ↦ elim (Option-cases (match_path p.path p.subtree path)) [
          | inl miss ↦ find_route-All path l h values later (rw (fits, find_route, miss) at e)
          | inr (vs, hit) ↦
              let same : g ≡ h = cc (rw (fits, find_route, hit) at e) in rw same at (now fits)
        ]
      ]

-- All routes of GET and HEAD read only.
IsReading-get :
    (m : Bytes)
    → (m ≡ get_text) ⊎ (m ≡ head_text)
    → All (λ (e : Pattern × Handler). method_fits e.0.method m ≡ true → IsReading e.1) table
unfolding table method_fits
IsReading-get m (inl e) = rw e (
  λ f. tt,
  (
    λ f. tt,
    (
      λ f. cc,
      (
        λ f. cc,
        (λ f. tt, (λ f. cc, (λ f. cc, (λ f. cc, (λ f. cc, (λ f. tt, (λ f. tt, (λ f. tt, tt)))))))),
      ),
    ),
  ),
)
IsReading-get m (inr e) = rw e (
  λ f. tt,
  (
    λ f. tt,
    (
      λ f. cc,
      (
        λ f. cc,
        (λ f. tt, (λ f. cc, (λ f. cc, (λ f. cc, (λ f. cc, (λ f. tt, (λ f. tt, (λ f. tt, tt)))))))),
      ),
    ),
  ),
)

respond-IsReading :
    (site : Site) (json : Json) (disk : Bool) (now : ℕ) (h : Handler) (values : List Bytes)
    (body : Bytes) (s : Shared)
    → IsReading h
    → (respond site disk now (action_of json h values body) s).1 ≡ s
unfolding respond action_of
respond-IsReading site json disk now status values body s r = refl
respond-IsReading site json disk now devices values body s r = refl
respond-IsReading site json disk now mappings values body s r = refl
respond-IsReading site json disk now health values body s r = refl
respond-IsReading site json disk now static values body s r = refl
respond-IsReading site json disk now index values body s r = refl
respond-IsReading site json disk now scan values body s r = absurd r
respond-IsReading site json disk now patch_one values body s r = absurd r
respond-IsReading site json disk now delete_one values body s r = absurd r
respond-IsReading site json disk now post_one values body s r = absurd r
respond-IsReading site json disk now put_one values body s r = absurd r
respond-IsReading site json disk now delete_named values body s r = absurd r

-- The mux without a route, and with one.
serve_mux-none :
    (site : Site) (json : Json) (disk : Bool) (now : ℕ) (r : Request) (s : Shared)
    → find_route r.method r.path table ≡ none
    → (serve_mux site json disk now r s).1 ≡ s
unfolding serve_mux
serve_mux-none site json disk now r s h = rw (h, serve_mux) refl

serve_mux-some :
    (site : Site) (json : Json) (disk : Bool) (now : ℕ) (r : Request) (s : Shared) (h : Handler)
    (values : List Bytes)
    → find_route r.method r.path table ≡ some (h, values)
    → (serve_mux site json disk now r s).1
      ≡ (respond site disk now (action_of json h values r.body) s).1
unfolding serve_mux
serve_mux-some site json disk now r s h values e = rw (e, serve_mux) refl

-- A request with GET or HEAD changes nothing: not the store, and no scan is asked for.
pub serve_http-get :
    (site : Site) (json : Json) (disk : Bool) (now : ℕ) (r : Request) (s : Shared)
    → (r.method ≡ get_text) ⊎ (r.method ≡ head_text)
    → (serve_http site json disk now r s).1 ≡ s
unfolding serve_http
serve_http-get site json disk now r s kind = elim (Bool-cases (allowed site r.credentials)) [
  | inr refused ↦ rw refused refl
  | inl may ↦ rw may (elim (Option-cases (find_route r.method r.path table)) [
    | inl miss ↦ serve_mux-none site json disk now r s miss
    | inr ((h, values), hit) ↦
        serve_mux-some site json disk now r s h values hit
        ∙ respond-IsReading site json disk now h values r.body s (
            find_route-All r.method IsReading r.path table h values (IsReading-get r.method kind)
              hit)
  ])
]

-- Every response has headers: the three that forbid to guess its type, to frame it and to pass its address
-- on, if the request passes the check of its credentials; otherwise it is denied, with the header that
-- asks for them, and nothing has changed.
pub serve_http-headers :
    (site : Site) (json : Json) (disk : Bool) (now : ℕ) (r : Request) (s : Shared)
    → ((allowed site r.credentials ≡ true)
        × ((serve_http site json disk now r s).0.headers ≡ security_headers))
      ⊎ ((allowed site r.credentials ≡ false)
          × (serve_http site json disk now r s
              ≡ (record { reply = denied; headers = auth_headers }, s)))
unfolding serve_http
serve_http-headers site json disk now r s = elim (Bool-cases (allowed site r.credentials)) [
  | inl may ↦ inl (may, rw may refl)
  | inr refused ↦ inr (refused, rw refused refl)
]

-- A request keeps a store well formed, whatever its path and its body.
pub serve_http-IsStore :
    (site : Site) (json : Json) (disk : Bool) (now : ℕ) (r : Request) (s : Shared)
    → IsStore s.store
    → IsStore (serve_http site json disk now r s).1.store
unfolding serve_http
serve_http-IsStore site json disk now r s v = elim (Bool-cases (allowed site r.credentials)) [
  | inr refused ↦ rw refused v
  | inl may ↦ rw may (elim (Option-cases (find_route r.method r.path table)) [
    | inl miss ↦ rw (serve_mux-none site json disk now r s miss) v
    | inr ((h, values), hit) ↦
        rw (serve_mux-some site json disk now r s h values hit)
          (respond-IsStore site disk now (action_of json h values r.body) s v)
  ])
]
