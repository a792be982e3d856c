-- ===== src/Web/Access.antt =====
-- Who may call the handlers.
use local_dns.Base.{
  ℕ, ◌≡◌, ◌≢◌, refl, ◌⊎◌, inl, inr, [], ◌∷◌, Bool, false, Bytes, Option, some, Bool-cases, bytes_eq,
  bytes_eq→eq, bytes_eq_refl,
}
use local_dns.Base.Text.{is_empty}
use local_dns.Web.{Action, Shared, Site, allowed, is_user, respond, serve, unauthorized}

module _ (site : Site) (user pass : Bytes) (named : site.username ≢ []) where
  username-full : is_empty site.username ≡ false
  username-full = full site.username named
    where
      full : (s : Bytes) → s ≢ [] → is_empty s ≡ false
      full [] h = absurd (h refl)
      full (c ∷ s) h = refl

  is_user-false :
      (site.digest user ≡ site.digest site.username → user ≡ site.username)
      → (site.digest pass ≡ site.digest site.password → pass ≡ site.password)
      → (user ≢ site.username) ⊎ (pass ≢ site.password)
      → is_user site (user, pass) ≡ false
  unfolding is_user
  is_user-false distinct apart (inl other) =
      elim (Bool-cases (bytes_eq (site.digest user) (site.digest site.username))) [
        | inl same ↦ absurd (other (distinct (bytes_eq→eq _ _ same)))
        | inr differ ↦ rw differ
      ]
  is_user-false distinct apart (inr other) =
      elim (Bool-cases (bytes_eq (site.digest pass) (site.digest site.password))) [
        | inl same ↦ absurd (other (apart (bytes_eq→eq _ _ same)))
        | inr differ ↦ elim (Bool-cases (bytes_eq (site.digest user) (site.digest site.username))) [
          | inl same ↦ rw (same, differ)
          | inr differs ↦ rw differs
        ]
      ]

  -- With a user name set, a request with another user name or another password gets 401 and changes
  -- nothing, if the digests of these texts do not collide.
  pub serve_denied :
      (disk : Bool) (now : ℕ) (action : Action) (s : Shared)
      → (site.digest user ≡ site.digest site.username → user ≡ site.username)
      → (site.digest pass ≡ site.digest site.password → pass ≡ site.password)
      → (user ≢ site.username) ⊎ (pass ≢ site.password)
      → serve site disk now (some (user, pass)) action s
        ≡ (record { code = 401; payload = unauthorized }, s)
  unfolding serve allowed
  serve_denied disk now action s distinct apart other =
      rw (username-full, is_user-false distinct apart other)

-- A request with the user name and the password of the configuration reaches its handler, and so does
-- every request if no user name is set.
pub serve_allowed :
    (site : Site) (disk : Bool) (now : ℕ) (given : Option (Bytes × Bytes)) (action : Action)
    (s : Shared)
    → (site.username ≡ []) ⊎ (given ≡ some (site.username, site.password))
    → serve site disk now given action s ≡ respond site disk now action s
unfolding serve allowed is_user
serve_allowed site disk now given action s (inl anyone) = rw anyone
serve_allowed site disk now given action s (inr right) =
    elim (Bool-cases (is_empty site.username)) [
      | inl anyone ↦ rw anyone
      | inr named ↦ rw (
        right,
        named,
        bytes_eq_refl (site.digest site.username),
        bytes_eq_refl (site.digest site.password),
      )
    ]
