-- ===== src/Store/Resolve/Alike.antt =====
-- What the lookups find depends only on what the maps have under their keys.
use local_dns.Base.{◌≡◌, refl, sym, ap, ◌∙◌, Bytes, Option, none, some}
use local_dns.Dict.{get}
use local_dns.Store.State.{Mapping, Store}
use local_dns.Store.Durable.{Agrees}
use local_dns.Store.Files.Less.{less_total}
use local_dns.Store.Resolve.{resolve_locked, resolve_name, resolve_ptr}
use local_dns.Store.Resolve.Reverse.{IsAnswer, Leads, resolve_ptr-IsAnswer}

module _ (s t : Store) (same : Agrees s t) where
  resolve_locked-Agrees : (m : Mapping) → resolve_locked m s ≡ resolve_locked m t
  unfolding resolve_locked
  resolve_locked-Agrees m = rw (same.devices m.mac) refl

  pub resolve_name-Agrees : (h : Bytes) → resolve_name h s ≡ resolve_name h t
  unfolding resolve_name
  resolve_name-Agrees h =
      ap
        (λ o. elim o as (λ _. Option (Option Bytes)) [
          | none ↦ none
          | some m ↦ some (resolve_locked m s)
        ])
        (same.mappings h)
      ∙ go (get h t.mappings)
    where
      go :
          (o : Option Mapping)
          → (elim o [ none ↦ none | some m ↦ some (resolve_locked m s) ])
            ≡ (elim o [ none ↦ none | some m ↦ some (resolve_locked m t) ])
      go none = refl
      go (some m) = ap some (resolve_locked-Agrees m)

Leads-Agrees : (s t : Store) (ip k : Bytes) → Agrees s t → Leads s ip k → Leads t ip k
unfolding Leads
Leads-Agrees s t ip k a (cur, e, at) = (cur, sym (resolve_name-Agrees s t a k) ∙ e, at)

IsAnswer-Agrees :
    (s t : Store) (ip : Bytes) (o : Option Bytes)
    → Agrees s t
    → Agrees t s
    → IsAnswer s ip o
    → IsAnswer t ip o
unfolding IsAnswer
IsAnswer-Agrees s t ip none a b f = λ k leads. f k (Leads-Agrees t s ip k b leads)
IsAnswer-Agrees s t ip (some h) a b (leads, f) =
    (Leads-Agrees s t ip h a leads, λ k there. f k (Leads-Agrees t s ip k b there))

-- There is one answer.
IsAnswer-unique :
    (s : Store) (ip : Bytes) (o p : Option Bytes) → IsAnswer s ip o → IsAnswer s ip p → o ≡ p
unfolding IsAnswer
IsAnswer-unique s ip none none f g = refl
IsAnswer-unique s ip none (some k) f (leads, g) = absurd (f k leads)
IsAnswer-unique s ip (some h) none (leads, f) g = absurd (g h leads)
IsAnswer-unique s ip (some h) (some k) (there, f) (here, g) =
    ap some (less_total h k (g h there) (f k here))

pub Agrees-sym : (s t : Store) → Agrees s t → Agrees t s
Agrees-sym s t a = record { devices = λ k. sym (a.devices k); mappings = λ k. sym (a.mappings k) }

pub resolve_ptr-Agrees :
    (s t : Store) (ip : Bytes) → Agrees s t → resolve_ptr ip s ≡ resolve_ptr ip t
resolve_ptr-Agrees s t ip a =
    IsAnswer-unique t ip (resolve_ptr ip s) (resolve_ptr ip t)
      (IsAnswer-Agrees s t ip (resolve_ptr ip s) a (Agrees-sym s t a) (resolve_ptr-IsAnswer ip s))
      (resolve_ptr-IsAnswer ip t)
