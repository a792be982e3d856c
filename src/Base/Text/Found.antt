-- ===== src/Base/Text/Found.antt =====
-- Where the searches for a byte stop.
use Prim.Native.Nat.{ℕ}
use mathlib.Core.Path.{◌≡◌, refl}
use mathlib.Core.Bool.{false, ◌||◌}
use mathlib.Core.Option.{none, some}
use mathlib.Core.List.{[], ◌∷◌, ◌++◌}
use native.Mathlib.Omega.{arith}
use local_dns.Base.Tests.{Bytes, ne→==}
use local_dns.Base.Lists.{length}
use local_dns.Base.Text.{contains, Lacks}
use local_dns.Base.Text.Search.{index_byte, last_index_byte}

module _ (b : ℕ) where
  pub contains-Lacks : (s : Bytes) → Lacks b s → contains b s ≡ false
  unfolding contains
  contains-Lacks [] h = refl
  contains-Lacks (c ∷ s) (hc, h) = rw (ne→== c b hc, contains-Lacks s h)

  pub contains-append : (s t : Bytes) → contains b (s ++ t) ≡ (contains b s || contains b t)
  unfolding contains
  contains-append [] t = refl
  contains-append (c ∷ s) t = ground (arith, contains-append s t)

  last_index_byte-Lacks : (s : Bytes) → Lacks b s → last_index_byte b s ≡ none
  unfolding last_index_byte
  last_index_byte-Lacks [] h = refl
  last_index_byte-Lacks (c ∷ s) (hc, h) = ground (arith, last_index_byte-Lacks s h)

  pub last_index_byte-append :
      (s t : Bytes) → Lacks b t → last_index_byte b (s ++ b ∷ t) ≡ some (length s)
  unfolding last_index_byte
  last_index_byte-append [] t h = ground (arith, last_index_byte-Lacks t h)
  last_index_byte-append (c ∷ s) t h = ground (arith, last_index_byte-append s t h)

  pub index_byte-append : (s t : Bytes) → Lacks b s → index_byte b (s ++ b ∷ t) ≡ some (length s)
  unfolding index_byte
  index_byte-append [] t h = ground arith
  index_byte-append (c ∷ s) t (hc, h) = ground (arith, index_byte-append s t h)
