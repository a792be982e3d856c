-- ===== src/Store/Files/Less.antt =====
-- The order of strings is a strict and total one.
use local_dns.Base.{◌≡◌, refl, [], ◌∷◌, true, false, Bytes, arith}
use local_dns.Store.Files.{less}

pub less_irrefl : (s : Bytes) → less s s ≡ false
unfolding less
less_irrefl [] = refl
less_irrefl (c ∷ s) = ground (arith, less_irrefl s)

pub less_trans : (s t u : Bytes) → less s t ≡ true → less t u ≡ true → less s u ≡ true
unfolding less
less_trans s t [] h k = cc
less_trans [] t (e ∷ u) h k = refl
less_trans (c ∷ s) [] (e ∷ u) h k = cc
less_trans (c ∷ s) (d ∷ t) (e ∷ u) h k = ground (arith, less_trans s t u)

pub less_total : (s t : Bytes) → less s t ≡ false → less t s ≡ false → s ≡ t
unfolding less
less_total [] [] h k = refl
less_total [] (d ∷ t) h k = cc
less_total (c ∷ s) [] h k = cc
less_total (c ∷ s) (d ∷ t) h k = ground (arith, less_total s t)

pub less_asym : (s t : Bytes) → less s t ≡ true → less t s ≡ false
less_asym s t h = ground (arith, less_irrefl s, less_trans s t s)
