-- ===== src/Web/Routes/Unique.antt =====
-- A request fits one pattern of the routing table at most: the order of the table does not matter, and the
-- mux finds no conflict.
use local_dns.Base.{
  ◌≡◌, refl, ap, ◌∙◌, sym, ◌⊎◌, inl, inr, List, [], ◌∷◌, ◌++◌, Bool, true, false, ◌&&◌, ◌||◌, Bytes,
  Option, none, some, arith, bytes_eq, bytes_eq→eq, bytes_eq_refl, not, Bool-cases,
}
use local_dns.Base.Text.{is_empty}
use local_dns.Web.Routes.{
  Handler, Pattern, Segment, lit, wild, match_path, method_fits, match_pattern, find_route, table,
  get_text, head_text,
}

-- Whether two paths may have a common instance. A wildcard may meet any segment.
paths_meet : List Segment → Bool → List Segment → Bool → Bool
paths_meet [] false [] false = true
paths_meet [] false [] true = false
paths_meet [] true [] false = false
paths_meet [] true [] true = true
paths_meet [] false (q ∷ qs) t = false
paths_meet [] true (q ∷ qs) t = true
paths_meet (p ∷ ps) s [] false = false
paths_meet (p ∷ ps) s [] true = true
paths_meet (lit a ∷ ps) s (lit b ∷ qs) t = bytes_eq a b && paths_meet ps s qs t
paths_meet (lit a ∷ ps) s (wild ∷ qs) t = paths_meet ps s qs t
paths_meet (wild ∷ ps) s (q ∷ qs) t = paths_meet ps s qs t

-- Whether two patterns may fit one method.
methods_meet : Bytes → Bytes → Bool
methods_meet a b =
    bytes_eq a b
    || (bytes_eq a get_text && bytes_eq b head_text)
    || (bytes_eq a head_text && bytes_eq b get_text)

meet : Pattern → Pattern → Bool
unfolding methods_meet paths_meet
meet p q = methods_meet p.method q.method && paths_meet p.path p.subtree q.path q.subtree

apart : Pattern → List (Pattern × Handler) → Bool
unfolding meet
apart p [] = true
apart p (f ∷ l) = not (meet p f.0) && apart p l

-- No pattern of the list meets one behind it.
no_conflict : List (Pattern × Handler) → Bool
unfolding apart
no_conflict [] = true
no_conflict (e ∷ l) = apart e.0 l && no_conflict l

table-no_conflict : no_conflict table ≡ true
unfolding no_conflict table
table-no_conflict = refl

or-cases : (a b : Bool) → (a || b) ≡ true → (a ≡ true) ⊎ (b ≡ true)
or-cases true b h = inl refl
or-cases false b h = inr h

and-parts : (a b : Bool) → (a && b) ≡ true → (a ≡ true) × (b ≡ true)
and-parts true b h = (refl, h)
and-parts false b h = cc

-- A segment in front keeps a path from fitting.
match_path-none :
    (p : Segment) (ps : List Segment) (s : Bool) (x : Bytes) (xs : List Bytes)
    → match_path ps s xs ≡ none
    → match_path (p ∷ ps) s (x ∷ xs) ≡ none
unfolding match_path
match_path-none (lit t) ps s x xs h = elim (Bool-cases (bytes_eq t x)) [
  | inl same ↦ rw (same, h) refl
  | inr other ↦ rw other refl
]
match_path-none wild ps s x xs h = elim (Bool-cases (is_empty x)) [
  | inl e ↦ rw e refl
  | inr e ↦ rw (e, h) refl
]

match_path-other :
    (t : Bytes) (ps : List Segment) (s : Bool) (x : Bytes) (xs : List Bytes)
    → bytes_eq t x ≡ false
    → match_path (lit t ∷ ps) s (x ∷ xs) ≡ none
unfolding match_path
match_path-other t ps s x xs h = rw h refl

longer :
    (p q : Segment) (ps : List Segment) (s : Bool) (qs : List Segment) (t : Bool) (x : Bytes)
    (xs : List Bytes)
    → (match_path ps s xs ≡ none) ⊎ (match_path qs t xs ≡ none)
    → (match_path (p ∷ ps) s (x ∷ xs) ≡ none) ⊎ (match_path (q ∷ qs) t (x ∷ xs) ≡ none)
longer p q ps s qs t x xs (inl e) = inl (match_path-none p ps s x xs e)
longer p q ps s qs t x xs (inr e) = inr (match_path-none q qs t x xs e)

-- Paths that do not meet have no common instance.
paths_apart :
    (ps : List Segment) (s : Bool) (qs : List Segment) (t : Bool) (xs : List Bytes)
    → paths_meet ps s qs t ≡ false
    → (match_path ps s xs ≡ none) ⊎ (match_path qs t xs ≡ none)
unfolding paths_meet match_path
paths_apart [] false [] false xs h = cc
paths_apart [] false [] true [] h = inr refl
paths_apart [] false [] true (x ∷ xs) h = inl refl
paths_apart [] true [] false [] h = inl refl
paths_apart [] true [] false (x ∷ xs) h = inr refl
paths_apart [] true [] true xs h = cc
paths_apart [] false (q ∷ qs) t [] h = inr refl
paths_apart [] false (q ∷ qs) t (x ∷ xs) h = inl refl
paths_apart [] true (q ∷ qs) t xs h = cc
paths_apart (p ∷ ps) s [] false [] h = inl refl
paths_apart (p ∷ ps) s [] false (x ∷ xs) h = inr refl
paths_apart (p ∷ ps) s [] true xs h = cc
paths_apart (p ∷ ps) s (q ∷ qs) t [] h = inl refl
paths_apart (lit a ∷ ps) s (lit b ∷ qs) t (x ∷ xs) h =
    let later = λ (k : paths_meet ps s qs t ≡ false). paths_apart ps s qs t xs k in
    elim (Bool-cases (bytes_eq a x)) [
      | inr other ↦ inl (match_path-other a ps s x xs other)
      | inl same ↦ elim (Bool-cases (bytes_eq b x)) [
        | inr other ↦ inr (match_path-other b qs t x xs other)
        | inl too ↦
            let equal : a ≡ b = bytes_eq→eq a x same ∙ sym (bytes_eq→eq b x too) in
            longer (lit a) (lit b) ps s qs t x xs (later (rw (equal, bytes_eq_refl b) at h))
      ]
    ]
paths_apart (lit a ∷ ps) s (wild ∷ qs) t (x ∷ xs) h =
    longer (lit a) wild ps s qs t x xs (paths_apart ps s qs t xs h)
paths_apart (wild ∷ ps) s (q ∷ qs) t (x ∷ xs) h =
    longer wild q ps s qs t x xs (paths_apart ps s qs t xs h)

-- Methods that do not meet fit no common one.
methods_apart :
    (a b m : Bytes) → methods_meet a b ≡ false → method_fits a m ≡ true → method_fits b m ≡ true → ⊥
unfolding methods_meet method_fits
methods_apart a b m h f g = elim (or-cases (bytes_eq a m) _ f) [
  | inl am ↦ elim (or-cases (bytes_eq b m) _ g) [
    | inl bm ↦
        let same : bytes_eq a b ≡ true =
          rw (bytes_eq→eq a m am, bytes_eq→eq b m bm) (bytes_eq_refl m) in
        absurd (ground arith)
    | inr bh ↦
        let (bg, mh) = and-parts _ _ bh in
        let ah : bytes_eq a head_text ≡ true = rw (bytes_eq→eq a m am) mh in absurd (ground arith)
  ]
  | inr ah ↦
      let (ag, mh) = and-parts _ _ ah in
      elim (or-cases (bytes_eq b m) _ g) [
        | inl bm ↦
            let bh : bytes_eq b head_text ≡ true = rw (bytes_eq→eq b m bm) mh in
            absurd (ground arith)
        | inr bh ↦
            let (bg, mh') = and-parts _ _ bh in
            let same : bytes_eq a b ≡ true =
              rw (bytes_eq→eq a get_text ag, bytes_eq→eq b get_text bg) refl in
            absurd (ground arith)
      ]
]

-- Patterns that do not meet fit no common request.
patterns_apart :
    (p q : Pattern) (m : Bytes) (path : List Bytes) (values : List Bytes)
    → meet p q ≡ false
    → match_pattern q m path ≡ some values
    → match_pattern p m path ≡ none
unfolding meet match_pattern
patterns_apart p q m path values h e = elim (Bool-cases (method_fits p.method m)) [
  | inr misfit ↦ rw misfit refl
  | inl fits ↦ elim (Bool-cases (method_fits q.method m)) [
    | inr misfit ↦ absurd (ground (arith, misfit))
    | inl too ↦ elim (Bool-cases (methods_meet p.method q.method)) [
      | inr apart ↦ absurd (methods_apart p.method q.method m apart fits too)
      | inl common ↦
          let paths : paths_meet p.path p.subtree q.path q.subtree ≡ false = rw common at h in
          elim (paths_apart p.path p.subtree q.path q.subtree path paths) [
            | inl e' ↦ rw (fits, e') refl
            | inr e' ↦ absurd (ground (arith, too, e'))
          ]
    ]
  ]
]

apart-front :
    (e f : Pattern × Handler) (before after : List (Pattern × Handler))
    → apart f.0 (before ++ e ∷ after) ≡ true
    → meet f.0 e.0 ≡ false
unfolding apart
apart-front e f [] after h = ground arith
apart-front e f (b ∷ before) after h = apart-front e f before after (and-parts _ _ h).1

-- A pattern that fits is taken.
find_route-hit :
    (b : Pattern × Handler) (l : List (Pattern × Handler)) (m : Bytes) (path values : List Bytes)
    → match_pattern b.0 m path ≡ some values
    → find_route m path (b ∷ l) ≡ some (b.1, values)
unfolding find_route
find_route-hit b l m path values h =
    ap
      (λ o. elim o as (λ _. Option (Handler × List Bytes)) [
        | some vs ↦ some (b.1, vs)
        | none ↦ find_route m path l
      ])
      h

-- A pattern that does not fit is passed over.
find_route-miss :
    (b : Pattern × Handler) (l : List (Pattern × Handler)) (m : Bytes) (path : List Bytes)
    → match_pattern b.0 m path ≡ none
    → find_route m path (b ∷ l) ≡ find_route m path l
unfolding find_route
find_route-miss b l m path h =
    ap
      (λ o. elim o as (λ _. Option (Handler × List Bytes)) [
        | some values ↦ some (b.1, values)
        | none ↦ find_route m path l
      ])
      h

find_route_unique :
    (e : Pattern × Handler) (before after : List (Pattern × Handler)) (m : Bytes)
    (path values : List Bytes)
    → no_conflict (before ++ e ∷ after) ≡ true
    → match_pattern e.0 m path ≡ some values
    → find_route m path (before ++ e ∷ after) ≡ some (e.1, values)
unfolding no_conflict
find_route_unique e [] after m path values h fit = find_route-hit e after m path values fit
find_route_unique e (b ∷ before) after m path values h fit =
    let (front, rest) = and-parts _ _ h in
    let miss = patterns_apart b.0 e.0 m path values (apart-front e b before after front) fit in
    find_route-miss b (before ++ e ∷ after) m path miss
    ∙ find_route_unique e before after m path values rest fit

-- A request that fits a pattern of the routing table reaches the handler of that pattern, with the values
-- of its wildcards, wherever the pattern stands in the table.
pub find_route-table :
    (e : Pattern × Handler) (before after : List (Pattern × Handler)) (m : Bytes)
    (path values : List Bytes)
    → table ≡ before ++ e ∷ after
    → match_pattern e.0 m path ≡ some values
    → find_route m path table ≡ some (e.1, values)
find_route-table e before after m path values parts fit =
    rw parts (find_route_unique e before after m path values (rw parts at table-no_conflict) fit)
