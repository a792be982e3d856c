-- ===== src/Scanner/Pool/Runs.antt =====
-- No more tasks run than the semaphore has places, each task runs once, and the loop ends.
use mathlib.Core.List.{Perm, perm_middle, perm_append_comm}
use mathlib.Core.List.Perm
use mathlib.Core.Path.{subst}
use local_dns.Base.{
  ℕ, zero, suc, ◌+◌, ◌*◌, ◌≤◌, ◌<◌, ◌≡◌, refl, sym, ap, ◌∙◌, List, [], ◌∷◌, ◌++◌, append-nil,
  append_assoc, arith, length, length-append,
}
use local_dns.Scanner.Pool.{Pool, Step, Reach, IsOver, begin, finish, cancel, here, next, new_pool}

module _ {A : Type 0} where
  -- All tasks, wherever they are.
  abbrev pub tasks_of : Pool A → List A
  tasks_of p = p.waiting ++ (p.running ++ (p.ended ++ p.left))

  -- What is left to do: a start and an end for each task that waits, an end for each that runs.
  abbrev pub work : Pool A → ℕ
  work p = 2 * length p.waiting + length p.running

  pub record IsKept (width : ℕ) (tasks : List A) (p : Pool A) : Type 0 where
    pub bounded : length p.running ≤ width
    pub same_tasks : Perm (tasks_of p) tasks

  middle_out :
      (a : A) (before after ended left : List A)
      → Perm ((before ++ after) ++ ((a ∷ ended) ++ left)) ((before ++ a ∷ after) ++ (ended ++ left))
  middle_out a before after ended left =
      Perm.trans (perm_middle (before ++ after) (ended ++ left))
        (Perm.append_right (ended ++ left) (Perm.symm (perm_middle before after)))

  append_swap : (xs w ys : List A) → Perm (xs ++ (w ++ ys)) (w ++ (xs ++ ys))
  append_swap xs w ys =
      subst (λ l. Perm l (w ++ (xs ++ ys))) (append_assoc xs w ys)
        (subst (λ l. Perm ((xs ++ w) ++ ys) l) (append_assoc w xs ys)
          (Perm.append_right ys (perm_append_comm xs w)))

  Step-IsKept :
      (width : ℕ) (tasks : List A) (p q : Pool A)
      → Step width p q
      → IsKept width tasks p
      → IsKept width tasks q
  Step-IsKept width tasks p q (begin a rest first room e) k = rw e (record {
    bounded = room;
    same_tasks =
        Perm.trans (perm_middle rest (p.running ++ (p.ended ++ p.left)))
          (subst (λ l. Perm (l ++ (p.running ++ (p.ended ++ p.left))) tasks) first k.same_tasks);
  })
  Step-IsKept width tasks p q (finish a before after there e) k = rw e (record {
    bounded = omega (
      arith,
      k.bounded,
      ap length there,
      length-append before (a ∷ after),
      length-append before after,
    );
    same_tasks =
        Perm.trans (Perm.append_left p.waiting (middle_out a before after p.ended p.left))
          (subst (λ l. Perm (p.waiting ++ (l ++ (p.ended ++ p.left))) tasks) there k.same_tasks);
  })
  Step-IsKept width tasks p q (cancel a rest first e) k = rw e (record {
    bounded = k.bounded;
    same_tasks =
        Perm.trans
          (Perm.trans (Perm.append_left p.running (append_swap p.ended (a ∷ rest) p.left))
            (append_swap p.running (a ∷ rest) (p.ended ++ p.left)))
          (subst (λ l. Perm (l ++ (p.running ++ (p.ended ++ p.left))) tasks) first k.same_tasks);
  })

  pub Reach-IsKept :
      (width : ℕ) (tasks : List A) {p q : Pool A}
      → IsKept width tasks p
      → Reach width p q
      → IsKept width tasks q
  Reach-IsKept width tasks k here = k
  Reach-IsKept width tasks k (next {q} {r} before st) =
      Step-IsKept width tasks q r st (Reach-IsKept width tasks k before)

  pub new-IsKept : (width : ℕ) (tasks : List A) → IsKept width tasks (new_pool tasks)
  new-IsKept width tasks = record {
    bounded = omega arith;
    same_tasks = subst (λ l. Perm l tasks) (sym (append-nil tasks)) (Perm.refl tasks);
  }

  -- Each step does some of the work.
  work-Step : (width : ℕ) (p q : Pool A) → Step width p q → work q + 1 ≤ work p
  work-Step width p q (begin a rest first room e) = rw e (omega (arith, ap length first))
  work-Step width p q (finish a before after there e) =
      rw e (
        omega
          (arith, ap length there, length-append before (a ∷ after), length-append before after))
  work-Step width p q (cancel a rest first e) = rw e (omega (arith, ap length first))

  -- The number of the steps.
  unfoldable pub steps : {width : ℕ} {p q : Pool A} → Reach width p q → ℕ
  steps here = 0
  steps (next r st) = steps r + 1

  pub steps-work : (width : ℕ) {p q : Pool A} (r : Reach width p q) → steps r + work q ≤ work p
  unfolding steps
  steps-work width here = omega arith
  steps-work width (next {q} {r} before st) =
      omega (arith, steps-work width before, work-Step width q r st)

  Reach-first : {width : ℕ} {p q r : Pool A} → Step width p q → Reach width q r → Reach width p r
  Reach-first st here = next here st
  Reach-first st (next r last) = next (Reach-first st r) last

  -- A loop that is not over can take a step, and so it can end, without another task that is left.
  pub Reach-IsOver :
      (width n : ℕ) (waiting running ended left : List A)
      → 0 < width
      → 2 * length waiting + length running ≤ n
      → (q : Pool A) × Reach width
          (record { waiting = waiting; running = running; ended = ended; left = left })
          q
        × IsOver q
        × (q.left ≡ left)
  unfolding IsOver
  Reach-IsOver width n [] [] ended left places enough = (_, here, (refl, refl), refl)
  Reach-IsOver width zero (a ∷ waiting) [] ended left places enough = absurd (omega (arith, enough))
  Reach-IsOver width zero waiting (a ∷ running) ended left places enough =
      absurd (omega (arith, enough))
  Reach-IsOver width (suc n) (a ∷ waiting) [] ended left places enough =
      let (q, r, over, same) =
        Reach-IsOver width n waiting (a ∷ []) ended left places (omega (arith, enough)) in
      (q, Reach-first (begin a waiting refl places refl) r, over, same)
  Reach-IsOver width (suc n) waiting (a ∷ running) ended left places enough =
      let (q, r, over, same) =
        Reach-IsOver width n waiting running (a ∷ ended) left places (omega (arith, enough)) in
      (q, Reach-first (finish a [] running refl refl) r, over, same)

  -- When all is over, the tasks are those that ended and those that were left.
  pub tasks_of-IsOver : (p : Pool A) → IsOver p → tasks_of p ≡ p.ended ++ p.left
  unfolding IsOver
  tasks_of-IsOver p (waits, runs) =
      ap (λ l. l ++ (p.running ++ (p.ended ++ p.left))) waits
      ∙ ap (λ l. l ++ (p.ended ++ p.left)) runs
