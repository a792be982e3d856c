-- ===== src/Scanner/Pool/Sweep.antt =====
-- What the goroutines of a sweep do, however they are scheduled.
use mathlib.Core.List.{Perm}
use mathlib.Core.Path.{subst}
use local_dns.Base.{◌*◌, ◌≤◌, ap, ◌∙◌, ◌++◌, Bytes, Option, arith, length}
use local_dns.Scanner.Network.{NetContext}
use local_dns.Scanner.Round.{Settings, swept}
use local_dns.Scanner.Pool.{Pool, Reach, IsOver, sweep_pool, sweep_width}
use local_dns.Scanner.Pool.Runs.{
  tasks_of, tasks_of-IsOver, steps, steps-work, Reach-IsOver, new-IsKept, Reach-IsKept, work,
}

-- However the goroutines of a sweep are scheduled and whenever its context ends: at most 128 of them run
-- at once, the addresses whose goroutine waits to start, runs, has ended or was given up are those of
-- the sweep, each as often as the sweep has it, and there are at most two steps for each of them.
pub Reach-sweep_pool :
    (c : Settings) (nc : Option NetContext) {p : Pool Bytes}
    (r : Reach sweep_width (sweep_pool c nc) p)
    → (length p.running ≤ 128)
      × Perm (tasks_of p) (swept c nc)
      × (steps r ≤ 2 * length (swept c nc))
Reach-sweep_pool c nc r =
    let k = Reach-IsKept sweep_width (swept c nc) (new-IsKept sweep_width (swept c nc)) r in
    (k.bounded, k.same_tasks, omega (arith, steps-work sweep_width r))

-- Whatever a sweep has done so far, it can end, with no goroutine left that waits or runs, and without
-- giving up an address that it has not given up yet; then the addresses whose goroutine has ended and
-- those that were given up are those of the sweep, each as often as the sweep has it.
pub sweep_pool-IsOver :
    (c : Settings) (nc : Option NetContext) (p : Pool Bytes)
    → Reach sweep_width (sweep_pool c nc) p
    → (q : Pool Bytes) × Reach sweep_width p q × IsOver q × Perm (q.ended ++ p.left) (swept c nc)
sweep_pool-IsOver c nc p r =
    let (q, later, over, same) =
      Reach-IsOver sweep_width (work p) p.waiting p.running p.ended p.left (omega arith)
        (omega arith) in
    (
      q,
      later,
      over,
      subst (λ l. Perm l (swept c nc)) (tasks_of-IsOver q over ∙ ap (λ l. q.ended ++ l) same)
          (Reach-IsKept sweep_width (swept c nc)
            (Reach-IsKept sweep_width (swept c nc) (new-IsKept sweep_width (swept c nc)) r)
            later).same_tasks,
    )
