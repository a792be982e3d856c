-- ===== src/Scanner/Pool.antt =====
-- sweep.go: the goroutines of `sweep` behind their semaphore. The loop waits for a place, starts a task and
-- goes on to the next; at the end it waits for the tasks that run. A loop whose context ends starts
-- no other task.
pub mod Runs
pub mod Sweep
use local_dns.Base.{◌<◌, ◌≡◌, ℕ, List, [], ◌∷◌, ◌++◌, Bytes, Option, length}
use local_dns.Scanner.Network.{NetContext}
use local_dns.Scanner.Round.{Settings, swept}

-- The tasks that were not started, those that run, those that ended, the last one first, and those that a
-- loop left when it was cancelled.
pub record Pool (A : Type 0) : Type 0 where
  pub waiting : List A
  pub running : List A
  pub ended : List A
  pub left : List A

abbrev pub new_pool : {A : Type 0} → List A → Pool A
new_pool tasks = record { waiting = tasks; running = []; ended = []; left = [] }

-- With a semaphore of `width` places.
pub data Step {A : Type 0} (width : ℕ) (p p' : Pool A) : Type 0 where
  begin :
      (a : A) (rest : List A)
      → p.waiting ≡ a ∷ rest
      → length p.running < width
      → p' ≡ record p { waiting = rest; running = a ∷ p.running }
      → Step width p p'
  finish :
      (a : A) (before after : List A)
      → p.running ≡ before ++ a ∷ after
      → p' ≡ record p { running = before ++ after; ended = a ∷ p.ended }
      → Step width p p'
  cancel :
      (a : A) (rest : List A)
      → p.waiting ≡ a ∷ rest
      → p' ≡ record p { waiting = []; left = (a ∷ rest) ++ p.left }
      → Step width p p'

pub data Reach {A : Type 0} (width : ℕ) (p : Pool A) : Pool A → Type 0 where
  here : Reach width p p
  next : {q r : Pool A} → Reach width p q → Step width q r → Reach width p r

-- The loop is through, and no task runs.
pub IsOver : {A : Type 0} → Pool A → Type 0
IsOver p = (p.waiting ≡ []) × (p.running ≡ [])

abbrev pub sweep_width : ℕ
sweep_width = 128

-- The datagrams of a sweep.
abbrev pub sweep_pool : Settings → Option NetContext → Pool Bytes
sweep_pool c nc = new_pool (swept c nc)
