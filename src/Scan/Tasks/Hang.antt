-- ===== src/Scan/Tasks/Hang.antt =====
-- A scan whose semaphore has no place.
use pyscan.Prelude.{ℕ, suc, ◌<◌, ◌≡◌, refl, ap, ◌∙◌, List, [], ◌∷◌, arith, length}
use pyscan.Scan.Tasks.{
  paced, queued, probing, finished, here, there, stop, step, admit, acquire, answer, Task,
  PortResult, spawn, Step, Run, IsGathered,
}
use pyscan.Scan.Models.{PortResult}

module _ {T : Type 0} where
  -- Not yet probed.
  IsWaiting : List (ℕ × Task T) → Type 0
  IsWaiting [] = Unit
  IsWaiting ((port, paced attempt left) ∷ rest) = IsWaiting rest
  IsWaiting ((port, queued attempt left) ∷ rest) = IsWaiting rest
  IsWaiting _ = ⊥

spawn-IsWaiting :
    (T : Type 0) (retries : ℕ) (ports : List ℕ) → IsWaiting (spawn {T = T} retries ports)
unfolding IsWaiting spawn
spawn-IsWaiting T retries [] = tt
spawn-IsWaiting T retries (port ∷ ports) = spawn-IsWaiting T retries ports

length-spawn :
    (T : Type 0) (retries : ℕ) (ports : List ℕ)
    → length (spawn {T = T} retries ports) ≡ length ports
unfolding spawn
length-spawn T retries [] = refl
length-spawn T retries (port ∷ ports) = ap suc (length-spawn T retries ports)

module _ {T : Type 0} where
  waiting_not-IsGathered :
      (tasks : List (ℕ × Task T)) (results : List (PortResult T))
      → IsWaiting tasks
      → 0 < length tasks
      → ¬ IsGathered tasks results
  unfolding IsWaiting
  waiting_not-IsGathered [] results w l g = omega (arith, l)
  waiting_not-IsGathered (first ∷ rest) [] w l g = absurd g
  waiting_not-IsGathered ((port, paced attempt left) ∷ rest) (r ∷ results) w l (e, g) = cc
  waiting_not-IsGathered ((port, queued attempt left) ∷ rest) (r ∷ results) w l (e, g) = cc
  waiting_not-IsGathered ((port, probing attempt left) ∷ rest) (r ∷ results) w l (e, g) = absurd w
  waiting_not-IsGathered ((port, finished s) ∷ rest) (r ∷ results) w l (e, g) = absurd w

  Step-IsWaiting :
      {network : ℕ → ℕ → PortResult T} {free free' : ℕ} {tasks tasks' : List (ℕ × Task T)}
      → Step network free tasks free' tasks'
      → free ≡ 0
      → IsWaiting tasks
      → (free' ≡ 0) × IsWaiting tasks' × (length tasks' ≡ length tasks)
  unfolding IsWaiting
  Step-IsWaiting (here admit) e w = (e, w, refl)
  Step-IsWaiting (here acquire) e w = absurd (omega (arith, e))
  Step-IsWaiting (here (answer next n)) e w = absurd w
  Step-IsWaiting (there {first = (port, paced attempt left)} s) e w =
      let (e', w', l) = Step-IsWaiting s e w in (e', w', ap suc l)
  Step-IsWaiting (there {first = (port, queued attempt left)} s) e w =
      let (e', w', l) = Step-IsWaiting s e w in (e', w', ap suc l)
  Step-IsWaiting (there {first = (port, probing attempt left)} s) e w = absurd w
  Step-IsWaiting (there {first = (port, finished r)} s) e w = absurd w

  Run-IsWaiting :
      {network : ℕ → ℕ → PortResult T} {free free' : ℕ} {tasks tasks' : List (ℕ × Task T)}
      → Run network free tasks free' tasks'
      → free ≡ 0
      → IsWaiting tasks
      → IsWaiting tasks' × (length tasks' ≡ length tasks)
  Run-IsWaiting stop e w = (w, refl)
  Run-IsWaiting (step s run) e w =
      let (e', w', l) = Step-IsWaiting s e w in
      let (w'', l') = Run-IsWaiting run e' w' in (w'', l' ∙ l)

  -- A scan of some port with a concurrency of zero, which the command line does not refuse, never
  -- gathers its results: no state that its tasks can reach has them.
  pub scan_hangs :
      (network : ℕ → ℕ → PortResult T) (retries port : ℕ) (ports : List ℕ) {free : ℕ}
      {tasks : List (ℕ × Task T)} (results : List (PortResult T))
      → Run network 0 (spawn retries (port ∷ ports)) free tasks
      → ¬ IsGathered tasks results
  scan_hangs network retries port ports {free} {tasks} results run g =
      let (w, l) = Run-IsWaiting run refl (spawn-IsWaiting T retries (port ∷ ports)) in
      waiting_not-IsGathered tasks results w
        (omega (arith, l, length-spawn T retries (port ∷ ports))) g
