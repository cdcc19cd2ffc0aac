-- ===== src/Scan/Tasks/Completion.antt =====
-- Every scan with a place in its semaphore comes to its end.
use pyscan.Prelude.{
  ℕ, suc, zero, ◌+◌, ◌*◌, ◌<◌, ◌≤◌, ◌≡◌, refl, inl, inr, not, List, [], ◌∷◌, arith, length,
  Bool-cases,
}
use pyscan.Scan.Tasks.{
  paced, queued, probing, finished, here, there, stop, step, admit, acquire, answer, Task,
  after_probe, PortResult, spawn, in_flight, is_inconclusive, Move, Step, Run, IsGathered,
}
use pyscan.Scan.Models.{PortResult}
use pyscan.Scan.Service.{is_inconclusive}
use pyscan.Scan.Tasks.Flight.{Step-in_flight, Run-in_flight}

module _ {T : Type 0} where
  -- How many steps a task may still take.
  weight : Task T → ℕ
  weight (paced attempt left) = 3 * left + 3
  weight (queued attempt left) = 3 * left + 2
  weight (probing attempt left) = 3 * left + 1
  weight (finished result) = 0

  weight-after_probe :
      (answers : ℕ → PortResult T) (attempt left : ℕ)
      → weight (after_probe answers attempt left) < 3 * left + 1
  unfolding weight after_probe
  weight-after_probe answers attempt zero = omega arith
  weight-after_probe answers attempt (suc left) =
      elim (Bool-cases (not (is_inconclusive (answers attempt).state))) [
        | inl done ↦ rw done (omega arith)
        | inr again ↦ rw again (omega arith)
      ]

  Move-weight :
      {answers : ℕ → PortResult T} {free free' : ℕ} {task task' : Task T}
      → Move answers free task free' task'
      → weight task' < weight task
  unfolding weight
  Move-weight admit = omega arith
  Move-weight acquire = omega arith
  Move-weight {answers} (answer {free} {attempt} {left} next e) =
      rw e (weight-after_probe answers attempt left)

  weights : List (ℕ × Task T) → ℕ
  weights [] = 0
  weights ((port, task) ∷ rest) = weight task + weights rest

weights-spawn :
    (T : Type 0) (retries : ℕ) (ports : List ℕ)
    → weights (spawn {T = T} retries ports) ≡ (3 * retries + 3) * length ports
unfolding weights spawn weight
weights-spawn T retries [] = omega arith
weights-spawn T retries (port ∷ ports) = grind (arith, weights-spawn T retries ports)

module _ {T : Type 0} where
  Step-weights :
      {network : ℕ → ℕ → PortResult T} {free free' : ℕ} {tasks tasks' : List (ℕ × Task T)}
      → Step network free tasks free' tasks'
      → weights tasks' < weights tasks
  unfolding weights
  Step-weights (here move) = omega (arith, Move-weight move)
  Step-weights (there {first = (port, task)} s) = omega (arith, Step-weights s)

  -- The number of steps of a run.
  abbrev pub steps :
      {network : ℕ → ℕ → PortResult T} {free free' : ℕ} {tasks tasks' : List (ℕ × Task T)}
      → Run network free tasks free' tasks'
      → ℕ
  steps stop = 0
  steps (step s run) = 1 + steps run

  Run-weights :
      {network : ℕ → ℕ → PortResult T} {free free' : ℕ} {tasks tasks' : List (ℕ × Task T)}
      (run : Run network free tasks free' tasks')
      → steps run + weights tasks' ≤ weights tasks
  Run-weights stop = omega arith
  Run-weights (step s run) = omega (arith, Run-weights run, Step-weights s)

  in_flight-IsGathered :
      (tasks : List (ℕ × Task T)) (results : List (PortResult T))
      → IsGathered tasks results
      → in_flight tasks ≡ 0
  unfolding in_flight
  in_flight-IsGathered [] results g = refl
  in_flight-IsGathered ((port, finished r) ∷ rest) (s ∷ results) (e, g) =
      in_flight-IsGathered rest results g
  in_flight-IsGathered ((port, paced attempt left) ∷ rest) (s ∷ results) (e, g) = cc
  in_flight-IsGathered ((port, queued attempt left) ∷ rest) (s ∷ results) (e, g) = cc
  in_flight-IsGathered ((port, probing attempt left) ∷ rest) (s ∷ results) (e, g) = cc
  in_flight-IsGathered (first ∷ rest) [] g = absurd g

  -- Every task has its result, or some task can go on.
  pub data Progress (network : ℕ → ℕ → PortResult T) (free : ℕ) (tasks : List (ℕ × Task T))
      : Type 0 where
    gathered :
        (results : List (PortResult T)) → IsGathered tasks results → Progress network free tasks
    moves :
        (free' : ℕ) (tasks' : List (ℕ × Task T))
        → Step network free tasks free' tasks'
        → Progress network free tasks

  progress :
      (network : ℕ → ℕ → PortResult T) (free : ℕ) (tasks : List (ℕ × Task T))
      → 0 < free + in_flight tasks
      → Progress network free tasks
  unfolding in_flight
  progress network free [] h = gathered [] tt
  progress network free ((port, paced attempt left) ∷ rest) h = moves free _ (here admit)
  progress network free ((port, probing attempt left) ∷ rest) h =
      moves (suc free) _ (here (answer _ refl))
  progress network (suc free) ((port, queued attempt left) ∷ rest) h = moves free _ (here acquire)
  progress network zero ((port, queued attempt left) ∷ rest) h =
      elim (progress network zero rest (omega (arith, h))) [
        | gathered results g ↦ absurd (omega (arith, h, in_flight-IsGathered rest results g))
        | moves free' rest' s ↦ moves free' ((port, queued attempt left) ∷ rest') (there s)
      ]
  progress network free ((port, finished r) ∷ rest) h = elim (progress network free rest h) [
    | gathered results g ↦ gathered (r ∷ results) (refl, g)
    | moves free' rest' s ↦ moves free' ((port, finished r) ∷ rest') (there s)
  ]

  completes :
      (fuel : ℕ) (network : ℕ → ℕ → PortResult T) (free : ℕ) (tasks : List (ℕ × Task T))
      → weights tasks < fuel
      → 0 < free + in_flight tasks
      → (free' : ℕ) × (tasks' : List (ℕ × Task T)) × (results : List (PortResult T)) × Run network
          free tasks free' tasks'
        × IsGathered tasks' results
  completes zero network free tasks w h = absurd (omega (arith, w))
  completes (suc fuel) network free tasks w h = elim (progress network free tasks h) [
    | gathered results g ↦ (free, tasks, results, stop, g)
    | moves free' tasks' s ↦
        let (free'', tasks'', results, run, g) =
          completes fuel network free' tasks' (omega (arith, w, Step-weights s))
            (omega (arith, h, Step-in_flight s)) in
        (free'', tasks'', results, step s run, g)
  ]

  -- With one place or more in the semaphore no schedule is stuck or endless: each run of the tasks
  -- so far has at most three steps for each attempt allowed, and it goes on to a state in which
  -- every port has its result.
  pub scan_completes :
      (network : ℕ → ℕ → PortResult T) (concurrency retries : ℕ) (ports : List ℕ) {free : ℕ}
      {tasks : List (ℕ × Task T)}
      (so_far : Run network concurrency (spawn retries ports) free tasks)
      → 0 < concurrency
      → (steps so_far ≤ (3 * retries + 3) * length ports)
        × ((free' : ℕ) × (tasks' : List (ℕ × Task T)) × (results : List (PortResult T)) × Run
              network free tasks free' tasks'
            × IsGathered tasks' results)
  scan_completes network concurrency retries ports {free} {tasks} so_far some_place =
      let kept = Run-in_flight so_far in
      (
        omega (arith, Run-weights so_far, weights-spawn T retries ports),
        completes (suc (weights tasks)) network free tasks (omega arith)
            (omega (arith, kept, some_place)),
      )
