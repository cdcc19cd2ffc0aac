-- ===== src/Scan/Tasks/Outcome.antt =====
-- What the tasks of a scan come to, whatever the order in which they go on.
use pyscan.Prelude.{
  ℕ, suc, zero, ◌≡◌, refl, sym, ap, ◌∙◌, inl, inr, Option, List, [], ◌∷◌, map, Text, Bool-cases,
  pos, map-map,
}
use mathlib.Core.Path.{ap₂}
use pyscan.Scan.Service.{
  scan_ports, retry, bounded, ServiceInfo, is_inconclusive, sort_results, enrich,
}
use pyscan.Scan.Tasks.{
  after_probe, spawn, Task, paced, Move, Step, Run, IsGathered, queued, answer, here, step, admit,
  stop, probing, there, acquire, finished,
}
use pyscan.Scan.Models.{PortResult}

module _ {T : Type 0} where
  -- The result that a task is on its way to.
  outcome : (ℕ → PortResult T) → Task T → PortResult T
  outcome answers (paced attempt left) = retry answers left attempt
  outcome answers (queued attempt left) = retry answers left attempt
  outcome answers (probing attempt left) = retry answers left attempt
  outcome answers (finished result) = result

  outcome-after_probe :
      (answers : ℕ → PortResult T) (attempt left : ℕ)
      → outcome answers (after_probe answers attempt left) ≡ retry answers left attempt
  unfolding outcome after_probe retry
  outcome-after_probe answers attempt zero = refl
  outcome-after_probe answers attempt (suc left) =
      elim (Bool-cases (is_inconclusive (answers attempt).state)) [
        | inl again ↦ rw again refl
        | inr done ↦ rw done refl
      ]

  Move-outcome :
      {answers : ℕ → PortResult T} {free free' : ℕ} {task task' : Task T}
      → Move answers free task free' task'
      → outcome answers task' ≡ outcome answers task
  unfolding outcome
  Move-outcome admit = refl
  Move-outcome acquire = refl
  Move-outcome {answers} (answer {free} {attempt} {left} next e) =
      ap (outcome answers) e ∙ outcome-after_probe answers attempt left

  outcomes : (ℕ → ℕ → PortResult T) → List (ℕ × Task T) → List (PortResult T)
  outcomes network [] = []
  outcomes network ((port, task) ∷ rest) = outcome (network port) task ∷ outcomes network rest

  Step-outcomes :
      {network : ℕ → ℕ → PortResult T} {free free' : ℕ} {tasks tasks' : List (ℕ × Task T)}
      → Step network free tasks free' tasks'
      → outcomes network tasks' ≡ outcomes network tasks
  unfolding outcomes
  Step-outcomes {network} (here {rest = rest} move) =
      ap (λ r. r ∷ outcomes network rest) (Move-outcome move)
  Step-outcomes {network} (there {first = (port, task)} s) =
      ap (◌∷◌ (outcome (network port) task)) (Step-outcomes s)

  Run-outcomes :
      {network : ℕ → ℕ → PortResult T} {free free' : ℕ} {tasks tasks' : List (ℕ × Task T)}
      → Run network free tasks free' tasks'
      → outcomes network tasks' ≡ outcomes network tasks
  Run-outcomes stop = refl
  Run-outcomes (step s run) = Run-outcomes run ∙ Step-outcomes s

  outcomes-spawn :
      (network : ℕ → ℕ → PortResult T) (retries : ℕ) (ports : List ℕ)
      → outcomes network (spawn retries ports)
        ≡ map (λ port. bounded (network port) (pos retries)) ports
  unfolding outcomes outcome spawn bounded
  outcomes-spawn network retries [] = refl
  outcomes-spawn network retries (port ∷ ports) =
      ap (◌∷◌ (retry (network port) retries 0)) (outcomes-spawn network retries ports)

  outcomes-IsGathered :
      (network : ℕ → ℕ → PortResult T) (tasks : List (ℕ × Task T)) (results : List (PortResult T))
      → IsGathered tasks results
      → outcomes network tasks ≡ results
  unfolding outcomes outcome
  outcomes-IsGathered network [] [] g = refl
  outcomes-IsGathered network ((port, task) ∷ rest) (r ∷ results) (e, g) =
      ap₂ ◌∷◌ (ap (outcome (network port)) e) (outcomes-IsGathered network rest results g)
  outcomes-IsGathered network [] (r ∷ results) g = absurd g
  outcomes-IsGathered network (first ∷ rest) [] g = absurd g

  pub gathered_lem :
      (network : ℕ → ℕ → PortResult T) (retries : ℕ) (ports : List ℕ) {free free' : ℕ}
      {tasks : List (ℕ × Task T)} (results : List (PortResult T))
      → Run network free (spawn retries ports) free' tasks
      → IsGathered tasks results
      → results ≡ map (λ port. bounded (network port) (pos retries)) ports
  gathered_lem network retries ports {tasks = tasks} results run g =
      sym (outcomes-IsGathered network tasks results g)
      ∙ Run-outcomes run
      ∙ outcomes-spawn network retries ports

  -- Whatever the concurrency and the order in which the probes of a scan go on: once every task has
  -- its result, the gathered results, enriched and sorted, are exactly those that `scan_ports` says,
  -- so the answer of a scan does not depend on the schedule.
  pub scan_ports-Run :
      (identify : Option Text → ℕ → ServiceInfo) (network : ℕ → ℕ → PortResult T)
      (concurrency retries : ℕ) (ports : List ℕ) {free : ℕ} {tasks : List (ℕ × Task T)}
      (results : List (PortResult T))
      → Run network concurrency (spawn retries ports) free tasks
      → IsGathered tasks results
      → sort_results (map (enrich identify) results)
        ≡ scan_ports identify network (pos retries) ports
  unfolding scan_ports
  scan_ports-Run identify network concurrency retries ports results run g =
      ap (λ rs. sort_results (map (enrich identify) rs))
        (gathered_lem network retries ports results run g)
      ∙ ap sort_results
          (map-map (enrich identify) (λ port. bounded (network port) (pos retries)) ports)
