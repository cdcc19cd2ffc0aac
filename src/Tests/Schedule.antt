-- ===== src/Tests/Schedule.antt =====
-- The theorems on the tasks of a scan at concrete runs.
use pyscan.Scan.Tasks.Hang.{scan_hangs}
use pyscan.Scan.Tasks.{finished, there, acquire, answer}
use pyscan.Tests.Scanner.{found, network, no_match}
use pyscan.Scan.Models.{filtered, PortResult}
use pyscan.Prelude.{ℕ, ◌+◌, ◌≤◌, ◌≡◌, refl, List, [], ◌∷◌, map, arith, pos}
use pyscan.Scan.Service.{sort_results, enrich, scan_ports}
use pyscan.Scan.Tasks.{
  IsGathered, spawn, in_flight, after_probe, Task, queued, Run, paced, step, here, admit, stop,
}
use pyscan.Scan.Tasks.Completion.{steps, scan_completes}
use pyscan.Scan.Tasks.Outcome.{scan_ports-Run}
use pyscan.Scan.Tasks.Flight.{concurrency_bound}

-- Both tasks of a scan of two ports with one place: the first has its answer, the second waits.
one_done :
    Run network 1
      (spawn 0 (22 ∷ 80 ∷ []))
      1
      ((22, finished (found 22 filtered)) ∷ (80, queued 0 0) ∷ [])
unfolding spawn after_probe
one_done =
    step (there (here admit))
      (step (here admit) (step (here acquire) (step (here (answer _ refl)) stop)))

concurrency_bound_example :
    (1 + in_flight {T = ℕ} ((22, finished (found 22 filtered)) ∷ (80, queued 0 0) ∷ []) ≡ 1)
    × (in_flight {T = ℕ} ((22, finished (found 22 filtered)) ∷ (80, queued 0 0) ∷ []) ≤ 1)
concurrency_bound_example = concurrency_bound network 1 0 (22 ∷ 80 ∷ []) one_done

all_done :
    Run network 1
      (spawn 0 (22 ∷ 80 ∷ []))
      1
      ((22, finished (found 22 filtered)) ∷ (80, finished (found 80 filtered)) ∷ [])
unfolding spawn after_probe
all_done = step (there (here admit)) (
    step (here admit) (
      step (here acquire) (
        step (here (answer _ refl))
          (step (there (here acquire)) (step (there (here (answer _ refl))) stop)))))

scan_ports-Run_example :
    sort_results (map (enrich no_match) (found 22 filtered ∷ found 80 filtered ∷ []))
    ≡ scan_ports no_match network (pos 0) (22 ∷ 80 ∷ [])
scan_ports-Run_example =
    scan_ports-Run no_match network 1 0 (22 ∷ 80 ∷ []) (found 22 filtered ∷ found 80 filtered ∷ [])
      all_done (refl, (refl, tt))

scan_completes_example :
    (steps one_done ≤ 6)
    × ((free' : ℕ) × (tasks' : List (ℕ × Task ℕ)) × (results : List (PortResult ℕ)) × Run network 1
          ((22, finished (found 22 filtered)) ∷ (80, queued 0 0) ∷ [])
          free'
          tasks'
        × IsGathered tasks' results)
scan_completes_example = scan_completes network 1 0 (22 ∷ 80 ∷ []) one_done (omega arith)

one_admitted : Run network 0 (spawn 3 (22 ∷ 80 ∷ [])) 0 ((22, queued 0 3) ∷ (80, paced 0 3) ∷ [])
unfolding spawn
one_admitted = step (here admit) stop

scan_hangs_example :
    ¬ IsGathered
      ((22, queued 0 3) ∷ (80, paced 0 3) ∷ [])
      (found 22 filtered ∷ found 80 filtered ∷ [])
scan_hangs_example =
    scan_hangs network 3 22 (80 ∷ []) (found 22 filtered ∷ found 80 filtered ∷ []) one_admitted
