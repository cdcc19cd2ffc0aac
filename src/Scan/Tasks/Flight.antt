-- ===== src/Scan/Tasks/Flight.antt =====
-- The semaphore: how many probes are in flight.
use pyscan.Prelude.{
  ℕ, suc, zero, ◌+◌, ◌≤◌, ◌≡◌, refl, ◌∙◌, inl, inr, not, List, [], ◌∷◌, arith, Bool-cases,
}
use pyscan.Scan.Models.{PortResult}
use pyscan.Scan.Tasks.{
  after_probe, in_flight, Task, spawn, Step, Run, Move, answer, paced, here, step, admit, stop,
  queued, there, acquire, probing, finished,
}
use pyscan.Scan.Service.{is_inconclusive}

pub in_flight-spawn :
    (T : Type 0) (retries : ℕ) (ports : List ℕ) → in_flight (spawn {T = T} retries ports) ≡ 0
unfolding in_flight spawn
in_flight-spawn T retries [] = refl
in_flight-spawn T retries (port ∷ ports) = in_flight-spawn T retries ports

module _ {T : Type 0} where
  after_probe-rest :
      (answers : ℕ → PortResult T) (port attempt left : ℕ) (rest : List (ℕ × Task T))
      → in_flight ((port, after_probe answers attempt left) ∷ rest) ≡ in_flight rest
  unfolding after_probe in_flight
  after_probe-rest answers port attempt zero rest = refl
  after_probe-rest answers port attempt (suc left) rest =
      elim (Bool-cases (not (is_inconclusive (answers attempt).state))) [
        | inl done ↦ rw done refl
        | inr again ↦ rw again refl
      ]

  Move-in_flight :
      {answers : ℕ → PortResult T} {free free' : ℕ} {task task' : Task T} (port : ℕ)
      (rest : List (ℕ × Task T))
      → Move answers free task free' task'
      → free' + in_flight ((port, task') ∷ rest) ≡ free + in_flight ((port, task) ∷ rest)
  unfolding in_flight
  Move-in_flight port rest admit = refl
  Move-in_flight port rest acquire = omega arith
  Move-in_flight {answers} port rest (answer {free} {attempt} {left} next e) =
      rw e (omega (arith, after_probe-rest answers port attempt left rest))

  in_flight-cons :
      (first : ℕ × Task T) (rest rest' : List (ℕ × Task T)) (free free' : ℕ)
      → free' + in_flight rest' ≡ free + in_flight rest
      → free' + in_flight (first ∷ rest') ≡ free + in_flight (first ∷ rest)
  unfolding in_flight
  in_flight-cons (port, paced attempt left) rest rest' free free' h = h
  in_flight-cons (port, queued attempt left) rest rest' free free' h = h
  in_flight-cons (port, probing attempt left) rest rest' free free' h = omega (arith, h)
  in_flight-cons (port, finished result) rest rest' free free' h = h

  pub Step-in_flight :
      {network : ℕ → ℕ → PortResult T} {free free' : ℕ} {tasks tasks' : List (ℕ × Task T)}
      → Step network free tasks free' tasks'
      → free' + in_flight tasks' ≡ free + in_flight tasks
  Step-in_flight (here {port = port} {rest = rest} move) = Move-in_flight port rest move
  Step-in_flight (there {free} {free'} {first} {rest} {rest'} s) =
      in_flight-cons first rest rest' free free' (Step-in_flight s)

  pub Run-in_flight :
      {network : ℕ → ℕ → PortResult T} {free free' : ℕ} {tasks tasks' : List (ℕ × Task T)}
      → Run network free tasks free' tasks'
      → free' + in_flight tasks' ≡ free + in_flight tasks
  Run-in_flight stop = refl
  Run-in_flight (step s run) = Run-in_flight run ∙ Step-in_flight s

  -- In every state that the tasks of a scan can reach, in whatever order they go on, no more probes
  -- are in flight than the concurrency asked for, and the free places are the rest of it.
  pub concurrency_bound :
      (network : ℕ → ℕ → PortResult T) (concurrency retries : ℕ) (ports : List ℕ) {free : ℕ}
      {tasks : List (ℕ × Task T)}
      → Run network concurrency (spawn retries ports) free tasks
      → (free + in_flight tasks ≡ concurrency) × (in_flight tasks ≤ concurrency)
  concurrency_bound network concurrency retries ports run =
      let kept = Run-in_flight run in
      let none_yet = in_flight-spawn T retries ports in
      (omega (arith, kept, none_yet), omega (arith, kept, none_yet))
