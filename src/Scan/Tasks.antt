-- ===== src/Scan/Tasks.antt =====
-- The tasks of `scan_host` in pyscan/application/scan_service.py: `bounded` for each port under
-- `asyncio.gather`, interleaved in any order. A probe passes the rate gate, waits for the
-- semaphore, runs, and frees it; an inconclusive answer with retries left starts over at the gate.
-- The strategy answers attempt k at a port by `network port k` and raises nothing.
pub mod Flight
pub mod Outcome
pub mod Completion
pub mod Hang
use pyscan.Prelude.{ℕ, suc, zero, ◌+◌, ◌≡◌, not, List, [], ◌∷◌, if◌then◌else◌}
use pyscan.Scan.Service.{is_inconclusive}
use pyscan.Scan.Models.{PortResult}

pub data Task (T : Type 0) : Type 0 where
  paced queued probing : (attempt left : ℕ) → Task T
  finished : (result : PortResult T) → Task T

module _ {T : Type 0} where
  -- Behind the answer to an attempt: `break`, the end of the loop, or the next round.
  unfoldable pub after_probe : (ℕ → PortResult T) → ℕ → ℕ → Task T
  unfolding is_inconclusive
  after_probe answers attempt zero = finished (answers attempt)
  after_probe answers attempt (suc left) =
      if not (is_inconclusive (answers attempt).state)
      then finished (answers attempt)
      else paced (attempt + 1) left

  -- One task goes on; the numbers are the free places of the semaphore before and after.
  pub data Move (answers : ℕ → PortResult T) : ℕ → Task T → ℕ → Task T → Type 0 where
    admit :
        {free attempt left : ℕ} → Move answers free (paced attempt left) free (queued attempt left)
    acquire :
        {free attempt left : ℕ}
        → Move answers (suc free) (queued attempt left) free (probing attempt left)
    answer :
        {free attempt left : ℕ} (next : Task T)
        → next ≡ after_probe answers attempt left
        → Move answers free (probing attempt left) (suc free) next

  -- Some task of the scan goes on.
  pub data Step (network : ℕ → ℕ → PortResult T)
      : ℕ → List (ℕ × Task T) → ℕ → List (ℕ × Task T) → Type 0 where
    here :
        {free free' port : ℕ} {task task' : Task T} {rest : List (ℕ × Task T)}
        → Move (network port) free task free' task'
        → Step network free ((port, task) ∷ rest) free' ((port, task') ∷ rest)
    there :
        {free free' : ℕ} {first : ℕ × Task T} {rest rest' : List (ℕ × Task T)}
        → Step network free rest free' rest'
        → Step network free (first ∷ rest) free' (first ∷ rest')

  pub data Run (network : ℕ → ℕ → PortResult T)
      : ℕ → List (ℕ × Task T) → ℕ → List (ℕ × Task T) → Type 0 where
    stop : {free : ℕ} {tasks : List (ℕ × Task T)} → Run network free tasks free tasks
    step :
        {free free' free'' : ℕ} {tasks tasks' tasks'' : List (ℕ × Task T)}
        → Step network free tasks free' tasks'
        → Run network free' tasks' free'' tasks''
        → Run network free tasks free'' tasks''

  -- `asyncio.gather(*(bounded(p) for p in target.ports))`: every task at its first attempt.
  unfoldable pub spawn : ℕ → List ℕ → List (ℕ × Task T)
  spawn retries [] = []
  spawn retries (port ∷ ports) = (port, paced 0 retries) ∷ spawn retries ports

  -- Every task has its result.
  abbrev pub IsGathered : List (ℕ × Task T) → List (PortResult T) → Type 0
  IsGathered [] [] = Unit
  IsGathered ((port, task) ∷ rest) (r ∷ results) = (task ≡ finished r) × IsGathered rest results
  IsGathered _ _ = ⊥

  -- The probes that are in flight.
  unfoldable pub in_flight : List (ℕ × Task T) → ℕ
  in_flight [] = 0
  in_flight ((port, probing attempt left) ∷ rest) = 1 + in_flight rest
  in_flight ((port, paced attempt left) ∷ rest) = in_flight rest
  in_flight ((port, queued attempt left) ∷ rest) = in_flight rest
  in_flight ((port, finished result) ∷ rest) = in_flight rest
