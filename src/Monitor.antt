-- ===== src/Monitor.antt =====
-- pyscan/application/monitor_service.py: frames in, alerts out.
pub mod Run
pub mod Attack
use pyscan.Prelude.{
  ℕ, Bool, Option, none, some, List, [], ◌∷◌, ◌++◌, Text, if◌then◌else◌, Result, ok, ◌>>=◌,
}
use pyscan.Wire.{Bytes}
use pyscan.Packet.{decode}
use pyscan.Detect.{feed}
use pyscan.Detect.State.{Severity, Alert, Detector, at_least}

abbrev pub Frame : Type 0 → Type 0
Frame T = T × ℕ × Bytes

-- The alerts of one packet that are serious enough to be yielded.
unfoldable pub serious {ℓ} : {A : Type ℓ} → (A → Bool) → List A → List A
serious p [] = []
serious p (a ∷ rest) = let others = serious p rest in if p a then a ∷ others else others

module _ {T : Type 0} (ntop : Bytes → Text) (min_severity : Severity) where
  -- A frame of the source; `none` is the heartbeat of a live capture.
  unfoldable pub watch : Detector → Option (Frame T) → Result (Detector × List (Alert T))
  unfolding serious
  watch d none = ok (d, [])
  watch d (some (ts, linktype, raw)) = do
    fed ← feed d (decode ntop raw linktype ts)
    ok (fed.0, serious (λ a. at_least a.severity min_severity) fed.1)

  -- Every alert that the generator yields, and the detector behind the last frame.
  unfoldable pub run : Detector → List (Option (Frame T)) → Result (Detector × List (Alert T))
  unfolding watch
  run d [] = ok (d, [])
  run d (frame ∷ source) = do
    first ← watch d frame
    rest ← run first.0 source
    ok (rest.0, first.1 ++ rest.1)
