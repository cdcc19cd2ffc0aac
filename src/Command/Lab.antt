-- ===== src/Command/Lab.antt =====
-- The command `lab` of pyscan/cli/main.py: the practice capture and the lines that are printed.
pub mod Drill
use pyscan.Wire.{Bytes}
use pyscan.Prelude.{ℕ, List, [], ◌∷◌, ◌++◌, Text, codes, decimal}
use pyscan.Command.{Body, ◌>>=◌, on_error, uncaught, goes}
use pyscan.Capture.Writer.{Rounding, write_pcap}
use pyscan.Traffic.{build_frames}

-- The bytes of the file and the lines that are printed behind it.
pub record Lab : Type 0 where
  pub file : Bytes
  pub echoed : List Text

unfoldable pub written_line : ℕ → Text → Text
unfolding decimal
written_line written out = decimal written ++ (codes " packets written to " ++ out)

unfoldable pub replay_line : Text → Text
replay_line out =
    codes "  replay it:  pyscan monitor "
    ++ (out ++ codes " --hmi 10.10.30.10 --plc 10.10.30.21,10.10.40.7")

-- The body behind the arguments; a file that cannot be opened is not modelled.
unfoldable pub lab : {T : Type 0} → (T → ℕ → T) → Rounding T → T → Text → Body Lab
unfolding written_line replay_line
lab tick rounding now out = do
  frames ← on_error uncaught (build_frames tick now)
  made ← on_error uncaught (write_pcap rounding frames 1)
  goes (record { file = made.0; echoed = written_line made.1 out ∷ replay_line out ∷ [] })
