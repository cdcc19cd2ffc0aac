-- ===== src/Detect/Wording.antt =====
-- The wording of the alerts of pyscan/domain/ot_detect.py: techniques and recommended actions.
use pyscan.Prelude.{ℕ, ◌∷◌, ◌++◌, Text, codes, decimal}

-- A pair of the ATT&CK technique and what a responder should do.
pub record Advice : Type 0 where
  pub technique : Text
  pub action : Text

unfoldable pub syn_advice : Advice
syn_advice = record {
  technique = codes "T0846 Remote System Discovery";
  action = codes "Unexpected talker reaching OT. Watch it: this is the prelude.";
}

unfoldable pub talker_advice : Advice
talker_advice = record {
  technique = codes "T0846 Remote System Discovery";
  action = codes "Isolate the SOURCE with an ACL at the IDMZ. The HMI should be the only one here.";
}

unfoldable pub modbus_write_advice : Advice
modbus_write_advice = record {
  technique = codes "T0855 Unauthorized Command Message / T0836 Modify Parameter";
  action =
      codes "Confirm the source is not the HMI, then isolate it. Do NOT reboot the PLC; "
      ++ codes "coordinate any restoration with operations.";
}

unfoldable pub modbus_program_advice : Advice
modbus_program_advice = record {
  technique = codes "T0843 Program Download";
  action =
      codes "Someone is changing what the device runs. Isolate the source and preserve evidence.";
}

unfoldable pub modbus_recon_advice : Advice
modbus_recon_advice = record {
  technique = codes "T0888 Remote System Information Discovery";
  action = codes "Enumeration usually precedes the write. Track this source now.";
}

unfoldable pub stopdt_advice : Advice
stopdt_advice = record {
  technique = codes "T0804 Block Reporting Message";
  action =
      codes "Telemetry is being silenced. Correlate with any commands just before it; "
      ++ codes "do not trust a quiet HMI.";
}

unfoldable pub iec_command_advice : Advice
iec_command_advice = record {
  technique = codes "T0855 Unauthorized Command Message";
  action =
      codes "A legitimate command from an illegitimate source is the Industroyer signature. "
      ++ codes "Isolate the source; do not cut the process.";
}

unfoldable pub iec_recon_advice : Advice
iec_recon_advice = record {
  technique = codes "T0888 Remote System Information Discovery";
  action = codes "An interrogation from a non-HMI source usually precedes the command.";
}

unfoldable pub s7_program_advice : Advice
s7_program_advice = record {
  technique = codes "T0843 Program Download";
  action =
      codes "Control logic is being read or replaced. Isolate the source and preserve the capture.";
}

unfoldable pub s7_control_advice : Advice
s7_control_advice = record {
  technique = codes "T0858 Change Operating Mode / T0813 Denial of Control";
  action = codes "Someone is starting or stopping the CPU. Alert operations before anything else.";
}

unfoldable pub s7_write_advice : Advice
s7_write_advice = record {
  technique = codes "T0855 Unauthorized Command Message";
  action = codes "Confirm the source, then isolate it. Do not stop the CPU yourself.";
}

-- The summaries, with the formatted parts of the f-strings.
unfoldable pub syn_summary : ℕ → Text
syn_summary dport = codes "New connection (SYN) to OT port " ++ decimal dport

unfoldable pub talker_summary : Text
talker_summary = codes "Unauthorised talker sending OT traffic to a protected device"

unfoldable pub function_summary : Text → ℕ → Text → Text
function_summary what function name = what ++ (codes " - FC" ++ (decimal function ++ (b' ' ∷ name)))

unfoldable pub named_summary : Text → Text → Text
named_summary what name = what ++ (codes " - " ++ name)

unfoldable pub stopdt_summary : Text
stopdt_summary = codes "STOPDT act - an attempt to stop the outstation reporting"
