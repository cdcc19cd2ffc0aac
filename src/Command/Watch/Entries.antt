-- ===== src/Command/Watch/Entries.antt =====
-- The evidence timeline of `monitor` in pyscan/cli/main.py: its entries, and `_clock`.
use pyscan.Prelude.{Bool, List, [], ◌∷◌, ◌++◌, Text, codes, if◌then◌else◌, Result, ok, ◌>>=◌}
use pyscan.Detect.State.{Alert, Severity, critical, high, medium, info}

-- `severity.value`
unfoldable pub severity_text : Severity → Text
severity_text critical = codes "CRITICAL"
severity_text high = codes "HIGH"
severity_text medium = codes "MEDIUM"
severity_text info = codes "INFO"

-- An entry of the timeline: the UTC time, the kind and the detail.
pub record Entry : Type 0 where
  pub when : Text
  pub kind : Text
  pub detail : Text

-- What `_clock` uses: which time is zero, and `datetime.fromtimestamp(ts, tz=UTC).strftime(...)`,
-- which raises where the time is no date.
pub record Printing (T : Type 0) : Type 0 where
  pub is_zero : T → Bool
  pub strftime : T → Result Text

-- `f"{alert.protocol} {alert.src} -> {alert.dst}: {alert.summary}"`
unfoldable pub alert_detail : {T : Type 0} → Alert T → Text
alert_detail alert =
    alert.protocol
    ++ (codes " " ++ (alert.src ++ (codes " -> " ++ (alert.dst ++ (codes ": " ++ alert.summary)))))

module _ {T : Type 0} (printing : Printing T) where
  unfoldable pub clock : T → Result Text
  clock ts = if printing.is_zero ts then ok (codes "--:--:--") else printing.strftime ts

  unfoldable pub entry_of : Alert T → Result Entry
  unfolding clock severity_text alert_detail
  entry_of alert = do
    when ← clock alert.ts
    ok (record { when = when; kind = severity_text alert.severity; detail = alert_detail alert })

  -- The loop over the alerts, up to the first of which the time is not printed.
  unfoldable pub entries_of : List (Alert T) → Result (List Entry)
  unfolding entry_of
  entries_of [] = ok []
  entries_of (alert ∷ rest) = do
    entry ← entry_of alert
    entries ← entries_of rest
    ok (entry ∷ entries)
