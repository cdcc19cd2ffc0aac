-- ===== src/Detect/State.antt =====
-- The state of the detector of pyscan/domain/ot_detect.py, its baseline and its alerts.
-- A Python set is a list; adding an element that is there changes nothing.
use pyscan.Prelude.{
  ℕ, ◌+◌, Bool, true, false, not, ◌&&◌, ◌||◌, Option, none, some, List, [], ◌∷◌, Text, codes,
  text_eq, strip, split_on, leb, if◌then◌else◌,
}
use pyscan.Packet.Transport.{Packet}
use pyscan.Detect.Wording.{Advice}

pub data Severity : Type 0 where
  critical high medium info : Severity

-- `_ORDER`
unfoldable pub order : Severity → ℕ
order critical = 3
order high = 2
order medium = 1
order info = 0

unfoldable pub at_least : Severity → Severity → Bool
unfolding order
at_least severity floor = leb (order floor) (order severity)

pub record Alert (T : Type 0) : Type 0 where
  pub ts : T
  pub severity : Severity
  pub src : Text
  pub dst : Text
  pub protocol : Text
  pub summary : Text
  pub technique : Text
  pub action : Text

-- Who is allowed to talk to what.
pub record Baseline : Type 0 where
  pub hmi : List Text
  pub plcs : List Text

-- `item in items`
unfoldable pub contains : Text → List Text → Bool
contains item [] = false
contains item (x ∷ xs) = text_eq x item || contains item xs

unfoldable pub add : Text → List Text → List Text
unfolding contains
add item items = if contains item items then items else item ∷ items

-- `_as_set` of a split value: strips the items, and drops blanks and repetitions.
strip_onto : List Text → List Text
strip_onto [] = []
strip_onto (item ∷ rest) = elim (strip item) [
  | [] ↦ strip_onto rest
  | c ∷ t ↦ add (c ∷ t) (strip_onto rest)
]

-- `str | Iterable[str] | None`
pub data Addresses : Type 0 where
  absent : Addresses
  joined : Text → Addresses
  items : List Text → Addresses

unfoldable pub as_set : Addresses → List Text
unfolding strip_onto
as_set absent = []
as_set (joined value) = strip_onto (split_on b',' value)
as_set (items value) = strip_onto value

unfoldable pub baseline_of : Addresses → Addresses → Baseline
baseline_of hmi plcs = record { hmi = as_set hmi; plcs = as_set plcs }

non_empty : List Text → Bool
non_empty [] = false
non_empty (x ∷ xs) = true

-- The property `Baseline.known`.
unfoldable pub known : Baseline → Bool
unfolding non_empty
known baseline = non_empty baseline.hmi

pub record Detector : Type 0 where
  pub baseline : Baseline
  pub packets : ℕ
  pub alerts : ℕ
  pub hostile_sources : List Text
  pub observed_operations : List Text
  pub seen_talkers : List (Text × Text)

unfoldable pub fresh : Baseline → Detector
fresh b = record {
  baseline = b;
  packets = 0;
  alerts = 0;
  hostile_sources = [];
  observed_operations = [];
  seen_talkers = [];
}

-- `host in self.baseline.plcs if self.baseline.plcs else True`
unfoldable pub protected : Baseline → Option Text → Bool
unfolding non_empty
protected baseline none = false
protected baseline (some host) =
    if non_empty baseline.plcs then contains host baseline.plcs else true

unfoldable pub unauthorised : Baseline → Option Text → Bool
unauthorised baseline none = false
unauthorised baseline (some host) = known baseline && not (contains host baseline.hmi)

-- `Severity.HIGH if when_hostile is Severity.CRITICAL else Severity.MEDIUM`
without_baseline : Severity → Severity
without_baseline critical = high
without_baseline _ = medium

unfoldable pub severity_of : Baseline → Option Text → Severity → Severity
unfolding without_baseline
severity_of baseline src when_hostile =
    if unauthorised baseline src
    then when_hostile
    else if not (known baseline)
    then without_baseline when_hostile
    else info

-- `str(host)`
unfoldable pub show_host : Option Text → Text
show_host none = codes "None"
show_host (some host) = host

is_info : Severity → Bool
is_info info = true
is_info _ = false

module _ {T : Type 0} where
  -- Counts the alert, and notes the source as hostile.
  unfoldable pub raise_alert :
      Detector → Packet T → Severity → Text → Text → Advice → Detector × Alert T
  unfolding is_info
  raise_alert d pkt severity protocol summary advice = (
    record d {
      alerts = d.alerts + 1;
      hostile_sources =
          if unauthorised d.baseline pkt.src && not (is_info severity)
          then add (show_host pkt.src) d.hostile_sources
          else d.hostile_sources;
    },
    record {
      ts = pkt.ts;
      severity = severity;
      src = show_host pkt.src;
      dst = show_host pkt.dst;
      protocol = protocol;
      summary = summary;
      technique = advice.technique;
      action = advice.action;
    },
  )

  -- `[self._alert(...)]`, as most rules return it.
  unfoldable pub one_alert :
      Detector → Packet T → Severity → Text → Text → Advice → Detector × List (Alert T)
  unfolding raise_alert
  one_alert d pkt severity protocol summary advice =
      let (d', a) = raise_alert d pkt severity protocol summary advice in (d', a ∷ [])

unfoldable pub observe : Detector → Text → Detector
observe d operation = record d { observed_operations = add operation d.observed_operations }
