-- ===== src/Detect/Calm.antt =====
-- What a baseline means for the alerts of a packet: consequences of its account.
use pyscan.Prelude.{
  ◌+◌, ◌≡◌, refl, ◌⊎◌, inl, inr, Bool, true, false, Option, none, some, List, arith, Text, All,
  All-map, if◌then◌else◌, ok,
}
use pyscan.Detect.Wording.{stopdt_summary}
use pyscan.Detect.State.{
  info, critical, Severity, Alert, Baseline, contains, known, unauthorised, high, medium, Detector,
}
use pyscan.Detect.Account.{Justified}
use pyscan.Packet.Transport.{Packet}
use pyscan.Detect.{feed}
use pyscan.Detect.Account.Feed.{feed-Account, is_watched}

-- INFO, or the alert on STOPDT.
abbrev pub IsCalm : {T : Type 0} → Alert T → Type 0
IsCalm a = (a.severity ≡ info) ⊎ (a.summary ≡ stopdt_summary)

unauthorised-hmi :
    (b : Baseline) (host : Text) → contains host b.hmi ≡ true → unauthorised b (some host) ≡ false
unfolding unauthorised
unauthorised-hmi b host h = rw h (ground arith)

known-hmi : (b : Baseline) (host : Text) → contains host b.hmi ≡ true → known b ≡ true
unfolding known contains
known-hmi b host h = ground arith

calm_of :
    (b : Baseline) (src : Option Text) (s : Severity) (summary : Text)
    → unauthorised b src ≡ false
    → known b ≡ true
    → Justified b src s summary
    → (s ≡ info) ⊎ (summary ≡ stopdt_summary)
calm_of b src critical summary u k j = cc
calm_of b src high summary (u) k (inl j) = cc
calm_of b src high summary (u) k (inr j) = cc
calm_of b src medium summary (u) k (inl j) = cc
calm_of b src medium summary (u) k (inr j) = inr j
calm_of b src info summary u k j = inl refl

hostile-counted :
    (d : Detector) (c : Bool)
    → (if c then record d { packets = d.packets + 1 } else d).hostile_sources ≡ d.hostile_sources
hostile-counted d true = refl
hostile-counted d false = refl

unauthorised_unknown :
    (b : Baseline) (src : Option Text) → known b ≡ false → unauthorised b src ≡ false
unfolding unauthorised
unauthorised_unknown b none k = refl
unauthorised_unknown b (some host) k = rw k

modest_of :
    (b : Baseline) (src : Option Text) (s : Severity) (summary : Text)
    → unauthorised b src ≡ false
    → known b ≡ false
    → Justified b src s summary
    → (s ≡ high) ⊎ (summary ≡ stopdt_summary)
modest_of b src critical summary u k j = cc
modest_of b src high summary u k j = inl refl
modest_of b src medium summary u k (inl j) = cc
modest_of b src medium summary u k (inr j) = inr j
modest_of b src info summary u k (_, j) = cc

-- A packet from a station in charge raises nothing above INFO, save the alert on an IEC-104
-- STOPDT, and makes no source hostile.
pub feed_hmi :
    {T : Type 0} (d : Detector) (pkt : Packet T) (host : Text)
    → pkt.src ≡ some host
    → contains host d.baseline.hmi ≡ true
    → (r : Detector × List (Alert T)) × (feed d pkt ≡ ok r)
      × All IsCalm r.1
      × ((h : Text) → contains h r.0.hostile_sources ≡ true → contains h d.hostile_sources ≡ true)
feed_hmi d pkt host src charge =
    let u : unauthorised d.baseline pkt.src ≡ false =
      rw src (unauthorised-hmi d.baseline host charge) in
    let k = known-hmi d.baseline host charge in
    let (r, returns, account) = feed-Account d pkt in
    (
      r,
      returns,
      All-map _ IsCalm r.1 (λ a j. calm_of d.baseline pkt.src a.severity a.summary u k j)
          account.justified,
      λ h now. elim (account.origin h now) [
        | inl old ↦ rw (hostile-counted d (is_watched d.baseline pkt)) at old
        | inr (v, _) ↦ cc
      ],
    )

-- Where the baseline names no station in charge, every alert is HIGH or on an IEC-104 STOPDT, so
-- none is CRITICAL for a write, and no source becomes hostile.
pub feed_unknown :
    {T : Type 0} (d : Detector) (pkt : Packet T)
    → known d.baseline ≡ false
    → (r : Detector × List (Alert T)) × (feed d pkt ≡ ok r)
      × All (λ (a : Alert T). (a.severity ≡ high) ⊎ (a.summary ≡ stopdt_summary)) r.1
      × ((h : Text) → contains h r.0.hostile_sources ≡ true → contains h d.hostile_sources ≡ true)
feed_unknown d pkt k =
    let u = unauthorised_unknown d.baseline pkt.src k in
    let (r, returns, account) = feed-Account d pkt in
    (
      r,
      returns,
      All-map _ _ r.1 (λ a j. modest_of d.baseline pkt.src a.severity a.summary u k j)
          account.justified,
      λ h now. elim (account.origin h now) [
        | inl old ↦ rw (hostile-counted d (is_watched d.baseline pkt)) at old
        | inr (v, _) ↦ cc
      ],
    )
