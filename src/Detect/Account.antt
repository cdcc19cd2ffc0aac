-- ===== src/Detect/Account.antt =====
-- What every rule keeps, as a record closed under running one rule behind another.
pub mod Rules
pub mod Feed
use pyscan.Prelude.{
  ◌+◌, ◌≡◌, refl, ◌∙◌, ◌≢◌, ◌⊎◌, inl, inr, true, false, ◌||◌, Option, List, [], ◌++◌, arith, Text,
  text_eq_iff, text_eq_refl, text_eq, length, length-append, All, All-append, All-map, Bool-cases,
}
use pyscan.Packet.Transport.{Packet}
use pyscan.Detect.State.{
  critical, high, medium, info, Alert, Baseline, Detector, contains, add, show_host, unauthorised,
  known, Severity, one_alert,
}
use pyscan.Detect.Wording.{Advice, stopdt_summary}

-- Why an alert may have its severity: CRITICAL and HIGH are for sources not in charge, HIGH also
-- where no station in charge is named, MEDIUM also for STOPDT, and INFO for the station in charge.
abbrev pub Justified : Baseline → Option Text → Severity → Text → Type 0
Justified b src critical summary = unauthorised b src ≡ true
Justified b src high summary = (unauthorised b src ≡ true) ⊎ (known b ≡ false)
Justified b src medium summary = (unauthorised b src ≡ true) ⊎ (summary ≡ stopdt_summary)
Justified b src info summary = (unauthorised b src ≡ false) × (known b ≡ true)

-- An alert carries the packet's time and addresses.
pub record Stamped {T : Type 0} (pkt : Packet T) (a : Alert T) : Type 0 where
  pub ts : a.ts ≡ pkt.ts
  pub src : a.src ≡ show_host pkt.src
  pub dst : a.dst ≡ show_host pkt.dst

-- From `d` to `d'` under baseline `b`, with the alerts `found` for the packet.
pub record Account {T : Type 0} (pkt : Packet T) (b : Baseline) (d d' : Detector)
    (found : List (Alert T)) : Type 0 where
  pub baseline : d'.baseline ≡ b
  pub packets : d'.packets ≡ d.packets
  pub counted : d'.alerts ≡ d.alerts + length found
  pub stamped : All (Stamped pkt) found
  pub justified : All (λ (a : Alert T). Justified b pkt.src a.severity a.summary) found
  pub kept :
      (host : Text)
      → contains host d.hostile_sources ≡ true
      → contains host d'.hostile_sources ≡ true
  pub origin :
      (host : Text)
      → contains host d'.hostile_sources ≡ true
      → (contains host d.hostile_sources ≡ true)
        ⊎ ((unauthorised b pkt.src ≡ true) × (host ≡ show_host pkt.src))
  pub noted :
      unauthorised b pkt.src ≡ true
      → All
          (λ (a : Alert T).
            a.severity ≢ info → contains (show_host pkt.src) d'.hostile_sources ≡ true)
          found

pub contains-add :
    (x y : Text) (ys : List Text) → contains x (add y ys) ≡ (text_eq y x || contains x ys)
unfolding contains add
contains-add x y ys = elim (Bool-cases (text_eq y x)) [
  | inl same ↦
      let e = (text_eq_iff y x).0 same in
      rw (same, e)
        (elim (Bool-cases (contains x ys)) [
          | inl old ↦ rw (old, old)
          | inr new ↦ rw (new, text_eq_refl x)
        ])
  | inr other ↦
      rw other (elim (Bool-cases (contains y ys)) [ inl old ↦ rw old | inr new ↦ rw (new, other) ])
]

module _ {T : Type 0} (pkt : Packet T) (b : Baseline) where
  pub Account-nothing : (d : Detector) → d.baseline ≡ b → Account pkt b d d []
  Account-nothing d e = record {
    baseline = e;
    packets = refl;
    counted = omega arith;
    stamped = tt;
    justified = tt;
    kept = λ host h. h;
    origin = λ host h. inl h;
    noted = λ _. tt;
  }

  pub Account-append :
      (d d' d'' : Detector) (xs ys : List (Alert T))
      → Account pkt b d d' xs
      → Account pkt b d' d'' ys
      → Account pkt b d d'' (xs ++ ys)
  Account-append d d' d'' xs ys f g = record {
    baseline = g.baseline;
    packets = g.packets ∙ f.packets;
    counted = omega (arith, f.counted, g.counted, length-append xs ys);
    stamped = All-append _ xs ys f.stamped g.stamped;
    justified = All-append _ xs ys f.justified g.justified;
    kept = λ host h. g.kept host (f.kept host h);
    origin = λ host h. elim (g.origin host h) [ inl k ↦ f.origin host k | inr k ↦ inr k ];
    noted =
        λ u. All-append _ xs ys (All-map _ _ xs (λ a n i. g.kept _ (n i)) (f.noted u)) (g.noted u);
  }

  pub Account-one_alert :
      (d : Detector) (s : Severity) (protocol summary : Text) (advice : Advice)
      → d.baseline ≡ b
      → Justified b pkt.src s summary
      → Account pkt b d
          (one_alert d pkt s protocol summary advice).0
          (one_alert d pkt s protocol summary advice).1
  unfolding one_alert
  Account-one_alert d s protocol summary advice e j = record {
    baseline = e;
    packets = refl;
    counted = omega arith;
    stamped = (record { ts = refl; src = refl; dst = refl }, tt);
    justified = (j, tt);
    kept = λ host h. ground (arith, contains-add host (show_host pkt.src) d.hostile_sources);
    origin = λ host h. ground (
      arith,
      contains-add host (show_host pkt.src) d.hostile_sources,
      text_eq_iff (show_host pkt.src) host,
    );
    noted = λ u. (
      λ ne. ground (
        arith,
        contains-add (show_host pkt.src) (show_host pkt.src) d.hostile_sources,
        text_eq_refl (show_host pkt.src),
      ),
      tt,
    );
  }

  -- The account of a rule that first changed fields that accounts do not speak of.
  pub Account-start :
      (d_old d d' : Detector) (found : List (Alert T))
      → d.packets ≡ d_old.packets
      → d.alerts ≡ d_old.alerts
      → d.hostile_sources ≡ d_old.hostile_sources
      → Account pkt b d d' found
      → Account pkt b d_old d' found
  Account-start d_old d d' found p a h f = record {
    baseline = f.baseline;
    packets = f.packets ∙ p;
    counted = omega (arith, f.counted, a);
    stamped = f.stamped;
    justified = f.justified;
    kept = λ host k. f.kept host (rw h k);
    origin = λ host k. rw (← h) (f.origin host k);
    noted = f.noted;
  }
