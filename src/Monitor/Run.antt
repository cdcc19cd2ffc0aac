-- ===== src/Monitor/Run.antt =====
-- `run` over a whole source: the generator's end, its alerts and the detector behind it.
use pyscan.Monitor.{Frame}
use pyscan.Wire.{Bytes}
use pyscan.Prelude.{
  ◌+◌, ◌≤◌, ◌≡◌, refl, sym, ap, ◌∙◌, ◌⊎◌, inl, inr, Bool, true, false, Option, none, some, List, [],
  ◌∷◌, ◌++◌, arith, Text, length, length-append, All, All-append, All-map, if◌then◌else◌,
  Bool-cases, ok,
}
use pyscan.Detect.State.{
  unauthorised, Detector, Severity, Baseline, show_host, Alert, at_least, contains,
}
use pyscan.Monitor.{serious, run, watch}
use pyscan.Packet.{decode}
use pyscan.Packet.Total.{decode_ts}
use mathlib.Core.Path.{subst}
use pyscan.Detect.Account.Feed.{is_watched, feed-Account}

module _ {ℓ} {A : Type ℓ} (p : A → Bool) where
  serious-All : (xs : List A) → All (λ a. p a ≡ true) (serious p xs)
  unfolding serious
  serious-All [] = tt
  serious-All (a ∷ rest) = elim (Bool-cases (p a)) [
    | inl h ↦ rw h (h, serious-All rest)
    | inr h ↦ rw h (serious-All rest)
  ]

  length-serious : (xs : List A) → length (serious p xs) ≤ length xs
  unfolding serious
  length-serious [] = omega arith
  length-serious (a ∷ rest) = elim (Bool-cases (p a)) [
    | inl h ↦ rw h (omega (arith, length-serious rest))
    | inr h ↦ rw h (omega (arith, length-serious rest))
  ]

-- What a stretch of the run from `d` to `d'` does under baseline `b`, with the alerts `found`
-- yielded: each is serious enough and counted, and a new hostile source is not in charge.
pub record IsRun {T : Type 0} (min_severity : Severity) (b : Baseline) (d d' : Detector)
    (found : List (Alert T)) : Type 0 where
  pub baseline : d'.baseline ≡ b
  pub filtered : All (λ (a : Alert T). at_least a.severity min_severity ≡ true) found
  pub counted : d.alerts + length found ≤ d'.alerts
  pub kept :
      (host : Text)
      → contains host d.hostile_sources ≡ true
      → contains host d'.hostile_sources ≡ true
  pub origin :
      (host : Text)
      → contains host d'.hostile_sources ≡ true
      → (contains host d.hostile_sources ≡ true) ⊎ (unauthorised b (some host) ≡ true)

counted_alerts :
    (d : Detector) (c : Bool)
    → (if c then record d { packets = d.packets + 1 } else d).alerts ≡ d.alerts
counted_alerts d true = refl
counted_alerts d false = refl

counted_hostile :
    (d : Detector) (c : Bool)
    → (if c then record d { packets = d.packets + 1 } else d).hostile_sources ≡ d.hostile_sources
counted_hostile d true = refl
counted_hostile d false = refl

unauthorised-some :
    (b : Baseline) (src : Option Text) (host : Text)
    → unauthorised b src ≡ true
    → host ≡ show_host src
    → unauthorised b (some host) ≡ true
unfolding unauthorised show_host
unauthorised-some b none host u e = cc
unauthorised-some b (some h) host u e = rw e u

module _ {T : Type 0} (ntop : Bytes → Text) (min_severity : Severity) (b : Baseline) where
  nothing-IsRun : (d : Detector) → d.baseline ≡ b → IsRun {T = T} min_severity b d d []
  nothing-IsRun d e = record {
    baseline = e;
    filtered = tt;
    counted = omega arith;
    kept = λ host h. h;
    origin = λ host h. inl h;
  }

  append-IsRun :
      (d d' d'' : Detector) (xs ys : List (Alert T))
      → IsRun min_severity b d d' xs
      → IsRun min_severity b d' d'' ys
      → IsRun min_severity b d d'' (xs ++ ys)
  append-IsRun d d' d'' xs ys first rest = record {
    baseline = rest.baseline;
    filtered = All-append _ xs ys first.filtered rest.filtered;
    counted = omega (arith, first.counted, rest.counted, length-append xs ys);
    kept = λ host h. rest.kept host (first.kept host h);
    origin =
        λ host h. elim (rest.origin host h) [ inl old ↦ first.origin host old | inr new ↦ inr new ];
  }

  pub watch-IsRun :
      (d : Detector) (frame : Option (Frame T))
      → d.baseline ≡ b
      → (r : Detector × List (Alert T)) × (watch ntop min_severity d frame ≡ ok r)
        × IsRun min_severity b d r.0 r.1
  unfolding watch
  watch-IsRun d none e = ((d, []), refl, nothing-IsRun d e)
  watch-IsRun d (some (ts, linktype, raw)) e =
      let pkt = decode ntop raw linktype ts in
      let c = is_watched d.baseline pkt in
      let (fed, returns, account) = feed-Account d pkt in
      let p : Alert T → Bool = λ a. at_least a.severity min_severity in
      (
        (fed.0, serious p fed.1),
        rw returns refl,
        record {
          baseline = account.baseline ∙ e;
          filtered = serious-All p fed.1;
          counted = omega (arith, account.counted, counted_alerts d c, length-serious p fed.1);
          kept = λ host h. account.kept host (ap (contains host) (counted_hostile d c) ∙ h);
          origin = λ host h. elim (account.origin host h) [
            | inl old ↦ inl (ap (contains host) (sym (counted_hostile d c)) ∙ old)
            | inr (u, same) ↦ inr (
                unauthorised-some b pkt.src host (ap (λ k. unauthorised k pkt.src) (sym e) ∙ u)
                  same)
          ];
        },
      )

  -- Watching a source of any frames ends with no exception. The baseline stays, every alert that
  -- is yielded has at least the severity asked for and is in the detector's count, no hostile
  -- source is forgotten, and each new one is a source that is not in charge.
  pub run-IsRun :
      (d : Detector) (source : List (Option (Frame T)))
      → d.baseline ≡ b
      → (r : Detector × List (Alert T)) × (run ntop min_severity d source ≡ ok r)
        × IsRun min_severity b d r.0 r.1
  unfolding run
  run-IsRun d [] e = ((d, []), refl, nothing-IsRun d e)
  run-IsRun d (frame ∷ source) e =
      let (first, watched, head) = watch-IsRun d frame e in
      let (rest, ran, tail) = run-IsRun first.0 source head.baseline in
      (
        (rest.0, first.1 ++ rest.1),
        rw watched (rw ran refl),
        append-IsRun d first.0 rest.0 first.1 rest.1 head tail,
      )

-- The time of a frame has the property; a heartbeat has no time.
abbrev pub TimeHas : {T : Type 0} → (T → Type 0) → Option (Frame T) → Type 0
TimeHas P none = Unit
TimeHas P (some (ts, linktype, raw)) = P ts

serious-keeps :
    {A : Type 0} (Q : A → Type 0) (p : A → Bool) (xs : List A) → All Q xs → All Q (serious p xs)
unfolding serious
serious-keeps Q p [] h = tt
serious-keeps Q p (a ∷ rest) (q, h) = elim (Bool-cases (p a)) [
  | inl k ↦ rw k (q, serious-keeps Q p rest h)
  | inr k ↦ rw k (serious-keeps Q p rest h)
]

module _ {T : Type 0} (ntop : Bytes → Text) (min_severity : Severity) (P : T → Type 0) where
  watch-times :
      (d : Detector) (frame : Option (Frame T))
      → TimeHas P frame
      → (r : Detector × List (Alert T)) × (watch ntop min_severity d frame ≡ ok r)
        × All (λ (a : Alert T). P a.ts) r.1
  unfolding watch
  watch-times d none h = ((d, []), refl, tt)
  watch-times d (some (ts, linktype, raw)) h =
      let pkt = decode ntop raw linktype ts in
      let (fed, returns, account) = feed-Account d pkt in
      let p : Alert T → Bool = λ a. at_least a.severity min_severity in
      (
        (fed.0, serious p fed.1),
        rw returns refl,
        serious-keeps (λ (a : Alert T). P a.ts) p fed.1
            (All-map _ _ fed.1
              (λ a stamped. subst P (sym (stamped.ts ∙ decode_ts ntop raw linktype ts)) h)
              account.stamped),
      )

  -- The alerts of a run have times of its frames.
  pub run-times :
      (d : Detector) (source : List (Option (Frame T)))
      → All (TimeHas P) source
      → (r : Detector × List (Alert T)) × (run ntop min_severity d source ≡ ok r)
        × All (λ (a : Alert T). P a.ts) r.1
  unfolding run
  run-times d [] h = ((d, []), refl, tt)
  run-times d (frame ∷ source) (h, hs) =
      let (first, watched, head) = watch-times d frame h in
      let (rest, ran, tail) = run-times first.0 source hs in
      ((rest.0, first.1 ++ rest.1), rw watched (rw ran refl), All-append _ first.1 rest.1 head tail)
