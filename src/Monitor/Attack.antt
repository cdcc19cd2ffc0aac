-- ===== src/Monitor/Attack.antt =====
-- An attack anywhere in a source is reported.
use pyscan.Monitor.{Frame, serious, watch, run}
use pyscan.Monitor.Run.{watch-IsRun, run-IsRun}
use mathlib.Core.Path.{subst, ap₂}
use pyscan.Wire.{Bytes}
use pyscan.Prelude.{
  ℕ, ◌≡◌, refl, sym, ap, ◌∙◌, inl, inr, Bool, true, Option, some, List, [], ◌∷◌, ◌++◌, Text, codes,
  length, Any, Any-append_left, Any-append_right, Bool-cases, Result, ok,
}
use pyscan.Detect.State.{
  at_least, Severity, Baseline, Detector, order, Alert, show_host, critical, high, protected,
  contains, medium, unauthorised, info,
}
use pyscan.Packet.Transport.{Packet}
use pyscan.Detect.Attack.{IsCritical, feed_attack, ActsOn}
use pyscan.Traffic.{Exchange, encode_frame, flag_bits}
use pyscan.Packet.{decode}
use pyscan.Traffic.Layout.{IsSendable}
use pyscan.Traffic.RoundTrip.{decode-encode_frame, tcp_packet}

serious-Any :
    {T : Type 0} (p : Alert T → Bool) (xs : List (Alert T))
    → ((a : Alert T) → IsCritical a → p a ≡ true)
    → Any (IsCritical {T = T}) xs
    → Any (IsCritical {T = T}) (serious p xs)
unfolding serious
serious-Any p [] k h = absurd h
serious-Any p (a ∷ xs) k (inl c) = rw (k a c) (inl c)
serious-Any p (a ∷ xs) k (inr h) = elim (Bool-cases (p a)) [
  | inl e ↦ rw e (inr (serious-Any p xs k h))
  | inr e ↦ rw e (serious-Any p xs k h)
]

critical-at_least : (m s : Severity) → s ≡ critical → at_least s m ≡ true
unfolding at_least order
critical-at_least critical s e = rw e refl
critical-at_least high s e = rw e refl
critical-at_least medium s e = rw e refl
critical-at_least info s e = rw e refl

-- The frame is decoded as a packet that acts on a protected device from a source not in charge.
pub record IsAttack {T : Type 0} (ntop : Bytes → Text) (b : Baseline) (host : Text)
    (frame : Frame T) : Type 0 where
  pub port : ℕ
  pub packet : Packet T
  pub decoded : decode ntop frame.2 frame.1 frame.0 ≡ packet
  pub tcp : packet.protocol ≡ codes "TCP"
  pub target : packet.dport ≡ some port
  pub source : packet.src ≡ some host
  pub protects : protected b packet.dst ≡ true
  pub hostile : unauthorised b packet.src ≡ true
  pub acts : ActsOn packet.payload port

module _ {T : Type 0} (ntop : Bytes → Text) (min_severity : Severity) (b : Baseline)
    (host : Text) where
  abbrev Reports : Result (Detector × List (Alert T)) → Type 0
  Reports m =
      (r : Detector × List (Alert T)) × (m ≡ ok r)
      × Any (IsCritical {T = T}) r.1
      × (contains host r.0.hostile_sources ≡ true)

  Reports-watch :
      (d : Detector) (frame : Frame T)
      → d.baseline ≡ b
      → IsAttack ntop b host frame
      → Reports (watch ntop min_severity d (some frame))
  unfolding watch show_host
  Reports-watch d (ts, linktype, raw) e a =
      let pkt = decode ntop raw linktype ts in
      let (fed, returns, alarm, noted) =
        feed_attack d pkt a.port (ap (λ (k : Packet T). k.protocol) a.decoded ∙ a.tcp)
          (ap (λ (k : Packet T). k.dport) a.decoded ∙ a.target)
          (ap₂ (λ k (q : Packet T). protected k q.dst) e a.decoded ∙ a.protects)
          (ap₂ (λ k (q : Packet T). unauthorised k q.src) e a.decoded ∙ a.hostile)
          (subst (λ (q : Packet T). ActsOn q.payload a.port) (sym a.decoded) a.acts) in
      let named : show_host pkt.src ≡ host =
        ap show_host (ap (λ (k : Packet T). k.src) a.decoded ∙ a.source) in
      (
        (fed.0, serious (λ k. at_least k.severity min_severity) fed.1),
        rw returns refl,
        serious-Any _ fed.1 (λ k c. critical-at_least min_severity k.severity c) alarm,
        ap (λ h. contains h fed.0.hostile_sources) (sym named) ∙ noted,
      )

  Reports-run :
      (d : Detector) (before after : List (Option (Frame T))) (frame : Frame T)
      → d.baseline ≡ b
      → IsAttack ntop b host frame
      → Reports (run ntop min_severity d (before ++ (some frame ∷ after)))
  unfolding run
  Reports-run d [] after frame e a =
      let (first, watched, alarm, noted) = Reports-watch d frame e a in
      let (first', watched', head) = watch-IsRun ntop min_severity b d (some frame) e in
      let same : first' ≡ first = cc (watched, watched') in
      let (rest, ran, tail) =
        run-IsRun ntop min_severity b first.0 after
          (ap (λ (r : Detector × List (Alert T)). r.0.baseline) (sym same) ∙ head.baseline) in
      (
        (rest.0, first.1 ++ rest.1),
        rw watched (rw ran refl),
        Any-append_left _ first.1 rest.1 alarm,
        tail.kept host noted,
      )
  Reports-run d (other ∷ before) after frame e a =
      let (first, watched, head) = watch-IsRun ntop min_severity b d other e in
      let (rest, ran, alarm, noted) = Reports-run first.0 before after frame head.baseline a in
      (
        (rest.0, first.1 ++ rest.1),
        rw watched (rw ran refl),
        Any-append_right _ first.1 rest.1 alarm,
        noted,
      )

  -- An exchange that acts on a protected device from a source that is not in charge, encoded by
  -- `encode_frame`, padded by the link layer and watched anywhere among other frames, makes the
  -- run yield a CRITICAL alert, whatever the severity asked for, and leaves its source hostile.
  pub run-encode_frame :
      (d : Detector) (x : Exchange T) (before after : List (Option (Frame T))) (padding : Bytes)
      → d.baseline ≡ b
      → IsSendable x
      → x.src ≡ host
      → unauthorised b (some x.src) ≡ true
      → protected b (some x.dst) ≡ true
      → ActsOn x.payload x.dport
      → (frame : Bytes) × (encode_frame x ≡ ok frame)
        × ((r : Detector × List (Alert T)) × (run ntop min_severity d
                (before ++ (some (x.ts, 1, frame ++ padding) ∷ after))
              ≡ ok r)
            × Any (IsCritical {T = T}) r.1
            × (contains host r.0.hostile_sources ≡ true))
  run-encode_frame d x before after padding e ready named u p acts =
      let (frame, encoded, decoded) = decode-encode_frame ntop x padding ready in
      let packet =
        tcp_packet x.ts (length (frame ++ padding)) x.src x.dst x.sport x.dport (flag_bits x.flags)
          x.payload in
      let attack : IsAttack ntop b host (x.ts, 1, frame ++ padding) = record {
        port = x.dport;
        packet = packet;
        decoded = decoded;
        tcp = refl;
        target = refl;
        source = ap some named;
        protects = p;
        hostile = u;
        acts = acts;
      } in
      (frame, encoded, Reports-run d before after (x.ts, 1, frame ++ padding) e attack)
