-- ===== src/Command/Watch/Replay.antt =====
-- From an exchange through a capture file to the timeline.
use pyscan.Traffic.{encode_frame}
use pyscan.Wire.{Bytes}
use pyscan.Capture.{finished, yield_all, Clock}
use pyscan.Prelude.{
  ℕ, ◌^◌, ◌<◌, ◌≡◌, refl, sym, ap, ◌∙◌, true, Option, none, some, List, [], ◌∷◌, ◌++◌, map, arith,
  Text, length, All, Any, Exception, ok,
}
use pyscan.Capture.Writer.{Rounding, write_pcap}
use pyscan.Command.Watch.{
  replayed, monitor_file, MonitorArguments, Watched, read_pcap, monitor_command,
}
use pyscan.Command.Watch.Entries.{Printing}
use pyscan.Capture.RoundTrip.{IsWritable, reread, read_pcap-write_pcap}
use pyscan.Traffic.{Exchange, encode_frame}
use pyscan.Command.Watch.Evidence.{IsWatching, IsCriticalEntry, monitor_command-encode_frame}
use pyscan.Traffic.Layout.{IsSendable}
use pyscan.Command.Watch.Evidence.{Prints}
use pyscan.Monitor.Run.{TimeHas}
use pyscan.Detect.Attack.{ActsOn}
use pyscan.Command.{goes}
use pyscan.Detect.State.{contains}
use pyscan.Capture.Pcapng.{read_pcap}

replayed-yield_all :
    {T : Type 0} (frames : List (T × ℕ × Bytes))
    → replayed (yield_all frames finished) ≡ (map some frames, none)
unfolding replayed
replayed-yield_all [] = refl
replayed-yield_all {T = T} (frame ∷ frames) =
    ap (λ (r : List (Option (T × ℕ × Bytes)) × Option Exception). (some frame ∷ r.0, r.1))
      (replayed-yield_all frames)

map-append : {A B : Type 0} (f : A → B) (xs ys : List A) → map f (xs ++ ys) ≡ map f xs ++ map f ys
map-append f [] ys = refl
map-append f (x ∷ xs) ys = ap (◌∷◌ (f x)) (map-append f xs ys)

ok_injective : (a b : Bytes) → ok a ≡ ok b → a ≡ b
ok_injective a b e = cc

-- The time of an exchange is no part of its frame.
encode_frame_ts :
    {T : Type 0} (x : Exchange T) (t : T) → encode_frame (record x { ts = t }) ≡ encode_frame x
unfolding encode_frame
encode_frame_ts x t = refl

monitor_file_frames :
    {T : Type 0} (ntop : Bytes → Text) (time : Clock T) (printing : Printing T)
    (upper : Text → Text) (args : MonitorArguments) (file : Bytes) (frames : List (T × ℕ × Bytes))
    → read_pcap time file ≡ yield_all frames finished
    → monitor_file ntop time printing upper args file
      ≡ monitor_command ntop printing upper args (map some frames) none
unfolding monitor_file
monitor_file_frames ntop time printing upper args file frames e =
    ap
      (λ (r : List (Option (_ × ℕ × Bytes)) × Option Exception).
        monitor_command ntop printing upper args r.0 r.1)
      (ap replayed e ∙ replayed-yield_all frames)

-- The time of a record header can be printed, whatever 32-bit numbers stand in it.
abbrev pub PrintsHeaders : {T : Type 0} → Clock T → Printing T → Type 0
PrintsHeaders time printing =
    (seconds micros : ℕ)
    → seconds < 2 ^ 32
    → micros < 2 ^ 32
    → Prints printing (time.plus seconds (time.quotient micros 1_000_000))

module _ {T : Type 0} (rounding : Rounding T) (time : Clock T) (printing : Printing T)
    (prints : PrintsHeaders time printing) where
  reread-Prints :
      (frames : List (T × Bytes)) (ws : All (IsWritable rounding) frames)
      → All (TimeHas (Prints printing)) (map some (reread rounding time 1 frames ws))
  reread-Prints [] ws = tt
  reread-Prints (frame ∷ frames) (w, ws) =
      (prints w.seconds w.micros w.seconds_word w.micros_word, reread-Prints frames ws)

  -- A frame that is written is read among the others, with some time, and the times can be printed.
  reread-append :
      (before : List (T × Bytes)) (ts : T) (frame : Bytes) (after : List (T × Bytes))
      (ws : All (IsWritable rounding) (before ++ ((ts, frame) ∷ after)))
      → (first : List (T × ℕ × Bytes)) × (stamp : T) × (last : List (T × ℕ × Bytes)) × (reread
            rounding time 1
            (before ++ ((ts, frame) ∷ after))
            ws
          ≡ first ++ ((stamp, 1, frame) ∷ last))
        × All (TimeHas (Prints printing)) (map some first)
        × Prints printing stamp
        × All (TimeHas (Prints printing)) (map some last)
  reread-append [] ts frame after (w, ws) = (
    [],
    _,
    reread rounding time 1 after ws,
    refl,
    tt,
    prints w.seconds w.micros w.seconds_word w.micros_word,
    reread-Prints after ws,
  )
  reread-append ((t, f) ∷ before) ts frame after (w, ws) =
      let (first, stamp, last, e, early, now, late) = reread-append before ts frame after ws in
      let head : T × ℕ × Bytes = (time.plus w.seconds (time.quotient w.micros 1_000_000), 1, f) in
      (
        head ∷ first,
        stamp,
        last,
        ap (◌∷◌ head) e,
        (prints w.seconds w.micros w.seconds_word w.micros_word, early),
        now,
        late,
      )

  -- A capture file that `write_pcap` writes of frames, each with a time that a record header holds
  -- and of at most 64 MiB, one of which is an exchange of dotted addresses, 16-bit ports and a payload
  -- that fits, acting on a protected device from a source not in charge, encoded by `encode_frame` and
  -- padded, is replayed by `monitor` to its end, where the times of record headers can be printed,
  -- with a CRITICAL entry on the timeline and the source hostile.
  pub monitor_file-write_pcap :
      (ntop : Bytes → Text) (upper : Text → Text) (args : MonitorArguments) (x : Exchange T)
      (frame padding : Bytes) (before after : List (T × Bytes))
      → IsWatching upper args x.src x.dst
      → IsSendable x
      → ActsOn x.payload x.dport
      → encode_frame x ≡ ok frame
      → All (IsWritable rounding) (before ++ ((x.ts, frame ++ padding) ∷ after))
      → (file : Bytes) × (write_pcap rounding (before ++ ((x.ts, frame ++ padding) ∷ after)) 1
          ≡ ok (file, length (before ++ ((x.ts, frame ++ padding) ∷ after))))
        × ((outcome : Watched T) × (monitor_file ntop time printing upper args file ≡ goes outcome)
            × Any IsCriticalEntry outcome.timeline
            × (contains x.src outcome.detector.hostile_sources ≡ true))
  unfolding monitor_file
  monitor_file-write_pcap ntop upper args x frame padding before after watching ready acts encoded
        ws =
      let (file, written, reading) =
        read_pcap-write_pcap rounding time 1 (before ++ ((x.ts, frame ++ padding) ∷ after)) ws
          (omega arith) in
      let (first, stamp, last, split, early, now, late) =
        reread-append before x.ts (frame ++ padding) after ws in
      let y : Exchange T = record x { ts = stamp } in
      let (sent, again, found) =
        monitor_command-encode_frame ntop printing upper args y (map some first) (map some last)
          padding watching
          (record {
            from = ready.from;
            to = ready.to;
            src = ready.src;
            dst = ready.dst;
            sport = ready.sport;
            dport = ready.dport;
            fits = ready.fits;
          })
          acts early now late in
      let same : sent ≡ frame =
        ok_injective sent frame (sym again ∙ encode_frame_ts x stamp ∙ encoded) in
      let (outcome, ran, alarm, noted) = found in
      (
        file,
        written,
        (
          outcome,
          monitor_file_frames ntop time printing upper args file _ reading
              ∙ ap (λ frames. monitor_command ntop printing upper args (map some frames) none) split
              ∙ ap (λ frames. monitor_command ntop printing upper args frames none)
                  (map-append some first ((stamp, 1, frame ++ padding) ∷ last))
              ∙ ap
                  (λ sent'.
                    monitor_command ntop printing upper args
                      (map some first ++ (some (stamp, 1, sent' ++ padding) ∷ map some last)) none)
                  (sym same)
              ∙ ran,
          alarm,
          noted,
        ),
      )
