-- ===== src/Capture/RoundTrip.antt =====
-- A capture that `write_pcap` writes is read by `read_pcap` as the frames that were written.
use pyscan.Wire.Laws.{unpack_u32-bytes, pack_u32_ok}
use pyscan.Wire.{Bytes, little, u32_bytes, pack_u32}
use pyscan.Prelude.{
  ℕ, suc, zero, ◌^◌, ◌<◌, ◌≤◌, ◌≡◌, refl, ap, ◌∙◌, false, List, [], ◌∷◌, ◌++◌, arith, text_eq,
  length, drop, length-append, take-append, drop-append, All, ltb, lt→ltb, pos, ok,
}
use pyscan.Capture.{
  Frame, Clock, classic_loop, yield, attempt, yield_all, finished, read_classic, is_classic,
}
use pyscan.Capture.Writer.{
  Rounding, write_record, write_records, split_time, pack_int, global_header, write_pcap,
}
use pyscan.Capture.Pcapng.{read_pcap}

-- The header of a record, and the frame behind it.
abbrev pub record_layout : ℕ → ℕ → Bytes → Bytes
record_layout seconds micros frame =
    u32_bytes little seconds
    ++ (u32_bytes little micros
        ++ (u32_bytes little (length frame) ++ (u32_bytes little (length frame) ++ frame)))

module _ {T : Type 0} (rounding : Rounding T) where
  -- The time of the frame has a record header, and the frame is no longer than the reader accepts.
  pub record IsWritable (timed : T × Bytes) : Type 0 where
    pub seconds : ℕ
    pub micros : ℕ
    pub split : split_time rounding timed.0 ≡ (pos seconds, pos micros)
    pub seconds_word : seconds < 2 ^ 32
    pub micros_word : micros < 2 ^ 32
    pub fits : length timed.1 ≤ 67_108_864

  pack_int-pos : (n : ℕ) → n < 2 ^ 32 → pack_int (pos n) ≡ ok (u32_bytes little n)
  unfolding pack_int
  pack_int-pos n h = pack_u32_ok little n h

  write_record-layout :
      (ts : T) (frame : Bytes) (w : IsWritable (ts, frame))
      → write_record rounding ts frame ≡ ok (record_layout w.seconds w.micros frame)
  unfolding write_record
  write_record-layout ts frame w = rw w.split (
      rw (pack_int-pos w.seconds w.seconds_word) (
        rw (pack_int-pos w.micros w.micros_word)
          (rw (pack_u32_ok little (length frame) (omega (arith, w.fits))) refl)))

  -- The bytes of all records.
  records_layout : (frames : List (T × Bytes)) → All IsWritable frames → Bytes
  records_layout [] ws = []
  records_layout ((ts, frame) ∷ rest) (w, ws) =
      record_layout w.seconds w.micros frame ++ records_layout rest ws

  write_records-layout :
      (frames : List (T × Bytes)) (ws : All IsWritable frames)
      → write_records rounding frames ≡ ok (records_layout frames ws, length frames)
  unfolding write_records records_layout
  write_records-layout [] ws = refl
  write_records-layout ((ts, frame) ∷ rest) (w, ws) = rw (write_record-layout ts frame w) (
      rw (write_records-layout rest ws) (
        ap (λ n. ok (record_layout w.seconds w.micros frame ++ records_layout rest ws, n))
          (omega arith)))

  length-records_layout :
      (frames : List (T × Bytes)) (ws : All IsWritable frames)
      → length frames ≤ length (records_layout frames ws)
  unfolding records_layout u32_bytes
  length-records_layout [] ws = omega arith
  length-records_layout ((ts, frame) ∷ rest) (w, ws) =
      omega (arith, length-records_layout rest ws, length-append frame (records_layout rest ws))

  module _ (clock : Clock T) (linktype : ℕ) where
    -- What the reader yields for the frames.
    abbrev pub reread : (frames : List (T × Bytes)) → All IsWritable frames → List (Frame T)
    reread [] ws = []
    reread ((ts, frame) ∷ rest) (w, ws) =
        (clock.plus w.seconds (clock.quotient w.micros 1_000_000), linktype, frame) ∷ reread rest ws

    classic_loop-record :
        (fuel seconds micros : ℕ) (frame rest : Bytes)
        → length frame ≤ 67_108_864
        → classic_loop clock
            (suc fuel)
            little
            1_000_000
            linktype
            (record_layout seconds micros frame ++ rest)
          ≡ yield
              (clock.plus seconds (clock.quotient micros 1_000_000), linktype, frame)
              (classic_loop clock fuel little 1_000_000 linktype rest)
    unfolding classic_loop u32_bytes
    classic_loop-record fuel seconds micros frame rest h =
        let s = unpack_u32-bytes little seconds in
        let m = unpack_u32-bytes little micros in
        let n = unpack_u32-bytes little (length frame) in
        let sane : ltb 67_108_864 (length frame) ≡ false = ground arith in
        let body = take-append (length frame) frame rest refl in
        let tail = drop-append (length frame) frame rest refl in
        let again =
          ap
            (λ b.
              yield (clock.plus seconds (clock.quotient micros 1_000_000), linktype, b)
                (classic_loop clock fuel little 1_000_000 linktype rest))
            body in
        let full : ltb (length frame) (length frame) ≡ false = ground arith in
        rw s (rw m (rw n (rw (sane, attempt) (rw body (rw full (rw tail again))))))

    classic_loop-records :
        (frames : List (T × Bytes)) (ws : All IsWritable frames) (fuel : ℕ)
        → length frames < fuel
        → classic_loop clock fuel little 1_000_000 linktype (records_layout frames ws)
          ≡ yield_all (reread frames ws) finished
    unfolding records_layout
    classic_loop-records [] ws zero h = absurd (omega (arith, h))
    classic_loop-records [] ws (suc fuel) h = unfold classic_loop in refl
    classic_loop-records ((ts, frame) ∷ rest) (w, ws) zero h = absurd (omega (arith, h))
    classic_loop-records ((ts, frame) ∷ rest) (w, ws) (suc fuel) h =
        classic_loop-record fuel w.seconds w.micros frame (records_layout rest ws) w.fits
        ∙ ap (yield (clock.plus w.seconds (clock.quotient w.micros 1_000_000), linktype, frame))
            (classic_loop-records rest ws fuel (omega (arith, h)))

    global_layout : Bytes
    global_layout =
        0xd4
        ∷ 0xc3
        ∷ 0xb2
        ∷ 0xa1
        ∷ 2
        ∷ 0
        ∷ 4
        ∷ 0
        ∷ 0
        ∷ 0
        ∷ 0
        ∷ 0
        ∷ 0
        ∷ 0
        ∷ 0
        ∷ 0
        ∷ 0xff
        ∷ 0xff
        ∷ 0
        ∷ 0
        ∷ u32_bytes little linktype

    global_header-layout : linktype < 2 ^ 32 → global_header linktype ≡ ok global_layout
    unfolding global_header global_layout pack_u32 u32_bytes
    global_header-layout h = rw (lt→ltb linktype (2 ^ 32) h) refl

    read_classic-layout :
        (rest : Bytes)
        → read_pcap clock (global_layout ++ rest)
          ≡ classic_loop clock
              (suc (length (drop 4 (global_layout ++ rest))))
              little
              1_000_000
              linktype
              rest
    unfolding read_pcap read_classic is_classic text_eq global_layout u32_bytes
    read_classic-layout rest = rw (unpack_u32-bytes little linktype) refl

    -- Frames whose times have a record header and that are within the reader's limit are written
    -- with no exception, and counted; the file is read as exactly these frames, in order, each with
    -- its link type and the time of its header, and the reader then finishes.
    pub read_pcap-write_pcap :
        (frames : List (T × Bytes)) (ws : All IsWritable frames)
        → linktype < 2 ^ 32
        → (file : Bytes) × (write_pcap rounding frames linktype ≡ ok (file, length frames))
          × (read_pcap clock file ≡ yield_all (reread frames ws) finished)
    unfolding write_pcap global_layout u32_bytes
    read_pcap-write_pcap frames ws h = (
      global_layout ++ records_layout frames ws,
      rw (global_header-layout h) (rw (write_records-layout frames ws) refl),
      read_classic-layout (records_layout frames ws)
          ∙ classic_loop-records frames ws
              (suc (length (drop 4 (global_layout ++ records_layout frames ws))))
              (omega (arith, length-records_layout frames ws)),
    )
