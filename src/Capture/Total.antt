-- ===== src/Capture/Total.antt =====
-- Reading ends: the fuel of the loops over records and blocks is enough on every file.
use mathlib.Core.Path.{subst}
use pyscan.Capture.{finished, failed, yield, stuck, Stream, read_classic, is_classic}
use pyscan.Wire.{Bytes, Endian, little, big, unpack_u32}
use pyscan.Prelude.{
  ℕ, suc, zero, ◌-◌, ◌<◌, ◌≤◌, ◌≡◌, refl, ap, ◌∙◌, inl, inr, false, not, ◌||◌, Option, none, some,
  List, [], arith, length, take, drop, slice, length-take, length-drop, ltb, ◌==◌, if◌then◌else◌,
  Bool-cases, value_error, Result, ok, err, ◌>>=◌,
}
use pyscan.Capture.{Clock, Stream, classic_loop, attempt, max_block}
use pyscan.Capture.Pcapng.{
  Section, pcapng_loop, read_shb_header, read_pcap, yield_some, read_pcapng,
}
use pyscan.Capture.Blocks.{Interface, shb_magic, bt_shb, block_effect}

-- The generator returns or raises behind its last frame, and does not run out of fuel.
abbrev pub Ends {ℓ} : {A : Type ℓ} → Stream A → Type 0
Ends finished = Unit
Ends (failed e) = Unit
Ends (yield a rest) = Ends rest
Ends stuck = ⊥

Ends-attempt {ℓ κ} :
    {A : Type ℓ} {B : Type κ} (m : Result A) (f : A → Stream B)
    → ((a : A) → m ≡ ok a → Ends (f a))
    → Ends (attempt m f)
Ends-attempt (ok a) f h = h a refl
Ends-attempt (err e) f h = tt

Ends-yield_some {ℓ} :
    {A : Type ℓ} (o : Option A) (rest : Stream A) → Ends rest → Ends (yield_some o rest)
Ends-yield_some none rest h = h
Ends-yield_some (some a) rest h = h

long_enough : (n : ℕ) (handle : Bytes) → ltb (length (take n handle)) n ≡ false → n ≤ length handle
long_enough n handle h = ground (arith, length-take n handle)

dropped : (m n : ℕ) (handle : Bytes) → length (drop m (drop n handle)) ≡ length handle - n - m
dropped m n handle = length-drop m (drop n handle) ∙ ap (λ k. k - m) (length-drop n handle)

-- Behind a section header the file goes on four bytes later.
Advances : Bytes → Result Section → Type 0
Advances handle (ok section) = section.handle ≡ drop 4 handle
Advances handle (err e) = Unit

Advances-bind {ℓ} :
    {A : Type ℓ} (handle : Bytes) (m : Result A) (f : A → Result Section)
    → ((a : A) → Advances handle (f a))
    → Advances handle (m >>= f)
Advances-bind handle (ok a) f h = h a
Advances-bind handle (err e) f h = unfold Advances in tt

section_of-Advances :
    (handle : Bytes) (e : Endian) (total : ℕ)
    → Advances handle (
        if ltb total 16 || ltb max_block total
        then err value_error
        else ok (record { endian = e; total = total; handle = drop 4 handle }))
unfolding Advances
section_of-Advances handle e total = elim (Bool-cases (ltb total 16 || ltb max_block total)) [
  | inl h ↦ rw h tt
  | inr h ↦ rw h refl
]

read_shb_header-Advances : (handle head : Bytes) → Advances handle (read_shb_header handle head)
unfolding read_shb_header
read_shb_header-Advances handle head = elim (Bool-cases (ltb (length (take 4 handle)) 4)) [
  | inl h ↦ rw h (unfold Advances in tt)
  | inr h ↦ rw h (
      Advances-bind handle (unpack_u32 little (take 4 handle)) _ λ guess.
        Advances-bind handle
          (unpack_u32 (if guess == shb_magic then little else big) (take 4 handle)) _
          λ seen. elim (Bool-cases (not (seen == shb_magic))) [
            | inl k ↦ rw k (unfold Advances in tt)
            | inr k ↦ rw k (
                Advances-bind handle
                  (unpack_u32 (if guess == shb_magic then little else big) (slice head 4 8)) _
                  λ total. section_of-Advances handle _ total)
          ])
]

section_handle :
    (handle head : Bytes) (section : Section)
    → read_shb_header handle head ≡ ok section
    → section.handle ≡ drop 4 handle
section_handle handle head section e =
    unfold Advances in subst (Advances handle) e (read_shb_header-Advances handle head)

length-section :
    (handle head : Bytes) (section : Section)
    → read_shb_header (drop 8 handle) head ≡ ok section
    → length section.handle ≡ length handle - 8 - 4
length-section handle head section e =
    ap length (section_handle (drop 8 handle) head section e) ∙ dropped 4 8 handle

module _ {T : Type 0} (clock : Clock T) where
  classic_loop-Ends :
      (fuel : ℕ) (endian : Endian) (divisor linktype : ℕ) (handle : Bytes)
      → length handle < fuel
      → Ends (classic_loop clock fuel endian divisor linktype handle)
  unfolding classic_loop
  classic_loop-Ends zero endian divisor linktype handle h = absurd (omega (arith, h))
  classic_loop-Ends (suc fuel) endian divisor linktype handle h =
      elim (Bool-cases (ltb (length (take 16 handle)) 16)) [
        | inl short ↦ rw (short, classic_loop) tt
        | inr long ↦
            rw (long, classic_loop)
              (Ends-attempt (unpack_u32 endian (slice (take 16 handle) 0 4)) _ λ ts_sec _.
                Ends-attempt (unpack_u32 endian (slice (take 16 handle) 4 8)) _ λ ts_frac _.
                  Ends-attempt (unpack_u32 endian (slice (take 16 handle) 8 12)) _ λ incl_len _.
                    elim (Bool-cases (ltb max_block incl_len)) [
                      | inl big_one ↦ rw big_one tt
                      | inr sane ↦
                          rw sane
                            (elim (Bool-cases
                              (ltb (length (take incl_len (drop 16 handle))) incl_len)) [
                                | inl cut ↦ rw cut tt
                                | inr whole ↦ rw whole (
                                    classic_loop-Ends fuel endian divisor linktype
                                      (drop incl_len (drop 16 handle))
                                      (omega (
                                        arith,
                                        h,
                                        dropped incl_len 16 handle,
                                        long_enough 16 handle long,
                                      )))
                              ])
                    ])
      ]

  pcapng_loop-Ends :
      (fuel : ℕ) (handle : Bytes) (interfaces : List Interface) (endian : Endian)
      → length handle < fuel
      → Ends (pcapng_loop clock fuel handle interfaces endian)
  unfolding pcapng_loop
  pcapng_loop-Ends zero handle interfaces endian h = absurd (omega (arith, h))
  pcapng_loop-Ends (suc fuel) handle interfaces endian h =
      elim (Bool-cases (ltb (length (take 8 handle)) 8)) [
        | inl short ↦ rw (short, pcapng_loop) tt
        | inr long ↦
            rw (long, pcapng_loop)
              (let room = long_enough 8 handle long in
                Ends-attempt (unpack_u32 endian (take 4 (take 8 handle))) _ λ block_type _.
                  elim (Bool-cases (block_type == bt_shb)) [
                    | inl header ↦ rw header (
                        Ends-attempt (read_shb_header (drop 8 handle) (take 8 handle)) _
                          λ section e.
                            let behind : length (drop 4 (drop (section.total - 16) section.handle))
                                < fuel =
                              omega (
                                arith,
                                h,
                                room,
                                dropped 4 (section.total - 16) section.handle,
                                length-section handle (take 8 handle) section e,
                              ) in
                            elim (Bool-cases (
                              ltb (length (take (section.total - 16) section.handle))
                                (section.total - 16)
                              || ltb (length (take 4 (drop (section.total - 16) section.handle)))
                                  4)) [
                                    | inl cut ↦ rw cut tt
                                    | inr whole ↦
                                        rw whole (pcapng_loop-Ends fuel _ [] section.endian behind)
                                  ])
                    | inr other ↦ rw other (
                        Ends-attempt (unpack_u32 endian (slice (take 8 handle) 4 8)) _ λ total _.
                          elim (Bool-cases (ltb total 12 || ltb max_block total)) [
                            | inl odd ↦ rw odd tt
                            | inr sane ↦ rw sane (
                                let tail = drop (total - 12) (drop 8 handle) in
                                let behind : length (drop 4 tail) < fuel = omega (
                                  arith,
                                  h,
                                  room,
                                  length-drop 4 tail,
                                  dropped (total - 12) 8 handle,
                                ) in
                                elim (Bool-cases (
                                  ltb (length (take (total - 12) (drop 8 handle))) (total - 12)
                                  || ltb (length (take 4 tail)) 4)) [
                                    | inl cut ↦ rw cut tt
                                    | inr whole ↦ rw whole (
                                        Ends-attempt
                                          (block_effect clock block_type
                                            (take (total - 12) (drop 8 handle)) endian interfaces)
                                          _
                                          λ effect _. Ends-yield_some effect.1 _ (
                                            pcapng_loop-Ends fuel (drop 4 tail) effect.0 endian
                                              behind))
                                  ])
                          ])
                  ])
      ]

  -- Reading any file ends: behind the last frame the reader returns or raises.
  pub read_pcap-Ends : (file : Bytes) → Ends (read_pcap clock file)
  unfolding read_pcap read_pcapng read_classic
  read_pcap-Ends file = elim (Bool-cases (ltb (length (take 4 file)) 4)) [
    | inl short ↦ rw short tt
    | inr long ↦ rw long (elim (Bool-cases (is_classic (take 4 file))) [
      | inl classic ↦ rw classic (elim (Bool-cases (ltb (length (take 20 (drop 4 file))) 20)) [
        | inl cut ↦ rw cut tt
        | inr whole ↦ rw whole (
            let behind : length (drop 20 (drop 4 file)) < suc (length (drop 4 file)) =
              omega (arith, length-drop 20 (drop 4 file)) in
            Ends-attempt (unpack_u32 _ (slice (take 20 (drop 4 file)) 16 20)) _ λ linktype _.
              classic_loop-Ends (suc (length (drop 4 file))) _ _ linktype (drop 20 (drop 4 file))
                behind)
      ])
      | inr other ↦ rw other (
          Ends-attempt (unpack_u32 little (take 4 file)) _ λ as_little _.
            Ends-attempt (unpack_u32 big (take 4 file)) _ λ as_big _.
              elim (Bool-cases (as_little == bt_shb || as_big == bt_shb)) [
                | inl h ↦ rw h (pcapng_loop-Ends (suc (length file)) file [] little (omega arith))
                | inr h ↦ rw h tt
              ])
    ])
  ]
