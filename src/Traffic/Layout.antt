-- ===== src/Traffic/Layout.antt =====
-- The bytes of the frames that `encode_frame` builds, layer by layer.
use pyscan.Wire.Laws.{pack_u16_ok, pack_u32_ok, pack_u8_ok}
use pyscan.Wire.{Bytes, big, u16_bytes, u32_bytes}
use pyscan.Prelude.{
  ℕ, suc, zero, ◌+◌, ◌-◌, ◌/◌, ◌%◌, ◌<◌, ◌≡◌, refl, ap, ◌∙◌, inl, inr, [], ◌∷◌, ◌++◌, arith, Text,
  length, length-append, ◌==◌, low_bits, ==_iff, Bool-cases, ok, Returns, Returns-bind,
}
use pyscan.Traffic.Checksum.{pad_even, sum_words, checksum, fold_carry}
use pyscan.Traffic.{
  Exchange, flag_bits, tcp_header, pseudo_header, ipv4, ipv4_header, tcp, four_bytes, encode_frame,
  mac,
}
use pyscan.Traffic.Address.{Address, octets, dotted, address_bytes-dotted, mac-dotted}

sum_words-even : (n : ℕ) (block : Bytes) → length block ≡ n + n → Returns (sum_words block)
unfolding sum_words
sum_words-even n [] h = (0, refl)
sum_words-even n (a ∷ []) h = absurd (omega arith)
sum_words-even zero (a ∷ b ∷ rest) h = absurd (omega arith)
sum_words-even (suc n) (a ∷ b ∷ rest) h =
    Returns-bind _ _ (sum_words-even n rest (omega arith)) λ m. (_, refl)

length-pad_even :
    (block : Bytes) → length (pad_even block) ≡ (length block + 1) / 2 + (length block + 1) / 2
unfolding pad_even
length-pad_even block = elim (Bool-cases (length block % 2 == 1)) [
  | inl odd ↦
      rw odd (omega (arith, length-append block (0x00 ∷ []), (==_iff (length block % 2) 1).0 odd))
  | inr even ↦ rw even (ground arith)
]

-- The checksum is a number of 16 bits, whatever the block.
pub checksum-Returns : (block : Bytes) → (c : ℕ) × (checksum block ≡ ok c) × (c < 65536)
unfolding checksum
checksum-Returns block =
    let (total, e) =
      sum_words-even ((length block + 1) / 2) (pad_even block) (length-pad_even block) in
    (0xFFFF - low_bits (fold_carry total total) 16, rw e refl, omega arith)

-- The 20 bytes of the TCP header and the payload behind them, with checksum `sum`.
abbrev pub tcp_layout : ℕ → ℕ → ℕ → ℕ → Bytes → Bytes
tcp_layout sport dport flags sum payload =
    sport / 256
    ∷ sport % 256
    ∷ dport / 256
    ∷ dport % 256
    ∷ 0
    ∷ 0
    ∷ 3
    ∷ 232
    ∷ 0
    ∷ 0
    ∷ 7
    ∷ 208
    ∷ 0x50
    ∷ flags
    ∷ 32
    ∷ 0
    ∷ sum / 256
    ∷ sum % 256
    ∷ 0
    ∷ 0
    ∷ payload

-- The 20 bytes of the IPv4 header and the segment behind them.
abbrev pub ipv4_layout : Address → Address → ℕ → ℕ → Bytes → Bytes
ipv4_layout src dst total sum segment =
    0x45
    ∷ 0
    ∷ total / 256
    ∷ total % 256
    ∷ 0
    ∷ 0
    ∷ 0x40
    ∷ 0
    ∷ 64
    ∷ 6
    ∷ sum / 256
    ∷ sum % 256
    ∷ (octets src ++ (octets dst ++ segment))

abbrev pub frame_layout : Address → Address → Bytes → Bytes
frame_layout src dst packet =
    0x02 ∷ 0x00 ∷ (octets dst ++ (0x02 ∷ 0x00 ∷ (octets src ++ (0x08 ∷ 0x00 ∷ packet))))

pub flag_bits-lt : (flags : Text) → flag_bits flags < 256
unfolding flag_bits
flag_bits-lt flags = ground arith

tcp_header-layout :
    (sport dport flags : ℕ)
    → sport < 65536
    → dport < 65536
    → flags < 256
    → tcp_header sport dport flags ≡ ok (tcp_layout sport dport flags 0 [])
unfolding tcp_header u16_bytes u32_bytes
tcp_header-layout sport dport flags s d f = rw (pack_u16_ok big sport s) (
    rw (pack_u16_ok big dport d) (
      rw (pack_u32_ok big 1000 (omega arith)) (
        rw (pack_u32_ok big 2000 (omega arith))
          (rw (pack_u8_ok flags f) (rw (pack_u16_ok big 8192 (omega arith)))))))

-- An exchange that can be sent: dotted addresses, ports of 16 bits, a payload that fits.
pub record IsSendable {T : Type 0} (x : Exchange T) : Type 0 where
  pub from : Address
  pub to : Address
  pub src : x.src ≡ dotted from
  pub dst : x.dst ≡ dotted to
  pub sport : x.sport < 65536
  pub dport : x.dport < 65536
  pub fits : 40 + length x.payload < 65536

pseudo_header-Returns :
    (src dst : Address) (s d : Text) (size : ℕ)
    → s ≡ dotted src
    → d ≡ dotted dst
    → size < 65536
    → Returns (pseudo_header s d size)
unfolding pseudo_header
pseudo_header-Returns src dst s d size es ed h =
    rw (es, ed)
      (rw (address_bytes-dotted src)
        (rw (address_bytes-dotted dst) (rw (pack_u16_ok big size h) (_, refl))))

module _ {T : Type 0} (x : Exchange T) (ready : IsSendable x) where
  tcp-layout :
      (sum : ℕ) × (sum < 65536)
      × (tcp x ≡ ok (tcp_layout x.sport x.dport (flag_bits x.flags) sum x.payload))
  unfolding tcp u16_bytes
  tcp-layout =
      let header =
        tcp_header-layout x.sport x.dport (flag_bits x.flags) ready.sport ready.dport
          (flag_bits-lt x.flags) in
      let segment = tcp_layout x.sport x.dport (flag_bits x.flags) 0 x.payload in
      let (pseudo, p) =
        pseudo_header-Returns ready.from ready.to x.src x.dst (length segment) ready.src ready.dst
          (omega (arith, ready.fits)) in
      let (sum, e, l) = checksum-Returns (pseudo ++ segment) in
      (sum, l, rw header (rw p (rw e (rw (pack_u16_ok big sum l)))))

ipv4_header-layout :
    (src dst : Address) (s d : Text) (size : ℕ)
    → s ≡ dotted src
    → d ≡ dotted dst
    → size < 65536
    → ipv4_header s d size ≡ ok (ipv4_layout src dst size 0 [])
unfolding ipv4_header u16_bytes four_bytes
ipv4_header-layout src dst s d size es ed h =
    rw (es, ed)
      (rw (pack_u16_ok big size h) (rw (address_bytes-dotted src) (rw (address_bytes-dotted dst))))

ipv4-layout :
    (src dst : Address) (s d : Text) (segment : Bytes)
    → s ≡ dotted src
    → d ≡ dotted dst
    → 20 + length segment < 65536
    → (sum : ℕ) × (sum < 65536)
      × (ipv4 s d segment ≡ ok (ipv4_layout src dst (20 + length segment) sum []))
unfolding ipv4 u16_bytes
ipv4-layout src dst s d segment es ed h =
    let (sum, e, l) = checksum-Returns (ipv4_layout src dst (20 + length segment) 0 []) in
    (
      sum,
      l,
      rw (ipv4_header-layout src dst s d (20 + length segment) es ed h)
          (rw e (rw (pack_u16_ok big sum l))),
    )

-- What a sendable exchange is encoded as, for the checksums that the encoder computes.
pub encode_frame-layout :
    {T : Type 0} (x : Exchange T) (ready : IsSendable x)
    → (ip_sum : ℕ) × (tcp_sum : ℕ) × (encode_frame x
        ≡ ok (
            frame_layout ready.from ready.to (
              ipv4_layout ready.from ready.to
                (40 + length x.payload)
                ip_sum
                (tcp_layout x.sport x.dport (flag_bits x.flags) tcp_sum x.payload))))
unfolding encode_frame
encode_frame-layout x ready =
    let (tcp_sum, _, t) = tcp-layout x ready in
    let segment = tcp_layout x.sport x.dport (flag_bits x.flags) tcp_sum x.payload in
    let (ip_sum, _, i) =
      ipv4-layout ready.from ready.to x.src x.dst segment ready.src ready.dst
        (omega (arith, ready.fits)) in
    let to : mac x.dst ≡ ok (0x02 ∷ 0x00 ∷ octets ready.to) =
      ap mac ready.dst ∙ mac-dotted ready.to in
    let from : mac x.src ≡ ok (0x02 ∷ 0x00 ∷ octets ready.from) =
      ap mac ready.src ∙ mac-dotted ready.from in
    let size : 20 + length segment ≡ 40 + length x.payload = omega arith in
    (
      ip_sum,
      tcp_sum,
      rw t (
          rw i (
            rw to (
              rw from (
                ap
                  (λ n. ok (
                    frame_layout ready.from ready.to
                      (ipv4_layout ready.from ready.to n ip_sum segment)))
                  size)))),
    )
