-- ===== src/Capture/Pcapng.antt =====
-- The block loop of pcapng, and the choice of the format by the magic number.
use pyscan.Prelude.{
  ℕ, suc, zero, ◌-◌, true, false, not, ◌||◌, Option, none, some, List, [], length, take, drop,
  slice, ltb, ◌==◌, if◌then◌else◌, value_error, Result, ok, err, ◌>>=◌,
}
use pyscan.Wire.{Bytes, Endian, little, big, unpack_u32}
use pyscan.Capture.{
  Stream, finished, failed, yield, stuck, Clock, Frame, attempt, is_classic, read_classic,
  max_block,
}
use pyscan.Capture.Blocks.{bt_shb, shb_magic, Interface, block_effect}

-- What `_read_shb_header` returns and leaves: the byte order, the length, and the handle.
pub record Section : Type 0 where
  pub endian : Endian
  pub total : ℕ
  pub handle : Bytes

unfoldable pub read_shb_header : Bytes → Bytes → Result Section
read_shb_header handle head =
    let magic = take 4 handle in
    if ltb (length magic) 4 then err value_error else do
      guess ← unpack_u32 little magic
      let endian = if guess == shb_magic then little else big
      seen ← unpack_u32 endian magic
      if not (seen == shb_magic) then err value_error else do
        total ← unpack_u32 endian (slice head 4 8)
        if ltb total 16 || ltb max_block total
            then err value_error
            else ok (record { endian = endian; total = total; handle = drop 4 handle })

abbrev pub yield_some {ℓ} : {A : Type ℓ} → Option A → Stream A → Stream A
yield_some none rest = rest
yield_some (some a) rest = yield a rest

module _ {T : Type 0} (clock : Clock T) where
  -- `while True` over the blocks; a round reads 8 bytes or ends.
  unfoldable pub pcapng_loop : ℕ → Bytes → List Interface → Endian → Stream (Frame T)
  pcapng_loop zero handle interfaces endian = stuck
  pcapng_loop (suc fuel) handle interfaces endian =
      let head = take 8 handle in
      elim (ltb (length head) 8) [
        | true ↦ finished
        | false ↦ attempt (unpack_u32 endian (take 4 head)) λ block_type.
            elim (block_type == bt_shb) [
              | true ↦ attempt (read_shb_header (drop 8 handle) head) λ section.
                  let remaining = section.total - 16 in
                  let body = take remaining section.handle in
                  let tail = drop remaining section.handle in
                  elim (ltb (length body) remaining || ltb (length (take 4 tail)) 4) [
                    | true ↦ finished
                    | false ↦ pcapng_loop fuel (drop 4 tail) [] section.endian
                  ]
              | false ↦ attempt (unpack_u32 endian (slice head 4 8)) λ total.
                  elim (ltb total 12 || ltb max_block total) [
                    | true ↦ failed value_error
                    | false ↦
                        let body = take (total - 12) (drop 8 handle) in
                        let tail = drop (total - 12) (drop 8 handle) in
                        elim (ltb (length body) (total - 12) || ltb (length (take 4 tail)) 4) [
                          | true ↦ finished
                          | false ↦
                              attempt (block_effect clock block_type body endian interfaces)
                                λ effect.
                                  yield_some effect.1
                                    (pcapng_loop fuel (drop 4 tail) effect.0 endian)
                        ]
                  ]
            ]
      ]

  -- `handle.seek(0)`: the loop starts over at the first byte.
  unfoldable pub read_pcapng : Bytes → Stream (Frame T)
  unfolding pcapng_loop
  read_pcapng file = pcapng_loop (suc (length file)) file [] little

  unfoldable pub read_pcap : Bytes → Stream (Frame T)
  unfolding read_pcapng
  read_pcap file =
      let magic = take 4 file in
      if ltb (length magic) 4
      then failed value_error
      else if is_classic magic
      then read_classic clock magic (drop 4 file)
      else attempt (unpack_u32 little magic) λ as_little. attempt (unpack_u32 big magic) λ as_big.
        if as_little == bt_shb || as_big == bt_shb then read_pcapng file else failed value_error
