-- ===== src/Traffic.antt =====
-- pyscan/domain/ot_traffic.py: frames built byte by byte, and the practice scenario.
-- Timestamps have a type `T` of their own; `tick now n` is `now` plus n tenths of a second.
pub mod Payloads
pub mod Checksum
pub mod Address
pub mod Layout
pub mod RoundTrip
pub mod Codecs
use pyscan.Prelude.{
  ℕ, suc, zero, ◌+◌, ◌-◌, ◌*◌, ◌%◌, false, List, [], ◌∷◌, ◌++◌, map, Text, codes, text_eq, split_on,
  length, take, drop, replicate, if◌then◌else◌, ℤ, pos, negsuc, parse_int, value_error, Result, ok,
  err, ◌>>=◌,
}
use pyscan.Wire.{Bytes, to_bytes, big, pack_u8, pack_u16, pack_u32}
use pyscan.Traffic.Payloads.{
  modbus_read_holding, modbus_read_device_id, modbus_write_register, modbus_write_coil, iec_u_frame,
  iec_i_frame,
}
use pyscan.Traffic.Checksum.{checksum}

abbrev pub hmi : Text
hmi = codes "10.10.30.10"

abbrev pub plc : Text
plc = codes "10.10.30.21"

abbrev pub rtu : Text
rtu = codes "10.10.40.7"

abbrev pub attacker : Text
attacker = codes "10.10.30.142"

pub record Exchange (T : Type 0) : Type 0 where
  pub ts : T
  pub src : Text
  pub dst : Text
  pub sport : ℕ
  pub dport : ℕ
  pub payload : Bytes
  pub flags : Text

-- `_FLAGS.get(flags, 0x18)`
unfoldable pub flag_bits : Text → ℕ
flag_bits flags =
    if text_eq flags (codes "S")
    then 0x02
    else if text_eq flags (codes "SA")
    then 0x12
    else if text_eq flags (codes "A")
    then 0x10
    else if text_eq flags (codes "PA")
    then 0x18
    else if text_eq flags (codes "FA")
    then 0x11
    else 0x18

-- `[int(part) for part in parts]`
unfoldable pub parse_ints : List Text → Result (List ℤ)
unfolding parse_int
parse_ints [] = ok []
parse_ints (part ∷ rest) = do n ← parse_int part; others ← parse_ints rest; ok (n ∷ others)

-- `n & 0xFF`, which for a negative number is the remainder as well.
abbrev low_byte : ℤ → ℕ
low_byte (pos n) = n % 256
low_byte (negsuc n) = 255 - n % 256

-- `bytes(...)` of integers refuses a negative one too.
naturals : List ℤ → Result (List ℕ)
naturals [] = ok []
naturals (pos n ∷ rest) = do others ← naturals rest; ok (n ∷ others)
naturals (negsuc n ∷ rest) = err value_error

unfoldable pub mac : Text → Result Bytes
unfolding parse_ints split_on
mac address = do
  octets ← parse_ints (split_on b'.' address)
  to_bytes (0x02 ∷ 0x00 ∷ take 4 (map low_byte octets))

unfoldable pub address_bytes : Text → Result Bytes
unfolding parse_ints naturals split_on
address_bytes dotted = do
  parts ← parse_ints (split_on b'.' dotted)
  octets ← naturals parts
  to_bytes octets

unfoldable pub pseudo_header : Text → Text → ℕ → Result Bytes
unfolding address_bytes
pseudo_header src dst size = do
  s ← address_bytes src
  d ← address_bytes dst
  n ← pack_u16 big size
  ok (s ++ (d ++ (0 ∷ 6 ∷ n)))

-- `struct.pack("4s", ...)` cuts to four bytes, or fills up with zeros.
unfoldable pub four_bytes : Bytes → Bytes
four_bytes b = take 4 (b ++ replicate 4 0)

-- `struct.pack(">BBHHHBBH4s4s", ...)` with the checksum field at 0.
unfoldable pub ipv4_header : Text → Text → ℕ → Result Bytes
unfolding address_bytes four_bytes
ipv4_header src dst size = do
  total ← pack_u16 big size
  s ← address_bytes src
  d ← address_bytes dst
  ok (
      (0x45 ∷ 0 ∷ [])
      ++ (total ++ ((0 ∷ 0 ∷ 0x40 ∷ 0x00 ∷ 64 ∷ 6 ∷ 0 ∷ 0 ∷ []) ++ (four_bytes s ++ four_bytes d))))

unfoldable pub ipv4 : Text → Text → Bytes → Result Bytes
unfolding ipv4_header
ipv4 src dst payload = do
  header ← ipv4_header src dst (20 + length payload)
  sum ← checksum header
  filled ← pack_u16 big sum
  ok (take 10 header ++ (filled ++ drop 12 header))

-- `struct.pack(">HHIIBBHHH", ...)` with the checksum field at 0.
unfoldable pub tcp_header : ℕ → ℕ → ℕ → Result Bytes
tcp_header sport dport flags = do
  s ← pack_u16 big sport
  d ← pack_u16 big dport
  sequence ← pack_u32 big 1000
  ack ← pack_u32 big 2000
  f ← pack_u8 flags
  window ← pack_u16 big 8192
  ok (s ++ (d ++ (sequence ++ (ack ++ ((0x50 ∷ []) ++ (f ++ (window ++ (0 ∷ 0 ∷ 0 ∷ 0 ∷ []))))))))

module _ {T : Type 0} where
  unfoldable pub tcp : Exchange T → Result Bytes
  unfolding tcp_header pseudo_header
  tcp x = do
    header ← tcp_header x.sport x.dport (flag_bits x.flags)
    let segment = header ++ x.payload
    pseudo ← pseudo_header x.src x.dst (length segment)
    sum ← checksum (pseudo ++ segment)
    filled ← pack_u16 big sum
    ok (take 16 segment ++ (filled ++ drop 18 segment))

  -- Ethernet, IPv4, TCP and the payload.
  unfoldable pub encode_frame : Exchange T → Result Bytes
  unfolding tcp ipv4 mac
  encode_frame x = do
    segment ← tcp x
    ip ← ipv4 x.src x.dst segment
    to ← mac x.dst
    from ← mac x.src
    ok (to ++ (from ++ ((0x08 ∷ 0x00 ∷ []) ++ (ip ++ segment))))

  module _ (tick : T → ℕ → T) where
    -- An exchange `tenths` after `now`, with the payload that `build` returns.
    at_tick : T → ℕ → Text → Text → ℕ → ℕ → Result Bytes → Text → Result (Exchange T)
    at_tick now tenths src dst sport dport build flags = do
      payload ← build
      ok (record {
        ts = tick now tenths;
        src = src;
        dst = dst;
        sport = sport;
        dport = dport;
        payload = payload;
        flags = flags;
      })

    -- Act 1: the HMI polls, the controller answers; `i` counts up, `rounds` counts down.
    poll : ℕ → ℕ → T → Result (T × List (Exchange T))
    unfolding at_tick
    poll zero i now = ok (now, [])
    poll (suc rounds) i now = do
      let port = 50100 + i
      ask ← at_tick now 9 hmi plc port 502 (modbus_read_holding (i * 10) 125 1) (codes "PA")
      answer ← at_tick ask.ts 2 plc hmi 502 port (modbus_read_holding (i * 10) 125 1) (codes "PA")
      rest ← poll rounds (i + 1) answer.ts
      ok (rest.0, ask ∷ answer ∷ rest.1)

    unfoldable pub build_scenario : T → Result (List (Exchange T))
    unfolding poll at_tick
    build_scenario start = do
      polled ← poll 6 0 start
      -- Act 2: a new talker enumerates the device.
      syn ← at_tick polled.0 3 attacker plc 50412 502 (ok []) (codes "S")
      ident ← at_tick syn.ts 9 attacker plc 50412 502 (modbus_read_device_id 1) (codes "PA")
      low ← at_tick ident.ts 9 attacker plc 50412 502 (modbus_read_holding 0 125 1) (codes "PA")
      high ← at_tick low.ts 9 attacker plc 50412 502 (modbus_read_holding 125 125 1) (codes "PA")
      -- Act 3: a setpoint is moved, then a feeder is opened.
      setpoint ←
          at_tick high.ts 9 attacker plc 50412 502 (modbus_write_register 9 250 1) (codes "PA")
      coil ← at_tick setpoint.ts 9 attacker plc 50412 502 (modbus_write_coil 0 false 1) (codes "PA")
      echo ← at_tick coil.ts 2 plc attacker 502 50412 (modbus_write_coil 0 false 1) (codes "PA")
      -- Act 4: the substation is interrogated, commanded and silenced.
      ask ←
          at_tick echo.ts 9 attacker rtu 51020 2404 (iec_i_frame 100 6 1 0 (0x14 ∷ [])) (codes "PA")
      command ←
          at_tick ask.ts 9 attacker rtu 51020 2404 (iec_i_frame 45 6 1 1 (0x01 ∷ [])) (codes "PA")
      silence ← at_tick command.ts 9 attacker rtu 51020 2404 (iec_u_frame 0x13) (codes "PA")
      ok (
          polled.1
          ++ (syn ∷ ident ∷ low ∷ high ∷ setpoint ∷ coil ∷ echo ∷ ask ∷ command ∷ silence ∷ []))

    encode_all : List (Exchange T) → Result (List (T × Bytes))
    encode_all [] = ok []
    encode_all (x ∷ rest) = do
      frame ← encode_frame x
      frames ← encode_all rest
      ok ((x.ts, frame) ∷ frames)

    unfoldable pub build_frames : T → Result (List (T × Bytes))
    unfolding build_scenario encode_all
    build_frames start = do scenario ← build_scenario start; encode_all scenario
