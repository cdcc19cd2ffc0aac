-- ===== src/Scan/Strategies/Handshake/Errors.antt =====
-- What the S7 handshake raises.
use Prim.Native.Nat.{bit_or}
use pyscan.Scan.Strategies.Total.{scan_tcp-IsReport, Reports}
use pyscan.Wire.Laws.{byte_at-Returns}
use mathlib.Core.Path.{subst}
use pyscan.Wire.{Bytes, byte_at, to_bytes, u16_bytes, pack_u16}
use pyscan.S7comm
use pyscan.Prelude.{
  ℕ, ◌+◌, ◌*◌, ◌<◌, ◌≡◌, refl, sym, ap, ◌⊎◌, inl, inr, true, not, Option, none, some, ◌∷◌, arith,
  Text, length, ltb, leb, shr, low_bits, Bool-cases, index_error, struct_error, value_error,
  os_error, Result, ok, err, ◌>>=◌, Returns, Returns-bind, runtime_error, key_error,
}
use pyscan.Scan.Strategies.Handshake.{
  read_tpkt, read_body, read_exactly, handshake, or_none, s7_name, s7_banner, scan_s7comm,
  Connection, identify_s7,
}
use pyscan.S7comm.{S7Info}
use pyscan.Scan.Strategies.{
  Connection, connected, scan_tcp, refused, timed_out, unreachable, unencodable,
}
use pyscan.S7comm.Total.{parse_szl-Returns, is_s7_response-Returns}
use pyscan.Scan.Strategies.Total.{is_connected}
use pyscan.Scan.Strategies.Handshake.Read.{
  Raises, has_header, HasShortHeader, Read, Raises-bind, cut, Raises-Returns, Raises-append,
  refuses, read_tpkt-Read, fails,
}

low_bits_fit : (x : ℕ) → ltb (low_bits x 8) 256 ≡ true
low_bits_fit x = ground arith

build_connection_request-Returns :
    (rack slot : ℕ) → Returns (S7comm.build_connection_request rack slot 0x01)
unfolding S7comm.build_connection_request S7comm.tpkt to_bytes pack_u16
build_connection_request-Returns rack slot =
    let dst_tsap = bit_or (0x01 * 256) (rack * 0x20 + slot) in
    rw (low_bits_fit (shr dst_tsap 8)) (rw (low_bits_fit dst_tsap) (_, refl))

build_setup_communication-Returns : Returns S7comm.build_setup_communication
unfolding S7comm.build_setup_communication S7comm.tpkt pack_u16 to_bytes
build_setup_communication-Returns = (_, refl)

build_read_szl-Returns : Returns (S7comm.build_read_szl 0x0011 0x0000)
unfolding S7comm.build_read_szl S7comm.tpkt pack_u16 u16_bytes
build_read_szl-Returns = (_, refl)

is_connection_confirm-Returns : (answer : Bytes) → Returns (S7comm.is_connection_confirm answer)
unfolding S7comm.is_connection_confirm
is_connection_confirm-Returns answer = elim (Bool-cases (leb 6 (length answer))) [
  | inl h ↦ rw h (
      Returns-bind _ _ (byte_at-Returns answer 0 (ground arith))
        λ version. Returns-bind _ _ (byte_at-Returns answer 5 (ground arith)) λ kind. (_, refl))
  | inr h ↦ rw h (_, refl)
]

-- A message of the stream, then a part that raises nothing but for the rest of the stream.
read_tpkt-Raises :
    {B : Type 0} (stream : Bytes) (f : Bytes × Bytes → Result B)
    → ((message rest : Bytes) → Raises rest (f (message, rest)))
    → Raises stream (read_tpkt stream >>= f)
read_tpkt-Raises stream f h = after (read_tpkt-Read stream)
  where
    after : {r : Result (Bytes × Bytes)} → Read stream r → Raises stream (r >>= f)
    after (cut message rest e) =
        subst (λ s. Raises s (f (message, rest))) (sym e)
          (Raises-append message rest _ (h message rest))
    after fails = tt
    after (refuses h) = h

handshake-Raises : (rack slot : ℕ) (stream : Bytes) → Raises stream (handshake rack slot stream)
unfolding handshake
handshake-Raises rack slot stream =
    Raises-bind stream _ _ (Raises-Returns stream _ (build_connection_request-Returns rack slot))
      λ request h. read_tpkt-Raises stream _ λ answer rest.
        Raises-bind rest _ _ (Raises-Returns rest _ (is_connection_confirm-Returns answer))
          λ confirmed k. elim (Bool-cases (not confirmed)) [
            | inl early ↦ rw early tt
            | inr on ↦ rw on (
                Raises-bind rest _ _ (Raises-Returns rest _ build_setup_communication-Returns)
                  λ setup _. read_tpkt-Raises rest _ λ accepted rest'.
                    Raises-bind rest' _ _ (Raises-Returns rest' _ build_read_szl-Returns)
                      λ szl _. read_tpkt-Raises rest' _ λ response rest''. tt)
          ]

or_none-Raises :
    {A : Type 0} (stream : Bytes) (m : Result (Option A))
    → Raises stream m
    → Returns (or_none m) ⊎ ((or_none m ≡ err value_error) × HasShortHeader stream)
unfolding or_none
or_none-Raises stream (ok a) h = inl (a, refl)
or_none-Raises stream (err os_error) h = inl (none, refl)
or_none-Raises stream (err value_error) h = inr (refl, h)
or_none-Raises stream (err index_error) h = absurd h
or_none-Raises stream (err struct_error) h = absurd h
or_none-Raises stream (err runtime_error) h = absurd h
or_none-Raises stream (err key_error) h = absurd h

s7_name-Returns : (info : Option S7Info) (response : Bytes) → Returns (s7_name info response)
unfolding s7_name
s7_name-Returns none response =
    Returns-bind _ _ (is_s7_response-Returns response) λ framed. (_, refl)
s7_name-Returns (some info) response = (_, refl)

s7_banner-Returns : (response : Option Bytes) → Returns (s7_banner response)
unfolding s7_banner
s7_banner-Returns none = (none, refl)
s7_banner-Returns (some response) =
    Returns-bind _ _ (parse_szl-Returns response) λ info. s7_name-Returns info response

-- The banner returns, or a short header is met.
abbrev MayRefuse : {A : Type 0} → Bytes → Result A → Type 0
MayRefuse stream m = Returns m ⊎ ((m ≡ err value_error) × HasShortHeader stream)

identify_s7-Returns :
    (rack slot : ℕ) (stream : Bytes) → MayRefuse stream (identify_s7 rack slot stream)
unfolding identify_s7
identify_s7-Returns rack slot stream =
    elim (or_none-Raises stream (handshake rack slot stream) (handshake-Raises rack slot stream)) [
      | inl answered ↦ inl (Returns-bind _ _ answered s7_banner-Returns)
      | inr (e, short) ↦ inr (ap (λ m. m >>= s7_banner) e, short)
    ]

scan_tcp-IsReport_or :
    {T : Type 0} (connection : Connection T) (stream : Bytes) (port : ℕ)
    (banner : Result (Option Text))
    → MayRefuse stream banner
    → Reports connection port (scan_tcp connection port banner)
      ⊎ ((scan_tcp connection port banner ≡ err value_error)
          × (is_connected connection ≡ true)
          × HasShortHeader stream)
unfolding scan_tcp
scan_tcp-IsReport_or connection stream port banner (inl returns) =
    inl (scan_tcp-IsReport connection port banner returns)
scan_tcp-IsReport_or (connected latency) stream port banner (inr (e, short)) =
    inr (rw e refl, refl, short)
scan_tcp-IsReport_or (refused latency) stream port banner (inr _) =
    inl (scan_tcp-IsReport (refused latency) port (ok none) (_, refl))
scan_tcp-IsReport_or timed_out stream port banner (inr _) =
    inl (scan_tcp-IsReport timed_out port (ok none) (_, refl))
scan_tcp-IsReport_or unreachable stream port banner (inr _) =
    inl (scan_tcp-IsReport unreachable port (ok none) (_, refl))
scan_tcp-IsReport_or unencodable stream port banner (inr _) = inl (inl (refl, refl))

read_tpkt_short :
    (reserved claimed : ℕ) (after : Bytes)
    → claimed < 4
    → read_tpkt (0x03 ∷ reserved ∷ 0 ∷ claimed ∷ after) ≡ err value_error
unfolding read_tpkt read_exactly read_body byte_at
read_tpkt_short reserved claimed after h =
    let short : ltb (0 * 256 + claimed) 4 ≡ true = ground arith in
    rw (has_header (length after), read_exactly) (rw short refl)

handshake_short :
    (rack slot reserved claimed : ℕ) (after : Bytes)
    → claimed < 4
    → handshake rack slot (0x03 ∷ reserved ∷ 0 ∷ claimed ∷ after) ≡ err value_error
unfolding handshake
handshake_short rack slot reserved claimed after h =
    let (request, e) = build_connection_request-Returns rack slot in
    rw e (rw (read_tpkt_short reserved claimed after h) refl)

-- An S7 probe returns a report, whatever the connection does and whatever bytes answer, in one
-- piece or cut off at any place; or it raises ValueError, and this only if the host name cannot be
-- encoded, or a connection was made and some TPKT header that the device sent claims a length below
-- four.
pub scan_s7comm-IsReport :
    {T : Type 0} (rack slot : ℕ) (connection : Connection T) (stream : Bytes) (port : ℕ)
    → Reports connection port (scan_s7comm rack slot connection stream port)
      ⊎ ((scan_s7comm rack slot connection stream port ≡ err value_error)
          × (is_connected connection ≡ true)
          × HasShortHeader stream)
unfolding scan_s7comm scan_tcp
scan_s7comm-IsReport rack slot connection stream port =
    scan_tcp-IsReport_or connection stream port (identify_s7 rack slot stream)
      (identify_s7-Returns rack slot stream)

-- A device whose first answer has a TPKT header with a length below four, whatever follows, makes
-- the probe of an open port raise ValueError, which no `except` clause of the scan catches.
pub scan_s7comm_short :
    {T : Type 0} (rack slot : ℕ) (latency : T) (reserved claimed : ℕ) (after : Bytes) (port : ℕ)
    → claimed < 4
    → scan_s7comm rack slot (connected latency) (0x03 ∷ reserved ∷ 0 ∷ claimed ∷ after) port
      ≡ err value_error
unfolding scan_s7comm identify_s7
scan_s7comm_short rack slot latency reserved claimed after port h =
    rw (handshake_short rack slot reserved claimed after h) refl
