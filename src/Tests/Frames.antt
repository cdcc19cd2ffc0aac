-- ===== src/Tests/Frames.antt =====
-- The theorems on the codecs of frames at concrete bytes.
use pyscan.Traffic.{hmi, plc, flag_bits}
use pyscan.Wire.{Bytes}
use pyscan.Prelude.{ℕ, ◌≡◌, refl, [], ◌∷◌, ◌++◌, arith, codes, decimal, length, ok, Returns}
use pyscan.Packet.{decode_link, decode}
use pyscan.Traffic.Address.{Address}
use pyscan.Traffic.{Exchange, encode_frame}
use pyscan.Traffic.Layout.{IsSendable}
use pyscan.Packet.Total.{decode_link-Returns}
use pyscan.Traffic.RoundTrip.{tcp_packet, decode-encode_frame}

abbrev hmi_address : Address
hmi_address = record {
  a = 10;
  b = 10;
  c = 30;
  d = 10;
  a_byte = omega arith;
  b_byte = omega arith;
  c_byte = omega arith;
  d_byte = omega arith;
}

abbrev plc_address : Address
plc_address = record {
  a = 10;
  b = 10;
  c = 30;
  d = 21;
  a_byte = omega arith;
  b_byte = omega arith;
  c_byte = omega arith;
  d_byte = omega arith;
}

abbrev exchange : Exchange ℕ
exchange = record {
  ts = 5;
  src = hmi;
  dst = plc;
  sport = 40000;
  dport = 502;
  payload = 1 ∷ 2 ∷ 3 ∷ [];
  flags = codes "PA";
}

exchange-IsSendable : IsSendable exchange
unfolding decimal
exchange-IsSendable = record {
  from = hmi_address;
  to = plc_address;
  src = refl;
  dst = refl;
  sport = omega arith;
  dport = omega arith;
  fits = omega arith;
}

decode-encode_frame_example :
    (frame : Bytes) × (encode_frame exchange ≡ ok frame)
    × (decode {T = ℕ} (λ _. []) (frame ++ (0 ∷ 0 ∷ [])) 1 5
        ≡ tcp_packet {T = ℕ} 5
            (length (frame ++ (0 ∷ 0 ∷ [])))
            hmi
            plc
            40000
            502
            (flag_bits (codes "PA"))
            (1 ∷ 2 ∷ 3 ∷ []))
decode-encode_frame_example =
    decode-encode_frame (λ _. []) exchange (0 ∷ 0 ∷ []) exchange-IsSendable

decode_link-Returns_example : Returns (decode_link {T = ℕ} (λ _. []) (0x45 ∷ 0 ∷ []) 101 0 2)
decode_link-Returns_example = decode_link-Returns 0 2 (λ _. []) (0x45 ∷ 0 ∷ []) 101
