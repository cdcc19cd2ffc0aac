-- ===== src/Command/Sniff.antt =====
-- Packets on the screen: the command `sniff` of pyscan/cli/main.py, the table of
-- pyscan/adapters/output/packet_table.py, and the state of pyscan/adapters/output/sniff_tui.py.
-- A difference of two times is a parameter; the widgets are the rows that they are given.
pub mod Filtered
pub mod Screen
use pyscan.Wire.{Bytes}
use pyscan.Capture.{Frame}
use pyscan.Prelude.{
  ℕ, suc, zero, ◌+◌, ◌-◌, Bool, true, false, not, Option, none, some, List, [], ◌∷◌, ◌++◌, Text,
  codes, text_eq, decimal, length, leb, if◌then◌else◌, ℤ, pos, negsuc, Exception,
}
use pyscan.Command.{file_is_usage, Body, goes, ends}
use pyscan.Packet.Transport.{Packet}
use pyscan.Packet.{decode}

-- What a generator of frames does: it yields these, and returns or raises.
pub record Source (T : Type 0) : Type 0 where
  pub frames : List (Frame T)
  pub raised : Option Exception

-- `want and pkt.protocol != want`: no filter for an empty text.
unfoldable pub is_filtered : Option Text → Text → Bool
unfolding text_eq
is_filtered none protocol = false
is_filtered (some []) protocol = false
is_filtered (some (c ∷ t)) protocol = not (text_eq protocol (c ∷ t))

-- `count and len(packets) >= count`
unfoldable pub is_enough : Option ℤ → ℕ → Bool
is_enough none size = false
is_enough (some (pos zero)) size = false
is_enough (some (pos (suc n))) size = leb (suc n) size
is_enough (some (negsuc n)) size = true

-- The end of `_read_capture`.
unfoldable pub source_end : {A : Type 0} → Option Exception → A → Body A
unfolding file_is_usage
source_end none shown = goes shown
source_end (some e) shown = ends (file_is_usage e)

module _ {T : Type 0} (ntop : Bytes → Text) where
  unfoldable pub sniff_loop :
      Option Text
      → Option ℤ
      → List (Packet T)
      → List (Frame T)
      → Option Exception
      → Body (List (Packet T))
  unfolding is_filtered is_enough source_end
  sniff_loop want count shown [] raised = source_end raised shown
  sniff_loop want count shown ((ts, linktype, frame) ∷ rest) raised =
      let pkt = decode ntop frame linktype ts in
      let skipped = sniff_loop want count shown rest raised in
      let kept = sniff_loop want count (shown ++ (pkt ∷ [])) rest raised in
      if is_filtered want pkt.protocol
      then skipped
      else if is_enough count (length (shown ++ (pkt ∷ [])))
      then goes (shown ++ (pkt ∷ []))
      else kept

  -- `sniff` without --live and --tui: the packets that the table is given. `upper` is `str.upper`.
  unfoldable pub sniff : (Text → Text) → Option Text → Option ℤ → Source T → Body (List (Packet T))
  unfolding sniff_loop
  sniff upper none count source = sniff_loop none count [] source.frames source.raised
  sniff upper (some []) count source = sniff_loop none count [] source.frames source.raised
  sniff upper (some (c ∷ proto)) count source =
      sniff_loop (some (upper (c ∷ proto))) count [] source.frames source.raised

  -- The worker `capture` of the screen: what it posts before the source ends; none is a heartbeat.
  unfoldable pub posted : List (Option (Frame T)) → List (Packet T)
  posted [] = []
  posted (none ∷ rest) = posted rest
  posted (some (ts, linktype, frame) ∷ rest) = decode ntop frame linktype ts ∷ posted rest

-- `_PROTO_STYLE.get(protocol, "white")`
unfoldable pub style_of : Text → Text
unfolding text_eq
style_of protocol =
    if text_eq protocol (codes "TCP")
    then codes "green"
    else if text_eq protocol (codes "UDP")
    then codes "cyan"
    else if text_eq protocol (codes "ICMP")
    then codes "yellow"
    else if text_eq protocol (codes "ARP")
    then codes "magenta"
    else if text_eq protocol (codes "IPv6")
    then codes "blue"
    else codes "white"

-- `_addr`
unfoldable pub address_text : Option Text → Option ℕ → Text
unfolding decimal
address_text none port = codes "-"
address_text (some ip) none = ip
address_text (some ip) (some port) = ip ++ (b':' ∷ decimal port)

-- The cells of a row; the offset is printed with three decimals.
pub record Row (O : Type 0) : Type 0 where
  pub number : Text
  pub offset : O
  pub source : Text
  pub destination : Text
  pub protocol : Text
  pub style : Text
  pub size : Text
  pub info : Text

module _ {T O : Type 0} (minus : T → T → O) where
  unfoldable pub row_of : ℕ → T → Packet T → Row O
  unfolding address_text style_of
  row_of i t0 p = record {
    number = decimal i;
    offset = minus p.ts t0;
    source = address_text p.src p.sport;
    destination = address_text p.dst p.dport;
    protocol = p.protocol;
    style = style_of p.protocol;
    size = decimal p.length;
    info = p.info;
  }

  -- `for i, p in enumerate(packets, i)`
  unfoldable pub rows_from : ℕ → T → List (Packet T) → List (Row O)
  unfolding row_of
  rows_from i t0 [] = []
  rows_from i t0 (p ∷ rest) = row_of i t0 p ∷ rows_from (i + 1) t0 rest

  -- `PacketTableSink.emit`: no table where no packet matched.
  unfoldable pub table_rows : List (Packet T) → List (Row O)
  unfolding rows_from
  table_rows [] = []
  table_rows (p ∷ rest) = rows_from 1 p.ts (p ∷ rest)

-- `self._counts[p] = self._counts.get(p, 0) + 1`
unfoldable pub bump : Text → List (Text × ℕ) → List (Text × ℕ)
unfolding text_eq
bump protocol [] = (protocol, 1) ∷ []
bump protocol ((other, n) ∷ rest) =
    let later = bump protocol rest in
    if text_eq other protocol then (other, n + 1) ∷ rest else (other, n) ∷ later

pub record SniffApp (T O : Type 0) : Type 0 where
  pub paused : Bool
  pub counts : List (Text × ℕ)
  pub n : ℕ
  pub t0 : Option T
  pub rows : List (Row O)

pub data SniffEvent (T : Type 0) : Type 0 where
  packet_arrived : (packet : Packet T) → SniffEvent T
  toggle_pause clear : SniffEvent T

module _ {T O : Type 0} (minus : T → T → O) where
  unfoldable pub new_app : SniffApp T O
  new_app = record { paused = false; counts = []; n = 0; t0 = none; rows = [] }

  unfoldable pub on_packet_arrived : SniffApp T O → Packet T → SniffApp T O
  unfolding row_of bump
  on_packet_arrived app pkt =
      if app.paused
      then app
      else (let t0 : T = elim app.t0 [ none ↦ pkt.ts | some t ↦ t ] in
          record app {
            n = app.n + 1;
            t0 = some t0;
            counts = bump pkt.protocol app.counts;
            rows = app.rows ++ (row_of minus (app.n + 1) t0 pkt ∷ []);
          })

  unfoldable pub action_toggle_pause : SniffApp T O → SniffApp T O
  action_toggle_pause app = record app { paused = not app.paused }

  unfoldable pub action_clear : SniffApp T O → SniffApp T O
  action_clear app = record app { rows = []; n = 0; counts = []; t0 = none }

  unfoldable pub handle_event : SniffApp T O → SniffEvent T → SniffApp T O
  unfolding on_packet_arrived action_toggle_pause action_clear
  handle_event app (packet_arrived pkt) = on_packet_arrived app pkt
  handle_event app toggle_pause = action_toggle_pause app
  handle_event app clear = action_clear app

  unfoldable pub handle_events : SniffApp T O → List (SniffEvent T) → SniffApp T O
  unfolding handle_event
  handle_events app [] = app
  handle_events app (event ∷ events) = handle_events (handle_event app event) events
