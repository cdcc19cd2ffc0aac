-- ===== src/Scan/Strategies/Connect.antt =====
-- pyscan/adapters/strategies/tcp_connect.py and syn.py, as functions of what the network did.
pub mod Banner
use pyscan.Wire.{Bytes}
use pyscan.Scan.Models.{filtered, classify, PortResult, is_open}
use pyscan.Prelude.{
  ℕ, Bool, true, false, not, ◌&&◌, Option, none, some, List, [], ◌∷◌, map, Text, codes, is_space,
  is_printable, take, if◌then◌else◌, os_error, Result, ok, err, ◌>>=◌, join, onto_first,
  runtime_error,
}
use pyscan.Scan.Strategies.{probed, scan_tcp, Reading, Connection, Writing}

-- The pieces between characters that are white space, which may be empty.
unfoldable pub pieces : Text → List Text
unfolding is_space
pieces [] = [] ∷ []
pieces (c ∷ t) = let rest = pieces t in if is_space c then [] ∷ rest else onto_first c rest

unfoldable pub non_empty_texts : List Text → List Text
non_empty_texts [] = []
non_empty_texts ([] ∷ rest) = non_empty_texts rest
non_empty_texts ((c ∷ t) ∷ rest) = (c ∷ t) ∷ non_empty_texts rest

-- `text.split()`
unfoldable pub words : Text → List Text
unfolding pieces non_empty_texts
words t = non_empty_texts (pieces t)

-- `ch if ch.isprintable() else " "`
unfoldable pub printable_or_space : ℕ → ℕ
unfolding is_printable
printable_or_space c = if is_printable c then c else b' '

-- `text or None`
unfoldable pub text_or_none : Text → Option Text
text_or_none [] = none
text_or_none (c ∷ t) = some (c ∷ t)

-- A byte is the code point of its latin-1 character.
unfoldable pub clean : Bytes → Option Text
unfolding printable_or_space words join text_or_none
clean [] = none
clean (c ∷ rest) =
    let text = map printable_or_space (c ∷ rest) in
    text_or_none (take 200 (join (codes " ") (words text)))

-- `_read`
unfoldable pub read_banner : Reading → Result (Option Text)
unfolding clean
read_banner (ok answer) = ok (clean answer)
read_banner (err os_error) = ok none
read_banner (err e) = err e

-- `_nudge`: what sending the request raises, then the answer to it.
unfoldable pub nudge : Writing → Reading → Result (Option Text)
unfolding read_banner
nudge (ok _) reading = read_banner reading
nudge (err os_error) reading = ok none
nudge (err e) reading = err e

pub record ConnectOptions : Type 0 where
  pub grab_banner : Bool
  pub http_probe : Bool

-- `not banner`
unfoldable pub is_blank : Option Text → Bool
is_blank none = true
is_blank (some []) = true
is_blank (some (c ∷ t)) = false

-- The banner of an open connection: what is volunteered, and else what a HEAD request brings.
unfoldable pub grab : ConnectOptions → Reading → Writing → Reading → Result (Option Text)
unfolding read_banner nudge is_blank
grab options volunteered sent coaxed = if not options.grab_banner then ok none else do
  banner ← read_banner volunteered
  if options.http_probe && is_blank banner then nudge sent coaxed else ok banner

unfoldable pub scan_connect :
    {T : Type 0}
    → ConnectOptions
    → Connection T
    → Reading
    → Writing
    → Reading
    → ℕ
    → Result (PortResult T)
unfolding scan_tcp grab
scan_connect options connection volunteered sent coaxed port =
    scan_tcp connection port (grab options volunteered sent coaxed)

-- How `sr1` of a SYN ends: PermissionError, OSError, nothing, or a reply by its layer.
pub data SynReply (T : Type 0) : Type 0 where
  no_privilege no_socket no_reply : SynReply T
  from_tcp : (latency : T) (tcp_flags : ℕ) → SynReply T
  from_unreachable from_other : (latency : T) → SynReply T

-- `_probe`: the result, and whether a RST is sent to tear the half-open connection down.
unfoldable pub scan_syn : {T : Type 0} → SynReply T → ℕ → Result (PortResult T × Bool)
unfolding probed classify is_open
scan_syn no_privilege port = err runtime_error
scan_syn no_socket port = ok (probed port filtered none none, false)
scan_syn no_reply port = ok (probed port filtered none none, false)
scan_syn (from_tcp latency flags) port =
    let state = classify (some flags) false in
    ok (probed port state (some latency) none, is_open state)
scan_syn (from_unreachable latency) port =
    ok (probed port (classify none true) (some latency) none, false)
scan_syn (from_other latency) port = ok (probed port filtered (some latency) none, false)
