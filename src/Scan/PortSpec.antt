-- ===== src/Scan/PortSpec.antt =====
-- pyscan/domain/port_spec.py: port lists like "22,80,443" or "1-1024".
-- A Python set of ports is the list of what was added to it; `sorted` of the set is the list in
-- order with each port once.
pub mod Sorted
pub mod Members
use pyscan.Prelude.{
  ℕ, suc, zero, ◌+◌, ◌-◌, ◌&&◌, List, [], ◌∷◌, ◌++◌, Text, contains_char, strip, split_on,
  partition, ltb, leb, ◌==◌, if◌then◌else◌, ℤ, pos, negsuc, parse_int, value_error, Result, ok, err,
  ◌>>=◌,
}

abbrev pub min_port : ℕ
min_port = 1

abbrev pub max_port : ℕ
max_port = 65535

-- `if not (MIN_PORT <= n <= MAX_PORT): raise ValueError`
unfoldable pub checked_port : ℤ → Result ℕ
checked_port (pos n) = if leb min_port n && leb n max_port then ok n else err value_error
checked_port (negsuc n) = err value_error

unfoldable pub to_port : Text → Result ℕ
unfolding checked_port
to_port raw = do n ← parse_int (strip raw); checked_port n

-- `range(lo, lo + count)`
unfoldable pub ports_from : ℕ → ℕ → List ℕ
ports_from lo zero = []
ports_from lo (suc count) = lo ∷ ports_from (lo + 1) count

-- `range(lo, hi + 1)` behind the swap of bounds in the wrong order
unfoldable pub ports_between : ℕ → ℕ → List ℕ
unfolding ports_from
ports_between lo hi = if ltb hi lo then ports_from hi (lo + 1 - hi) else ports_from lo (hi + 1 - lo)

-- The ports that one chunk adds, behind `strip`.
unfoldable pub chunk_ports : Text → Result (List ℕ)
unfolding to_port ports_between
chunk_ports [] = ok []
chunk_ports (c ∷ chunk) =
    if contains_char b'-' (c ∷ chunk)
    then (do
      let (lo_s, hi_s) = partition b'-' (c ∷ chunk)
      lo ← to_port lo_s
      hi ← to_port hi_s
      ok (ports_between lo hi))
    else do port ← to_port (c ∷ chunk); ok (port ∷ [])

unfoldable pub all_ports : List Text → Result (List ℕ)
unfolding chunk_ports
all_ports [] = ok []
all_ports (chunk ∷ rest) = do
  ports ← chunk_ports (strip chunk)
  others ← all_ports rest
  ok (ports ++ others)

-- Puts a port at its place in a sorted list, unless it is there.
unfoldable pub insert_port : ℕ → List ℕ → List ℕ
insert_port port [] = port ∷ []
insert_port port (q ∷ rest) =
    let later = insert_port port rest in
    if ltb port q then port ∷ (q ∷ rest) else if port == q then q ∷ rest else q ∷ later

-- `sorted(set(ports))`
unfoldable pub sorted_set : List ℕ → List ℕ
unfolding insert_port
sorted_set [] = []
sorted_set (port ∷ rest) = insert_port port (sorted_set rest)

-- `if not ports: raise ValueError`
unfoldable pub some_ports : List ℕ → Result (List ℕ)
some_ports [] = err value_error
some_ports (port ∷ rest) = ok (port ∷ rest)

unfoldable pub parse_port_spec : Text → Result (List ℕ)
unfolding all_ports sorted_set some_ports
parse_port_spec spec = do ports ← all_ports (split_on b',' spec); some_ports (sorted_set ports)
