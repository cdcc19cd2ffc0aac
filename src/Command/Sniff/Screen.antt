-- ===== src/Command/Sniff/Screen.antt =====
-- What the packet screen shows.
use mathlib.Core.Path.{subst}
use pyscan.Prelude.{
  ℕ, suc, ◌+◌, ◌≡◌, refl, sym, ap, ◌∙◌, inl, inr, Bool, true, false, not, Option, none, some, List,
  [], ◌∷◌, ◌++◌, arith, Text, text_eq_iff, text_eq, length, length-append, if◌then◌else◌,
  Bool-cases,
}
use pyscan.Command.Sniff.{
  bump, SniffApp, rows_from, SniffEvent, packet_arrived, table_rows, row_of, toggle_pause, clear,
  on_packet_arrived, handle_events, new_app, handle_event, action_toggle_pause, action_clear,
}
use pyscan.Packet.Transport.{Packet}

-- The screen without its widgets: whether it is paused, and the packets that it took since it was
-- cleared.
abbrev pub Taken : Type 0 → Type 0
Taken T = Bool × List (Packet T)

abbrev pub takes : {T : Type 0} → Taken T → SniffEvent T → Taken T
takes (paused, packets) (packet_arrived pkt) =
    (paused, if paused then packets else packets ++ (pkt ∷ []))
takes (paused, packets) toggle_pause = (not paused, packets)
takes (paused, packets) clear = (paused, [])

abbrev pub takes_all : {T : Type 0} → Taken T → List (SniffEvent T) → Taken T
takes_all taken [] = taken
takes_all taken (event ∷ events) = takes_all (takes taken event) events

abbrev pub first_ts : {T : Type 0} → List (Packet T) → Option T
first_ts [] = none
first_ts (p ∷ rest) = some p.ts

-- `counts.get(protocol, 0)`
abbrev pub count_of : Text → List (Text × ℕ) → ℕ
count_of protocol [] = 0
count_of protocol ((other, n) ∷ rest) = if text_eq other protocol then n else count_of protocol rest

abbrev pub occurrences : {T : Type 0} → Text → List (Packet T) → ℕ
occurrences protocol [] = 0
occurrences protocol (p ∷ rest) =
    (if text_eq p.protocol protocol then 1 else 0) + occurrences protocol rest

-- The screen shows these packets as the table of a file would: with the same rows, and with the
-- numbers of packets in all and of each protocol.
pub record Shows {T O : Type 0} (minus : T → T → O) (app : SniffApp T O) (taken : Taken T)
    : Type 0 where
  pub paused : app.paused ≡ taken.0
  pub number : app.n ≡ length taken.1
  pub start : app.t0 ≡ first_ts taken.1
  pub table : app.rows ≡ table_rows minus taken.1
  pub counts : (protocol : Text) → count_of protocol app.counts ≡ occurrences protocol taken.1

if_true : {A : Type 0} (t : Bool) (a b : A) → t ≡ true → (if t then a else b) ≡ a
if_true true a b h = refl
if_true false a b h = cc

right_zero : (i : ℕ) → i ≡ i + 0
right_zero i = omega arith

swapped : (n : ℕ) → 1 + n ≡ n + 1
swapped n = omega arith

next_number : (i n : ℕ) → i + 1 + n ≡ i + suc n
next_number i n = omega arith

module _ {T O : Type 0} (minus : T → T → O) where
  rows_from-append :
      (i : ℕ) (t0 : T) (ps : List (Packet T)) (pkt : Packet T)
      → rows_from minus i t0 (ps ++ (pkt ∷ []))
        ≡ rows_from minus i t0 ps ++ (row_of minus (i + length ps) t0 pkt ∷ [])
  unfolding rows_from
  rows_from-append i t0 [] pkt = ap (λ k. row_of minus k t0 pkt ∷ []) (right_zero i)
  rows_from-append i t0 (p ∷ ps) pkt = ap (◌∷◌ (row_of minus i t0 p)) (
      rows_from-append (i + 1) t0 ps pkt
      ∙ ap (λ k. rows_from minus (i + 1) t0 ps ++ (row_of minus k t0 pkt ∷ []))
          (next_number i (length ps)))

  occurrences-append :
      (protocol : Text) (ps : List (Packet T)) (pkt : Packet T)
      → occurrences protocol (ps ++ (pkt ∷ []))
        ≡ occurrences protocol ps + (if text_eq pkt.protocol protocol then 1 else 0)
  occurrences-append protocol [] pkt = omega arith
  occurrences-append protocol (p ∷ ps) pkt = omega (arith, occurrences-append protocol ps pkt)

count_here :
    (t : Bool) (n m : ℕ) → (if t then n + 1 else m) ≡ (if t then n else m) + (if t then 1 else 0)
count_here true n m = refl
count_here false n m = right_zero m

text_eq_other :
    (other added protocol : Text)
    → text_eq other added ≡ false
    → text_eq other protocol ≡ true
    → text_eq added protocol ≡ false
text_eq_other other added protocol h k = elim (Bool-cases (text_eq added protocol)) [
  | inr e ↦ e
  | inl e ↦ absurd (
      let same : other ≡ added =
        (text_eq_iff other protocol).0 k ∙ sym ((text_eq_iff added protocol).0 e) in
      let again = (text_eq_iff other added).1 same in cc)
]

count_of-bump :
    (protocol added : Text) (counts : List (Text × ℕ))
    → count_of protocol (bump added counts)
      ≡ count_of protocol counts + (if text_eq added protocol then 1 else 0)
unfolding bump
count_of-bump protocol added [] = elim (Bool-cases (text_eq added protocol)) [
  | inl h ↦ rw h refl
  | inr h ↦ rw h refl
]
count_of-bump protocol added ((other, n) ∷ rest) = elim (Bool-cases (text_eq other added)) [
  | inl h ↦ rw h (
      let same : text_eq added protocol ≡ text_eq other protocol =
        ap (λ t. text_eq t protocol) (sym ((text_eq_iff other added).0 h)) in
      rw same (count_here (text_eq other protocol) n (count_of protocol rest)))
  | inr h ↦ rw h (elim (Bool-cases (text_eq other protocol)) [
    | inl k ↦ rw k (rw (text_eq_other other added protocol h k) (right_zero n))
    | inr k ↦ rw k (count_of-bump protocol added rest)
  ])
]

module _ {T O : Type 0} (minus : T → T → O) where
  table_rows-append :
      (ps : List (Packet T)) (pkt : Packet T)
      → table_rows minus (ps ++ (pkt ∷ []))
        ≡ table_rows minus ps
          ++ (row_of minus (length ps + 1) (elim (first_ts ps) [ none ↦ pkt.ts | some t ↦ t ]) pkt
              ∷ [])
  unfolding table_rows rows_from
  table_rows-append [] pkt = refl
  table_rows-append (p ∷ ps) pkt =
      rows_from-append minus 1 p.ts (p ∷ ps) pkt
      ∙ ap (λ k. table_rows minus (p ∷ ps) ++ (row_of minus k p.ts pkt ∷ []))
          (swapped (length (p ∷ ps)))

  first_ts-append :
      (ps : List (Packet T)) (pkt : Packet T)
      → some (elim (first_ts ps) [ none ↦ pkt.ts | some t ↦ t ]) ≡ first_ts (ps ++ (pkt ∷ []))
  first_ts-append [] pkt = refl
  first_ts-append (p ∷ ps) pkt = refl

  arrived-Shows :
      (app : SniffApp T O) (packets : List (Packet T)) (pkt : Packet T)
      → Shows minus app (false, packets)
      → Shows minus (on_packet_arrived minus app pkt) (false, packets ++ (pkt ∷ []))
  unfolding on_packet_arrived
  arrived-Shows app packets pkt s = rw s.paused (record {
    paused = refl;
    number = omega (arith, s.number, length-append packets (pkt ∷ []));
    start = rw s.start (first_ts-append packets pkt);
    table = rw s.start (rw s.number (rw s.table (sym (table_rows-append packets pkt))));
    counts = λ protocol.
        count_of-bump protocol pkt.protocol app.counts
        ∙ ap (λ k. k + (if text_eq pkt.protocol protocol then 1 else 0)) (s.counts protocol)
        ∙ sym (occurrences-append minus protocol packets pkt);
  })

  on_packet_arrived_paused :
      (app : SniffApp T O) (pkt : Packet T)
      → app.paused ≡ true
      → on_packet_arrived minus app pkt ≡ app
  unfolding on_packet_arrived
  on_packet_arrived_paused app pkt h = if_true app.paused app _ h

  handle_event-Shows :
      (app : SniffApp T O) (taken : Taken T) (event : SniffEvent T)
      → Shows minus app taken
      → Shows minus (handle_event minus app event) (takes taken event)
  unfolding handle_event action_toggle_pause action_clear table_rows
  handle_event-Shows app (false, packets) (packet_arrived pkt) s = arrived-Shows app packets pkt s
  handle_event-Shows app (true, packets) (packet_arrived pkt) s =
      subst (λ a. Shows minus a (true, packets)) (sym (on_packet_arrived_paused app pkt s.paused)) s
  handle_event-Shows app (paused, packets) toggle_pause s = record {
    paused = ap not s.paused;
    number = s.number;
    start = s.start;
    table = s.table;
    counts = s.counts;
  }
  handle_event-Shows app (paused, packets) clear s = record {
    paused = s.paused;
    number = refl;
    start = refl;
    table = refl;
    counts = λ protocol. refl;
  }

  handle_events-Shows_from :
      (events : List (SniffEvent T)) (app : SniffApp T O) (taken : Taken T)
      → Shows minus app taken
      → Shows minus (handle_events minus app events) (takes_all taken events)
  unfolding handle_events
  handle_events-Shows_from [] app taken s = s
  handle_events-Shows_from (event ∷ events) app taken s =
      handle_events-Shows_from events (handle_event minus app event) (takes taken event)
        (handle_event-Shows app taken event s)

  -- Whatever packets arrive and whatever keys are pressed, in whatever order: the screen shows what
  -- the table of a file shows of the packets that came since the last clear while it was not paused,
  -- row for row, with their number, the time of the first, and the number of each protocol.
  pub handle_events-Shows :
      (events : List (SniffEvent T))
      → Shows minus (handle_events minus (new_app minus) events) (takes_all (false, []) events)
  unfolding new_app table_rows
  handle_events-Shows events =
      handle_events-Shows_from events (new_app minus) (false, [])
        (record {
          paused = refl;
          number = refl;
          start = refl;
          table = refl;
          counts = λ protocol. refl;
        })
