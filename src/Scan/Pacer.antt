-- ===== src/Scan/Pacer.antt =====
-- pyscan/domain/rate.py: one slot per interval. A time is a number of ticks, so that
-- the addition of an interval is exact.
use pyscan.Prelude.{
  ℕ, ◌+◌, ◌-◌, ◌≤◌, ◌≡◌, inl, inr, Bool, List, [], ◌∷◌, arith, ltb, if◌then◌else◌, ltb→lt,
  Bool-cases, value_error, Result, ok, err,
}

pub record Pacer : Type 0 where
  pub interval : ℕ
  pub next : ℕ

-- A rate, which is a float, by what the code asks of it: `not rate`, `rate <= 0`, and `1.0 / rate`
-- in ticks.
pub record Rate : Type 0 where
  pub is_zero : Bool
  pub at_most_zero : Bool
  pub interval : ℕ

-- `Pacer(rate, start)`
unfoldable pub new_pacer : Rate → ℕ → Result Pacer
new_pacer rate start =
    if rate.at_most_zero
    then err value_error
    else ok (record { interval = rate.interval; next = start })

-- The slot that is reserved: `self._next if self._next > now else now`
unfoldable pub slot_of : Pacer → ℕ → ℕ
slot_of p now = if ltb now p.next then p.next else now

-- The pacer behind the reservation, and the time to wait; the slot is never before `now`.
unfoldable pub reserve : Pacer → ℕ → Pacer × ℕ
unfolding slot_of
reserve p now = let slot = slot_of p now in (record p { next = slot + p.interval }, slot - now)

-- The times at which the callers at these times may go on.
unfoldable pub fire_times : Pacer → List ℕ → List ℕ
unfolding reserve
fire_times p [] = []
fire_times p (now ∷ later) = let (p', wait) = reserve p now in (now + wait) ∷ fire_times p' later

-- Each time is at least the interval behind the one before, which `earliest` bounds.
abbrev pub Spaced : ℕ → ℕ → List ℕ → Type 0
Spaced interval earliest [] = Unit
Spaced interval earliest (t ∷ rest) = (earliest ≤ t) × Spaced interval (t + interval) rest

-- No caller goes on before it asked, in the order of the calls.
abbrev pub Follows : List ℕ → List ℕ → Type 0
Follows [] [] = Unit
Follows (now ∷ later) (t ∷ rest) = (now ≤ t) × Follows later rest
Follows _ _ = ⊥

-- Whatever the times of the calls, also a clock that runs backwards: the probes of one pacer are
-- at least one interval apart, the first not before the pacer's next slot, and none before its call.
pub fire_times-Spaced :
    (p : Pacer) (calls : List ℕ)
    → Spaced p.interval p.next (fire_times p calls) × Follows calls (fire_times p calls)
unfolding fire_times reserve slot_of
fire_times-Spaced p [] = (tt, tt)
fire_times-Spaced p (now ∷ later) = elim (Bool-cases (ltb now p.next)) [
  | inl h ↦ rw h (
      let (s, f) = fire_times-Spaced (record p { next = p.next + p.interval }) later in
      let at_slot : now + (p.next - now) ≡ p.next = omega (arith, ltb→lt now p.next h) in
      rw at_slot ((omega arith, s), (omega (arith, ltb→lt now p.next h), f)))
  | inr h ↦ rw h (
      let (s, f) = fire_times-Spaced (record p { next = now + p.interval }) later in
      let at_slot : now + (now - now) ≡ now = omega arith in
      rw at_slot ((ground arith, s), (omega arith, f)))
]
