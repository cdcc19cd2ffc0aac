-- ===== src/Scan/Strategies/Connect/Banner.antt =====
-- The banners that a connect probe reports.
use pyscan.Wire.{Bytes}
use mathlib.Core.Path.{subst}
use pyscan.Prelude.{
  ℕ, suc, zero, ◌<◌, ◌≤◌, ◌≡◌, refl, ◌⊎◌, inl, inr, Bool, true, false, ◌&&◌, Option, none, some,
  List, [], ◌∷◌, ◌++◌, map, append-nil, arith, Text, codes, is_space, is_printable, keep, length,
  take, length-take, All, Bool-cases, value_error, Result, ok, err, join, onto_first,
}
use pyscan.Scan.Strategies.Connect.{
  non_empty_texts, pieces, printable_or_space, text_or_none, clean, read_banner, grab, scan_connect,
  words, Reading, nudge, ConnectOptions, is_blank,
}
use pyscan.Scan.Strategies.{
  Reading, Connection, PortResult, scan_tcp, connected, refused, timed_out, unreachable,
  unencodable, Writing,
}
use pyscan.Scan.Models.{PortResult, is_open}
use pyscan.Scan.Strategies.Total.{IsReport, RaisesOs}

-- Printable characters, with no white space at the front or behind white space; `gap` says that the
-- text stands at the front or behind a space.
abbrev pub IsNeat : Bool → Text → Type 0
IsNeat gap [] = Unit
IsNeat gap (c ∷ t) = (is_printable c ≡ true) × (gap && is_space c ≡ false) × IsNeat (is_space c) t

-- One line: of one to 200 printable characters, with single spaces between its words.
abbrev pub IsLine : Option Text → Type 0
IsLine none = Unit
IsLine (some t) = (0 < length t) × (length t ≤ 200) × IsNeat true t

IsNeat-take : (n : ℕ) (gap : Bool) (t : Text) → IsNeat gap t → IsNeat gap (take n t)
IsNeat-take zero gap t h = tt
IsNeat-take (suc n) gap [] h = tt
IsNeat-take (suc n) gap (c ∷ t) (p, s, h) = (p, s, IsNeat-take n (is_space c) t h)

IsVisible : ℕ → Type 0
IsVisible c = (is_printable c ≡ true) × (is_space c ≡ false)

and_false : (t : Bool) → t && false ≡ false
and_false true = refl
and_false false = refl

IsNeat-append :
    (word rest : Text) → All IsVisible word → IsNeat false rest → IsNeat false (word ++ rest)
unfolding IsVisible
IsNeat-append [] rest v h = h
IsNeat-append (c ∷ word) rest ((p, s), v) h = (p, refl, rw s (IsNeat-append word rest v h))

IsNeat-word :
    (gap : Bool) (c : ℕ) (word rest : Text)
    → All IsVisible (c ∷ word)
    → IsNeat false rest
    → IsNeat gap (c ∷ (word ++ rest))
unfolding IsVisible
IsNeat-word gap c word rest ((p, s), v) h =
    (p, rw s (and_false gap), rw s (IsNeat-append word rest v h))

-- Words with something in them.
IsWord : Text → Type 0
IsWord [] = ⊥
IsWord (c ∷ t) = All IsVisible (c ∷ t)

IsNeat-join : (gap : Bool) (ws : List Text) → All IsWord ws → IsNeat gap (join (codes " ") ws)
unfolding join IsWord is_printable is_space
IsNeat-join gap [] h = tt
IsNeat-join gap ((c ∷ w) ∷ []) (v, _) =
    subst (IsNeat gap) (append-nil (c ∷ w)) (IsNeat-word gap c w [] v tt)
IsNeat-join gap ((c ∷ w) ∷ (u ∷ ws)) (v, h) =
    IsNeat-word gap c w (b' ' ∷ join (codes " ") (u ∷ ws)) v
      (refl, refl, IsNeat-join true (u ∷ ws) h)
IsNeat-join gap ([] ∷ ws) (v, _) = absurd v

onto_first-IsVisible :
    (c : ℕ) (ts : List Text)
    → IsVisible c
    → All (All IsVisible) ts
    → All (All IsVisible) (onto_first c ts)
onto_first-IsVisible c [] v h = ((v, tt), tt)
onto_first-IsVisible c (t ∷ ts) v (k, h) = ((v, k), h)

pieces-IsVisible :
    (t : Text) → All (λ c. (is_printable c ≡ true)) t → All (All IsVisible) (pieces t)
unfolding pieces IsVisible
pieces-IsVisible [] h = (tt, tt)
pieces-IsVisible (c ∷ t) (p, h) = elim (Bool-cases (is_space c)) [
  | inl gap ↦ rw gap (tt, pieces-IsVisible t h)
  | inr visible ↦ rw visible (onto_first-IsVisible c (pieces t) (p, visible) (pieces-IsVisible t h))
]

non_empty_texts-IsWord : (ts : List Text) → All (All IsVisible) ts → All IsWord (non_empty_texts ts)
unfolding non_empty_texts IsWord
non_empty_texts-IsWord [] h = tt
non_empty_texts-IsWord ([] ∷ ts) (_, h) = non_empty_texts-IsWord ts h
non_empty_texts-IsWord ((c ∷ t) ∷ ts) (v, h) = (v, non_empty_texts-IsWord ts h)

printable_or_space-printable : (c : ℕ) → is_printable (printable_or_space c) ≡ true
unfolding printable_or_space
printable_or_space-printable c = elim (Bool-cases (is_printable c)) [
  | inl h ↦ rw h h
  | inr h ↦ rw h (unfold is_printable in refl)
]

map-printable : (t : Text) → All (λ c. is_printable c ≡ true) (map printable_or_space t)
map-printable [] = tt
map-printable (c ∷ t) = (printable_or_space-printable c, map-printable t)

text_or_none-IsLine : (t : Text) → length t ≤ 200 → IsNeat true t → IsLine (text_or_none t)
unfolding text_or_none
text_or_none-IsLine [] l h = tt
text_or_none-IsLine (c ∷ t) l h = (omega arith, l, h)

clean-IsLine : (answer : Bytes) → IsLine (clean answer)
unfolding clean words
clean-IsLine [] = tt
clean-IsLine (c ∷ rest) =
    let text = map printable_or_space (c ∷ rest) in
    let neat =
      IsNeat-join true (words text)
        (non_empty_texts-IsWord (pieces text) (pieces-IsVisible text (map-printable (c ∷ rest)))) in
    text_or_none-IsLine _ (omega (arith, length-take 200 (join (codes " ") (words text))))
      (IsNeat-take 200 true _ neat)

-- It returns a line, or none.
abbrev ReturnsLine : Result (Option Text) → Type 0
ReturnsLine m = (banner : Option Text) × (m ≡ ok banner) × IsLine banner

read_banner-IsLine : (reading : Reading) → RaisesOs reading → ReturnsLine (read_banner reading)
unfolding read_banner
read_banner-IsLine (ok answer) h = (clean answer, refl, clean-IsLine answer)
read_banner-IsLine (err e) h = rw h (none, refl, tt)

nudge-IsLine :
    (sent : Writing) (reading : Reading)
    → RaisesOs sent
    → RaisesOs reading
    → ReturnsLine (nudge sent reading)
unfolding nudge
nudge-IsLine (ok _) reading s h = read_banner-IsLine reading h
nudge-IsLine (err e) reading s h = rw s (none, refl, tt)

grab-IsLine :
    (options : ConnectOptions) (volunteered : Reading) (sent : Writing) (coaxed : Reading)
    → RaisesOs volunteered
    → RaisesOs sent
    → RaisesOs coaxed
    → (banner : Option Text) × (grab options volunteered sent coaxed ≡ ok banner)
      × IsLine banner
      × (options.grab_banner ≡ false → banner ≡ none)
unfolding grab
grab-IsLine options volunteered sent coaxed v s c = elim (Bool-cases options.grab_banner) [
  | inr off ↦ rw off (none, refl, tt, λ _. refl)
  | inl on ↦ rw on (
      let (banner, e, line) = read_banner-IsLine volunteered v in
      rw e (elim (Bool-cases (options.http_probe && is_blank banner)) [
        | inl coax ↦ rw coax (
            let (answer, f, line') = nudge-IsLine sent coaxed s c in
            (answer, f, line', λ off. absurd (true_false off)))
        | inr keep ↦ rw keep (banner, refl, line, λ off. absurd (true_false off))
      ]))
]
  where
    true_false : ¬ (true ≡ false)
    true_false e = cc

-- A connect probe, whatever the connection does and whatever bytes come back at once or behind the
-- HEAD request, where reading and writing raise nothing but TimeoutError and OSError: it raises
-- ValueError, and this only for a host name that cannot be encoded, or it returns a report; a
-- banner is one line of one to 200 printable characters with single spaces between the words, and
-- there is none where none is asked for.
pub scan_connect-IsReport :
    {T : Type 0} (options : ConnectOptions) (connection : Connection T) (volunteered : Reading)
    (sent : Writing) (coaxed : Reading) (port : ℕ)
    → RaisesOs volunteered
    → RaisesOs sent
    → RaisesOs coaxed
    → ((connection ≡ unencodable)
        × (scan_connect options connection volunteered sent coaxed port ≡ err value_error))
      ⊎ ((result : PortResult T) × (scan_connect options connection volunteered sent coaxed port
            ≡ ok result)
          × IsReport connection port result
          × IsLine result.banner
          × (options.grab_banner ≡ false → result.banner ≡ none))
unfolding scan_connect scan_tcp is_open
scan_connect-IsReport options (connected latency) volunteered sent coaxed port v s c =
    let (banner, e, line, silent) = grab-IsLine options volunteered sent coaxed v s c in
    rw e (inr (_, refl, record { names = refl; opens = refl; quiet = λ q. cc }, line, silent))
scan_connect-IsReport options (refused latency) volunteered sent coaxed port v s c =
    inr (_, refl, record { names = refl; opens = refl; quiet = λ _. refl }, tt, λ _. refl)
scan_connect-IsReport options timed_out volunteered sent coaxed port v s c =
    inr (_, refl, record { names = refl; opens = refl; quiet = λ _. refl }, tt, λ _. refl)
scan_connect-IsReport options unreachable volunteered sent coaxed port v s c =
    inr (_, refl, record { names = refl; opens = refl; quiet = λ _. refl }, tt, λ _. refl)
scan_connect-IsReport options unencodable volunteered sent coaxed port v s c = inl (refl, refl)
