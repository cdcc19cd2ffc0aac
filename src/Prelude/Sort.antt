-- ===== src/Prelude/Sort.antt =====
-- Python's `sorted` with a key: stable insertion by a Boolean order, and the order of texts.

use mathlib.Core.Path.{◌≡◌, refl}
use mathlib.Core.Logic.{inl, inr}
use mathlib.Core.Bool.{Bool, true, false}
use mathlib.Core.List.{List, [], ◌∷◌, ◌++◌, Perm}
use mathlib.Core.List.Perm
use native.Mathlib.Omega.{arith}
use pyscan.Prelude.Tests.{ltb, ◌==◌, if◌then◌else◌, Bool-cases}
use pyscan.Prelude.Texts.{Text}

module _ {ℓ} {A : Type ℓ} (before : A → A → Bool) where
  -- Puts `x` in front of the first element that it may stand before.
  unfoldable pub insert_by : A → List A → List A
  insert_by x [] = x ∷ []
  insert_by x (y ∷ rest) =
      let later = insert_by x rest in if before x y then x ∷ (y ∷ rest) else y ∷ later

  unfoldable pub sort_by : List A → List A
  unfolding insert_by
  sort_by [] = []
  sort_by (x ∷ rest) = insert_by x (sort_by rest)

  -- Each element may stand before the next.
  abbrev pub IsSortedFrom : A → List A → Type 0
  IsSortedFrom x [] = Unit
  IsSortedFrom x (y ∷ rest) = (before x y ≡ true) × IsSortedFrom y rest

  abbrev pub IsSorted : List A → Type 0
  IsSorted [] = Unit
  IsSorted (x ∷ rest) = IsSortedFrom x rest

  insert_by-Perm : (x : A) (rest : List A) → Perm (insert_by x rest) (x ∷ rest)
  unfolding insert_by
  insert_by-Perm x [] = Perm.refl (x ∷ [])
  insert_by-Perm x (y ∷ rest) = elim (Bool-cases (before x y)) [
    | inl h ↦ rw h (Perm.refl (x ∷ (y ∷ rest)))
    | inr h ↦ rw h (Perm.trans (Perm.cons y (insert_by-Perm x rest)) (Perm.swap x y rest))
  ]

  pub sort_by-Perm : (xs : List A) → Perm (sort_by xs) xs
  unfolding sort_by
  sort_by-Perm [] = Perm.refl []
  sort_by-Perm (x ∷ rest) =
      Perm.trans (insert_by-Perm x (sort_by rest)) (Perm.cons x (sort_by-Perm rest))

  module _ (total : (x y : A) → before x y ≡ false → before y x ≡ true) where
    insert_by-IsSortedFrom :
        (x y : A) (rest : List A)
        → before y x ≡ true
        → IsSortedFrom y rest
        → IsSortedFrom y (insert_by x rest)
    unfolding insert_by
    insert_by-IsSortedFrom x y [] h s = (h, tt)
    insert_by-IsSortedFrom x y (z ∷ rest) h (k, s) = elim (Bool-cases (before x z)) [
      | inl first ↦ rw first (h, (first, s))
      | inr later ↦ rw later (k, insert_by-IsSortedFrom x z rest (total x z later) s)
    ]

    insert_by-IsSorted : (x : A) (rest : List A) → IsSorted rest → IsSorted (insert_by x rest)
    unfolding insert_by
    insert_by-IsSorted x [] s = tt
    insert_by-IsSorted x (y ∷ rest) s = elim (Bool-cases (before x y)) [
      | inl first ↦ rw first (first, s)
      | inr later ↦ rw later (insert_by-IsSortedFrom x y rest (total x y later) s)
    ]

    pub sort_by-IsSorted : (xs : List A) → IsSorted (sort_by xs)
    unfolding sort_by
    sort_by-IsSorted [] = tt
    sort_by-IsSorted (x ∷ rest) = insert_by-IsSorted x (sort_by rest) (sort_by-IsSorted rest)

-- `s <= t`: texts are compared by their code points, a prefix first.
unfoldable pub text_leb : Text → Text → Bool
text_leb [] t = true
text_leb (x ∷ s) [] = false
text_leb (x ∷ s) (y ∷ t) =
    let rest = text_leb s t in if ltb x y then true else if x == y then rest else false

pub text_leb_total : (s t : Text) → text_leb s t ≡ false → text_leb t s ≡ true
unfolding text_leb
text_leb_total [] t h = cc
text_leb_total (x ∷ s) [] h = refl
text_leb_total (x ∷ s) (y ∷ t) h = ground (arith, text_leb_total s t)

-- `sorted(texts)`
unfoldable pub sort_texts : List Text → List Text
unfolding sort_by text_leb
sort_texts xs = sort_by text_leb xs

-- `separator.join(texts)`
unfoldable pub join : Text → List Text → Text
join separator [] = []
join separator (t ∷ []) = t
join separator (t ∷ (u ∷ rest)) = t ++ (separator ++ join separator (u ∷ rest))
