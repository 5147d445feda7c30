-- ===== src/Prelude/Index.antt =====
-- Bytes by index in the parts of a list.
use Prim.Native.Nat.{ℕ, zero, suc, ◌+◌, ◌-◌, ◌≤◌, ◌<◌}
use mathlib.Core.Path.{◌≡◌, refl, ap, ap₂, ◌∙◌}
use mathlib.Core.Logic.{inl, inr}
use mathlib.Core.Bool.{◌&&◌}
use mathlib.Core.List.{List, [], ◌∷◌, ◌++◌}
use native.Mathlib.Omega.{arith}
use tortor.Prelude.Tests.{if◌then◌else◌, ltb, leb, Bool-cases}
use tortor.Prelude.Lists.{
  length as list_length, take, drop, get_or, overwrite, length-take, length-append, length-drop,
}

pub get_or-take : (n i : ℕ) (xs : List ℕ) → i < n → get_or (take n xs) i 0 ≡ get_or xs i 0
get_or-take zero i xs h = absurd (omega arith)
get_or-take (suc n) i [] h = refl
get_or-take (suc n) zero (x ∷ xs) h = refl
get_or-take (suc n) (suc i) (x ∷ xs) h = get_or-take n i xs (omega arith)

pub get_or-drop : (n i : ℕ) (xs : List ℕ) → get_or (drop n xs) i 0 ≡ get_or xs (n + i) 0
get_or-drop zero i xs = let e : 0 + i ≡ i = omega arith in rw e
get_or-drop (suc n) i [] = refl
get_or-drop (suc n) i (x ∷ xs) =
    let e : suc n + i ≡ suc (n + i) = omega arith in rw e (get_or-drop n i xs)

pub get_or-append_right :
    (xs ys : List ℕ) (i : ℕ)
    → list_length xs ≤ i
    → get_or (xs ++ ys) i 0 ≡ get_or ys (i - list_length xs) 0
get_or-append_right [] ys i h = let e : i - 0 ≡ i = omega arith in rw e
get_or-append_right (x ∷ xs) ys zero h = absurd (omega arith)
get_or-append_right (x ∷ xs) ys (suc i) h =
    let e : suc i - suc (list_length xs) ≡ i - list_length xs = omega arith in
    rw e (get_or-append_right xs ys i (omega arith))

pub get_or-append_left :
    (xs ys : List ℕ) (i : ℕ) → i < list_length xs → get_or (xs ++ ys) i 0 ≡ get_or xs i 0
get_or-append_left [] ys i h = absurd (omega arith)
get_or-append_left (x ∷ xs) ys zero h = refl
get_or-append_left (x ∷ xs) ys (suc i) h = get_or-append_left xs ys i (omega arith)

-- The bytes of an overwritten buffer.
pub get_or-overwrite :
    (begin i : ℕ) (ys xs : List ℕ)
    → begin + list_length ys ≤ list_length xs
    → get_or (overwrite begin ys xs) i 0 ≡ (
        if leb begin i && ltb i (begin + list_length ys)
        then get_or ys (i - begin) 0
        else get_or xs i 0)
get_or-overwrite begin i ys xs h =
    let front : list_length (take begin xs) ≡ begin = omega (arith, length-take begin xs) in
    elim (Bool-cases (leb begin i)) [
      | inr before ↦ rw before (
          get_or-append_left (take begin xs) _ i (ground arith)
          ∙ get_or-take begin i xs (ground arith))
      | inl from ↦
          let lo : begin ≤ i = ground arith in
          let right =
            get_or-append_right (take begin xs) (ys ++ drop (begin + list_length ys) xs) i
              (omega arith) in
          let shift : i - list_length (take begin xs) ≡ i - begin = omega arith in
          elim (Bool-cases (ltb i (begin + list_length ys))) [
            | inl inside ↦
                rw (from, inside)
                  (right ∙ rw shift (get_or-append_left ys _ (i - begin) (ground arith)))
            | inr after ↦
                let hi : begin + list_length ys ≤ i = ground arith in
                let back : begin + list_length ys + (i - begin - list_length ys) ≡ i =
                  omega arith in
                rw (from, after)
                  (right
                    ∙ rw shift (
                        get_or-append_right ys (drop (begin + list_length ys) xs) (i - begin)
                          (omega arith)
                        ∙ get_or-drop (begin + list_length ys) (i - begin - list_length ys) xs
                        ∙ ap (λ n. get_or xs n 0) back))
          ]
    ]

-- Lists of one length that agree at every index are equal.
pub list-ext :
    (xs ys : List ℕ)
    → list_length xs ≡ list_length ys
    → ((i : ℕ) → i < list_length xs → get_or xs i 0 ≡ get_or ys i 0)
    → xs ≡ ys
list-ext [] [] e f = refl
list-ext [] (y ∷ ys) e f = absurd (omega arith)
list-ext (x ∷ xs) [] e f = absurd (omega arith)
list-ext (x ∷ xs) (y ∷ ys) e f =
    ap₂ (λ h t. h ∷ t) (f 0 (omega arith))
      (list-ext xs ys (omega arith) (λ i h. f (suc i) (omega arith)))

pub length-overwrite :
    (begin : ℕ) (ys xs : List ℕ)
    → begin + list_length ys ≤ list_length xs
    → list_length (overwrite begin ys xs) ≡ list_length xs
length-overwrite begin ys xs h = omega (
  arith,
  length-append (take begin xs) (ys ++ drop (begin + list_length ys) xs),
  length-append ys (drop (begin + list_length ys) xs),
  length-take begin xs,
  length-drop (begin + list_length ys) xs,
)
