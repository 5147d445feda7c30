-- ===== src/Bitfield/Valid.antt =====
-- The representation invariant of a bitfield, and that every operation keeps it.
use native.Mathlib.Decide.{ℕ_discrete}
use tortor.Prelude.{
  ℕ, zero, suc, ◌*◌, ◌/◌, ◌%◌, ◌≤◌, ◌<◌, ◌≡◌, refl, ap, ◌∙◌, inl, inr, true, false, List, [], ◌∷◌,
  leb, ◌==◌, length, replicate, get_or, Bool-cases, All, length-replicate, replicate-All,
  length-set, set-All, get_or-All, get_or-set, arith, set as set_elem, if◌then◌else◌, ≢→==, ◌||◌,
}
use tortor.Prelude.Words.{div_ceil}
use tortor.Prelude.Bits.{test_bit, set_bit, test_bit-zero, test_bit-set_bit, set_bit_lt}
use tortor.Bitfield.{Bitfield, new, set, set_all, from_indices, full, bit}

abbrev pub IsByte : ℕ → Type 0
IsByte b = b < 256

-- The bytes fit the length, and the spare bits of the last byte are clear.
pub record IsValid (f : Bitfield) : Type 0 where
  pub size : length f.bytes ≡ div_ceil f.len 8
  pub are_bytes : All IsByte f.bytes
  pub spare : (i : ℕ) → f.len ≤ i → i < length f.bytes * 8 → bit f.bytes i ≡ false

get_or-replicate : (n i : ℕ) → get_or {A = ℕ} (replicate n 0) i 0 ≡ 0
get_or-replicate zero i = refl
get_or-replicate (suc n) zero = refl
get_or-replicate (suc n) (suc i) = get_or-replicate n i

pub bit-zeros : (n i : ℕ) → bit (replicate n 0) i ≡ false
bit-zeros n i = rw (get_or-replicate n (i / 8)) (test_bit-zero (i % 8) (omega arith))

pub new-IsValid : (len : ℕ) → IsValid (new len)
unfolding new
new-IsValid len = record {
  size = length-replicate (div_ceil len 8) 0;
  are_bytes = replicate-All IsByte (div_ceil len 8) 0 (omega arith);
  spare = λ i lo hi. bit-zeros (div_ceil len 8) i;
}

-- One written bit, seen at every position.
pub bit-set :
    (bytes : List ℕ) (i j : ℕ)
    → All IsByte bytes
    → i < length bytes * 8
    → bit (set_elem bytes (i / 8) (set_bit (get_or bytes (i / 8) 0) (i % 8))) j
      ≡ (if i == j then true else bit bytes j)
bit-set bytes i j all h =
    let here =
      get_or-set bytes (i / 8) (j / 8) (set_bit (get_or bytes (i / 8) 0) (i % 8)) 0 (omega arith) in
    let byte : get_or bytes (i / 8) 0 < 256 = get_or-All IsByte bytes (i / 8) 0 all (omega arith) in
    let law =
      test_bit-set_bit (get_or bytes (i / 8) 0) (i % 8) (j % 8) byte (omega arith) (omega arith) in
    elim (ℕ_discrete (i / 8) (j / 8)) [
      | yes same ↦ rw (here.0 same) (
          law
          ∙ ap (λ t. i % 8 == j % 8 || t) (ap (λ k. test_bit (get_or bytes k 0) (j % 8)) same)
          ∙ ground arith)
      | no other ↦ rw (here.1 other) (ground arith)
    ]

pub set-IsValid : (f : Bitfield) (i : ℕ) → IsValid f → IsValid (set f i).0
unfolding set
set-IsValid f i v = elim (Bool-cases (leb f.len i)) [
  | inl out ↦ rw out v
  | inr in_range ↦
      let lt : i < f.len = ground arith in
      let size = v.size in
      let byte : get_or f.bytes (i / 8) 0 < 256 =
        get_or-All IsByte f.bytes (i / 8) 0 v.are_bytes (omega arith) in
      rw in_range (record {
        size = length-set f.bytes (i / 8) _ ∙ v.size;
        are_bytes =
            set-All IsByte f.bytes (i / 8) _ v.are_bytes (set_bit_lt _ (i % 8) byte (omega arith));
        spare = λ j lo hi.
            let hi' : j < length f.bytes * 8 = rw (length-set f.bytes (i / 8) _) at hi in
            bit-set f.bytes i j v.are_bytes (omega arith)
            ∙ rw (≢→== i j (omega arith)) (v.spare j lo hi');
      })
]

pub set_all-IsValid : (is : List ℕ) (f : Bitfield) → IsValid f → IsValid (set_all is f)
unfolding set_all
set_all-IsValid [] f v = v
set_all-IsValid (i ∷ is) f v = set_all-IsValid is (set f i).0 (set-IsValid f i v)

-- Whatever the indices, also those out of range, `from_indices` builds a well-formed field.
pub from_indices-IsValid : (len : ℕ) (is : List ℕ) → IsValid (from_indices len is)
unfolding from_indices
from_indices-IsValid len is = set_all-IsValid is (new len) (new-IsValid len)

pub full-IsValid : (len : ℕ) → IsValid (full len)
unfolding full
full-IsValid len = from_indices-IsValid len _
