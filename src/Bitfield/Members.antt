-- ===== src/Bitfield/Members.antt =====
-- What a bitfield holds: the laws of `has` after `set`, `from_indices` and `full`, and the round
-- trip through the wire form.
use mathlib.Core.Path.{subst}
use tortor.Prelude.{
  ℕ, zero, suc, ◌+◌, ◌-◌, ◌*◌, ◌/◌, ◌%◌, ◌≤◌, ◌<◌, ◌≡◌, ◌↔◌, refl, sym, ap, ◌∙◌, inl, inr, true,
  false, ◌&&◌, ◌||◌, some, List, [], ◌∷◌, ltb, leb, ◌==◌, length, get_or, get_elem?, Bool-cases,
  All, get_or-All, arith,
}
use tortor.Prelude.Words.{div_ceil}
use tortor.Prelude.Bits.{spare_clear, clear_spare}
use tortor.Prelude.Sets.{contains, filter_range, contains-filter_range}
use tortor.Bitfield.{Bitfield, new, has, set, set_all, from_indices, full, bit, from_wire, spare_ok}
use tortor.Bitfield.Valid.{IsByte, IsValid, bit-zeros, bit-set, new-IsValid, set-IsValid}

-- After `set i` a well-formed field holds `i`, if it is in range, and what it held before.
pub has-set :
    (f : Bitfield) (i j : ℕ) → IsValid f → has (set f i).0 j ≡ (ltb i f.len && i == j || has f j)
unfolding has set
has-set f i j v = elim (Bool-cases (leb f.len i)) [
  | inl out ↦ rw out (ground arith)
  | inr in_range ↦
      let size = v.size in
      let lt : i < f.len = ground arith in
      rw (in_range, bit-set f.bytes i j v.are_bytes (omega arith)) (ground arith)
]

pub has-new : (len i : ℕ) → has (new len) i ≡ false
unfolding has new
has-new len i = rw (bit-zeros (div_ceil len 8) i) (ground arith)

pub len-set : (f : Bitfield) (i : ℕ) → (set f i).0.len ≡ f.len
unfolding set
len-set f i = ground arith

pub len-set_all : (is : List ℕ) (f : Bitfield) → (set_all is f).len ≡ f.len
unfolding set_all
len-set_all [] f = refl
len-set_all (i ∷ is) f = len-set_all is (set f i).0 ∙ len-set f i

pub has-set_all :
    (is : List ℕ) (f : Bitfield) (j : ℕ)
    → IsValid f
    → has (set_all is f) j ≡ (ltb j f.len && contains j is || has f j)
unfolding set_all
has-set_all [] f j v = ground arith
has-set_all (i ∷ is) f j v =
    let ih = has-set_all is (set f i).0 j (set-IsValid f i v) in
    ground (arith, ih, has-set f i j v, len-set f i)

pub len-from_indices : (len : ℕ) (is : List ℕ) → (from_indices len is).len ≡ len
unfolding from_indices new
len-from_indices len is = len-set_all is (new len)

-- A field built from indices holds exactly those of them that are in range.
pub has-from_indices :
    (len : ℕ) (is : List ℕ) (j : ℕ) → has (from_indices len is) j ≡ (ltb j len && contains j is)
unfolding from_indices
has-from_indices len is j =
    has-set_all is (new len) j (new-IsValid len) ∙ ground (arith, has-new len j, len-new)
  where
    len-new : (new len).len ≡ len
    len-new = unfold new in refl

pub len-full : (len : ℕ) → (full len).len ≡ len
unfolding full
len-full len = len-from_indices len (filter_range 0 len (λ _. true))

pub has-full : (len j : ℕ) → has (full len) j ≡ ltb j len
unfolding full
has-full len j = ground (
  arith,
  has-from_indices len (filter_range 0 len (λ _. true)) j,
  contains-filter_range 0 len (λ _. true) j,
)

pub has_lt : (f : Bitfield) (i : ℕ) → has f i ≡ true → i < f.len
unfolding has
has_lt f i h = ground arith

get_elem?-get_or : (xs : List ℕ) (i : ℕ) → i < length xs → get_elem? xs i ≡ some (get_or xs i 0)
get_elem?-get_or [] i h = absurd (omega arith)
get_elem?-get_or (x ∷ xs) zero h = refl
get_elem?-get_or (x ∷ xs) (suc i) h = get_elem?-get_or xs i (omega arith)

module _ (len : ℕ) (payload : List ℕ) (bytes : All IsByte payload)
    (size : length payload ≡ div_ceil len 8) where
  spare_ok-clear :
      (i : ℕ)
      → spare_ok (length payload * 8 - len) payload ≡ some true
      → len ≤ i
      → i < length payload * 8
      → bit payload i ≡ false
  unfolding spare_ok
  spare_ok-clear i e lo hi =
      let at_last : i / 8 ≡ length payload - 1 = omega arith in
      let last = get_elem?-get_or payload (length payload - 1) (omega arith) in
      let byte : get_or payload (length payload - 1) 0 < 256 =
        get_or-All IsByte payload (length payload - 1) 0 bytes (omega arith) in
      rw at_last (
        spare_clear (get_or payload (length payload - 1) 0) (length payload * 8 - len) (i % 8) byte
          (omega arith) (ground (arith, last, e)) (omega arith) (omega arith))

  clear-spare_ok :
      ((i : ℕ) → len ≤ i → i < length payload * 8 → bit payload i ≡ false)
      → spare_ok (length payload * 8 - len) payload ≡ some true
  unfolding spare_ok
  clear-spare_ok clear = elim (Bool-cases (ltb 0 (length payload * 8 - len))) [
    | inl more ↦
        let lt : 0 < length payload * 8 - len = ground arith in
        let byte : get_or payload (length payload - 1) 0 < 256 =
          get_or-All IsByte payload (length payload - 1) 0 bytes (omega arith) in
        let zeros =
          clear_spare (get_or payload (length payload - 1) 0) (length payload * 8 - len) byte
            (omega arith)
            (λ k hk hs.
              let q : ((length payload - 1) * 8 + k) / 8 ≡ length payload - 1 = omega arith in
              let r : ((length payload - 1) * 8 + k) % 8 ≡ k = omega arith in
              rw (q, r) at (clear ((length payload - 1) * 8 + k) (omega arith) (omega arith))) in
        rw (more, get_elem?-get_or payload (length payload - 1) (omega arith)) (rw zeros)
    | inr none_spare ↦ rw none_spare
  ]

from_wire-some :
    (len : ℕ) (payload : List ℕ) (f : Bitfield)
    → from_wire len payload ≡ some f
    → (length payload ≡ div_ceil len 8)
      × (spare_ok (length payload * 8 - len) payload ≡ some true)
      × (f ≡ record { bytes = payload; len = len })
unfolding from_wire
from_wire-some len payload f h = ground arith

from_wire-accepts :
    (len : ℕ) (payload : List ℕ)
    → length payload ≡ div_ceil len 8
    → spare_ok (length payload * 8 - len) payload ≡ some true
    → from_wire len payload ≡ some (record { bytes = payload; len = len })
unfolding from_wire
from_wire-accepts len payload size ok = ground arith

-- `from_wire` accepts a payload of bytes exactly when it is the wire form of a well-formed field
-- of that length, and returns that field.
pub from_wire_iff :
    (len : ℕ) (payload : List ℕ) (f : Bitfield)
    → All IsByte payload
    → (from_wire len payload ≡ some f) ↔ ((f ≡ record { bytes = payload; len = len }) × IsValid f)
from_wire_iff len payload f bytes = (
  λ h.
      let r = from_wire-some len payload f h in
      (
        r.2,
        subst IsValid (sym r.2) (record {
          size = r.0;
          are_bytes = bytes;
          spare = λ i lo hi. spare_ok-clear len payload bytes r.0 i r.1 lo hi;
        }),
      ),
  λ h.
      let v : IsValid (record { bytes = payload; len = len }) = subst IsValid h.0 h.1 in
      from_wire-accepts len payload v.size (clear-spare_ok len payload bytes v.size v.spare)
      ∙ ap some (sym h.0),
)
