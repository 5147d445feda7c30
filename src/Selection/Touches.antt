-- ===== src/Selection/Touches.antt =====
-- Which pieces have a byte of a file.
use tortor.Prelude.{
  ℕ, ◌+◌, ◌-◌, ◌*◌, ◌/◌, ◌%◌, ◌≤◌, ◌<◌, min, ◌≡◌, ◌↔◌, ◌⊎◌, inl, inr, Bool, true, List, [], ◌∷◌,
  leb, Bool-cases, arith,
}
use native.Mathlib.Nat.{le-div_iff_mul-le, div-lt_iff_lt-mul, mul-div_cancel}
use tortor.Prelude.Words.{u64_mod}
use tortor.Prelude.Sets.{contains, contains-filter_range}
use tortor.Selection.{TorrentFile, file_pieces}

-- The piece `p` has a byte of the file of `len` bytes at `offset`.
abbrev pub Touches : ℕ → ℕ → ℕ → ℕ → Type 0
Touches d offset len p = (b : ℕ) × (offset ≤ b) × (b < offset + len) × (b / d ≡ p)

-- The piece `p` has a byte of a file with the flag `keep`. The first file is at `offset`.
abbrev pub Overlaps : Bool → ℕ → List TorrentFile → List Bool → ℕ → ℕ → Type 0
Overlaps keep d [] flags offset p = ⊥
Overlaps keep d (file ∷ files) [] offset p = ⊥
Overlaps keep d (file ∷ files) (flag ∷ flags) offset p =
    ((flag ≡ keep) × Touches d offset file.length p)
    ⊎ Overlaps keep d files flags (offset + file.length) p

abbrev pub total_length : List TorrentFile → ℕ
total_length [] = 0
total_length (file ∷ files) = file.length + total_length files

-- The first and the last piece of a range of bytes bound the pieces that have one.
pub Touches-iff :
    (d offset len p : ℕ)
    → 0 < d
    → 0 < len
    → Touches d offset len p ↔ ((offset / d ≤ p) × (p ≤ (offset + len - 1) / d))
Touches-iff d offset len p pos some_byte = (
  λ (b, lo, hi, e).
      let below : b < (p + 1) * d = (div-lt_iff_lt-mul pos).0 (omega arith) in
      let above : p * d ≤ b = (le-div_iff_mul-le pos).0 (omega arith) in
      let low : offset / d < p + 1 = (div-lt_iff_lt-mul pos).1 (omega arith) in
      (omega arith, (le-div_iff_mul-le pos).1 (omega arith)),
  λ (low, high).
      let reach : p * d ≤ offset + len - 1 = (le-div_iff_mul-le pos).0 high in
      elim (Bool-cases (leb offset (p * d))) [
        | inl inside ↦ (p * d, ground (arith, inside), omega arith, mul-div_cancel p pos)
        | inr before ↦
            let start : p ≤ offset / d = (le-div_iff_mul-le pos).1 (ground (arith, before)) in
            (offset, omega arith, omega arith, omega arith)
      ],
)

pub contains-file_pieces :
    (d total offset len p : ℕ)
    → 0 < d
    → 0 < len
    → offset + len < u64_mod
    → p < total
    → (contains p (file_pieces d total offset len) ≡ true) ↔ Touches d offset len p
unfolding file_pieces
contains-file_pieces d total offset len p pos some_byte word lt =
    let exact : (offset + len - 1) % u64_mod ≡ offset + len - 1 = omega arith in
    let touches = Touches-iff d offset len p pos some_byte in
    let first = offset / d in
    let last = (offset + len - 1) / d in
    let range = contains-filter_range first (min last (total - 1) + 1 - first) (λ _. true) p in
    rw exact (
      λ c. touches.1 (ground (arith, range, c), ground (arith, range, c)),
      λ t. let b = touches.0 t in ground (arith, range, b),
    )
