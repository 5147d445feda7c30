-- ===== src/Assembler/Tiling.antt =====
-- The blocks of a piece lie end to end and cover it, and `received_bytes` adds up the complete
-- ones: the invariant of the assembler, which `new` establishes.
use mathlib.Core.Path.{subst}
use tortor.Prelude.{
  ℕ, zero, suc, ◌+◌, ◌-◌, ◌*◌, ◌≤◌, ◌<◌, min, ◌≡◌, ◌↔◌, refl, sym, inl, inr, Bool, true, false,
  List, [], ◌∷◌, if◌then◌else◌, ◌==◌, Bool-cases, ==→≡, length as list_length, length-replicate,
  arith,
}
use tortor.Prelude.Words.{div_ceil, u32_mod}
use tortor.Assembler.{BlockRequest, PieceAssembler, block_size, make_blocks, new}

-- The blocks cover `from..to`, each with a byte at least.
abbrev pub Tiles : ℕ → List BlockRequest → ℕ → Type 0
Tiles from [] to = from ≡ to
Tiles from (b ∷ bs) to = (b.begin ≡ from) × (0 < b.length) × Tiles (from + b.length) bs to

abbrev pub done_bytes : List BlockRequest → ℕ
done_bytes [] = 0
done_bytes (b ∷ bs) = (if b.completed then b.length else 0) + done_bytes bs

abbrev pub all_done : List BlockRequest → Bool
all_done [] = true
all_done (b ∷ bs) = if b.completed then all_done bs else false

pub record IsValid (a : PieceAssembler) : Type 0 where
  pub word : a.expected_length < u32_mod
  pub size : list_length a.buffer ≡ a.expected_length
  pub tiles : Tiles 0 a.blocks a.expected_length
  pub received : a.received_bytes ≡ done_bytes a.blocks

make_blocks-Tiles :
    (total i count : ℕ)
    → i * block_size + count * block_size < total + block_size
    → total ≤ i * block_size + count * block_size
    → i * block_size ≤ total
    → Tiles (i * block_size) (make_blocks total i count) total
unfolding make_blocks
make_blocks-Tiles total i zero lo hi start = omega arith
make_blocks-Tiles total i (suc zero) lo hi start = (refl, omega arith, omega arith)
make_blocks-Tiles total i (suc (suc count)) lo hi start =
    let next : i * block_size + min block_size (total - i * block_size) ≡ (i + 1) * block_size =
      omega arith in
    (
      refl,
      omega arith,
      subst (λ from. Tiles from (make_blocks total (i + 1) (suc count)) total) (sym next)
          (make_blocks-Tiles total (i + 1) (suc count) (omega arith) (omega arith) (omega arith)),
    )

make_blocks-done_bytes : (total i count : ℕ) → done_bytes (make_blocks total i count) ≡ 0
unfolding make_blocks
make_blocks-done_bytes total i zero = refl
make_blocks-done_bytes total i (suc count) =
    omega (arith, make_blocks-done_bytes total (i + 1) count)

-- The blocks of a new assembler cover the piece, whatever its length.
pub new-IsValid : (piece_index total : ℕ) → total < u32_mod → IsValid (new piece_index total)
unfolding new
new-IsValid piece_index total h = record {
  word = h;
  size = length-replicate total 0;
  tiles = elim (Bool-cases (total == 0)) [
    | inl e ↦ rw e (sym (==→≡ total 0 e))
    | inr ne ↦ rw ne (
        make_blocks-Tiles total 0 (div_ceil total block_size) (omega arith) (omega arith)
          (omega arith))
  ];
  received = sym (make_blocks-done_bytes total 0 _);
}

-- The bytes of the complete blocks fill the piece exactly when every block is complete.
pub done_bytes-le :
    (bs : List BlockRequest) (from to : ℕ) → Tiles from bs to → from + done_bytes bs ≤ to
done_bytes-le [] from to t = omega arith
done_bytes-le (b ∷ bs) from to t = ground (arith, done_bytes-le bs (from + b.length) to t.2)

pub done_bytes_iff :
    (bs : List BlockRequest) (from to : ℕ)
    → Tiles from bs to
    → (from + done_bytes bs ≡ to) ↔ (all_done bs ≡ true)
done_bytes_iff [] from to t = (λ _. refl, λ _. omega arith)
done_bytes_iff (b ∷ bs) from to t =
    let ih = done_bytes_iff bs (from + b.length) to t.2 in
    let le = done_bytes-le bs (from + b.length) to t.2 in (ground arith, ground arith)
