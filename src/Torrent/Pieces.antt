-- ===== src/Torrent/Pieces.antt =====
-- The pieces of a torrent tile its data.
use tortor.Prelude.{
  ℕ, zero, suc, ◌+◌, ◌-◌, ◌*◌, ◌≤◌, ◌<◌, min, ◌≡◌, ap, ◌∙◌, Option, none, some, length, arith,
}
use native.Mathlib.Nat.{div-lt_iff_lt-mul, le-div_iff_mul-le}
use tortor.Prelude.Words.{u64_mod, div_ceil}
use tortor.Torrent.{TorrentMeta, piece_len_in, piece_len_at}

-- A torrent with as many hashes as its data has pieces.
pub record IsTiled (m : TorrentMeta) (total : ℕ) : Type 0 where
  pub is_total : m.total_length ≡ some total
  pub word : total < u64_mod
  pub positive : 0 < m.piece_length
  pub count : length m.pieces ≡ div_ceil total m.piece_length

-- The sum of the lengths of `count` pieces from `start` on, or nothing if one has no length.
unfoldable pub add_len : Option ℕ → Option ℕ → Option ℕ
add_len none rest = none
add_len (some n) none = none
add_len (some n) (some rest) = some (n + rest)

abbrev pub sum_lens : TorrentMeta → ℕ → ℕ → Option ℕ
sum_lens m start zero = some 0
sum_lens m start (suc count) = add_len (piece_len_at m start) (sum_lens m (suc start) count)

-- The number of pieces times their length is enough, and without the last piece it is not.
pub count_bounds :
    (total d : ℕ)
    → 0 < d
    → (total ≤ div_ceil total d * d) × ((i : ℕ) → i < div_ceil total d → i * d < total)
count_bounds total d pos =
    let upper : total + d - 1 < (div_ceil total d + 1) * d =
      (div-lt_iff_lt-mul pos).0 (omega arith) in
    (
      omega arith,
      λ i lt.
          let lower : (i + 1) * d ≤ total + d - 1 = (le-div_iff_mul-le pos).0 (omega arith) in
          omega arith,
    )

-- Each piece has a length from one to the piece length.
pub piece_len_at_lem :
    (m : TorrentMeta) (total i : ℕ)
    → IsTiled m total
    → i < length m.pieces
    → (piece_len_at m i ≡ some (min m.piece_length (total - i * m.piece_length)))
      × (i * m.piece_length < total)
unfolding piece_len_at piece_len_in
piece_len_at_lem m total i t lt =
    let start : i * m.piece_length < total =
      (count_bounds total m.piece_length t.positive).1 i (omega (arith, t.count)) in
    (rw t.is_total (ground (arith, t.word)), start)

sum_lens_lem :
    (m : TorrentMeta) (total start count : ℕ)
    → IsTiled m total
    → start + count ≡ length m.pieces
    → sum_lens m start count ≡ some (total - start * m.piece_length)
unfolding add_len
sum_lens_lem m total start zero t e =
    let enough = (count_bounds total m.piece_length t.positive).0 in
    let all : total ≤ start * m.piece_length =
      (let last : start ≡ div_ceil total m.piece_length = omega (arith, t.count) in
        rw last enough) in
    ap some (omega arith)
sum_lens_lem m total start (suc count) t e =
    let here = piece_len_at_lem m total start t (omega arith) in
    ap (λ n. add_len n (sum_lens m (suc start) count)) here.0
    ∙ ap (add_len (some (min m.piece_length (total - start * m.piece_length))))
        (sum_lens_lem m total (suc start) count t (omega arith))
    ∙ ap some (omega arith)

-- If a torrent of a piece length above zero has one hash for each piece of its data, below 2^64
-- bytes, every piece has a length, and the lengths add up to the data.
pub sum_lens-total :
    (m : TorrentMeta) (total : ℕ) → IsTiled m total → sum_lens m 0 (length m.pieces) ≡ some total
sum_lens-total m total t =
    sum_lens_lem m total 0 (length m.pieces) t (omega arith) ∙ ap some (omega arith)
