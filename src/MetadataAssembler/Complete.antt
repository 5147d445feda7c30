-- ===== src/MetadataAssembler/Complete.antt =====
-- The invariant of the assembler, and when it is complete.
use tortor.Prelude.{
  ℕ, ◌-◌, ◌*◌, ◌≤◌, ◌<◌, ◌≡◌, ◌≢◌, ◌↔◌, refl, ap, ◌∙◌, inl, inr, Bool, true, false, ◌||◌, none,
  some, List, [], ltb, leb, ◌==◌, Bool-cases, Option-cases, ==→≡, ==→≢, ==_iff, replicate, length,
  All, length-replicate, arith,
}
use mathlib.Core.Path.{subst}
use tortor.Prelude.Words.{div_ceil}
use tortor.Prelude.Sets.{
  contains, find_range-some, find_range_first, find_range-none, NoDup, insert-NoDup, insert-All,
  contains_full, le-length_full, length_le,
}
use tortor.Prelude.Index.{length-overwrite}
use tortor.Prelude.Result.{Result, ok, err}
use tortor.Bencode.{max_torrent_size}
use tortor.MetadataAssembler.{
  MetadataAssembler, MetadataError, out_of_bounds, invalid_piece_size, piece_size, new, is_complete,
  piece_end, store_piece, add_piece, next_missing_piece,
}

pub record IsValid (m : MetadataAssembler) : Type 0 where
  pub positive : 0 < m.metadata_size
  pub total : m.total_pieces ≡ div_ceil m.metadata_size piece_size
  pub size : length m.buffer ≡ m.metadata_size
  pub distinct : NoDup m.received_pieces
  pub in_range : All (λ p. p < m.total_pieces) m.received_pieces

abbrev fresh : ℕ → MetadataAssembler
fresh size = record {
  metadata_size = size;
  buffer = replicate size 0;
  received_pieces = [];
  total_pieces = div_ceil size piece_size;
}

fresh-IsValid : (size : ℕ) → 0 < size → IsValid (fresh size)
fresh-IsValid size h = record {
  positive = h;
  total = refl;
  size = length-replicate size 0;
  distinct = tt;
  in_range = tt;
}

-- What `new` makes is well formed and not complete.
pub new-IsValid :
    (size : ℕ) (m : MetadataAssembler)
    → new size ≡ ok m
    → IsValid m × (m.metadata_size ≡ size) × (m.received_pieces ≡ []) × (is_complete m ≡ false)
unfolding new is_complete
new-IsValid size m e = elim (Bool-cases (size == 0 || ltb max_torrent_size size)) [
  | inl bad ↦ absurd (ground (arith, e, bad))
  | inr good ↦
      let is_m : fresh size ≡ m = ground (arith, e, good) in
      subst
        (λ m.
          IsValid m × (m.metadata_size ≡ size) × (m.received_pieces ≡ []) × (is_complete m ≡ false))
        is_m (fresh-IsValid size (ground arith), refl, refl, ground arith)
]

-- The length that `add_piece` wants of a piece.
abbrev pub piece_len : MetadataAssembler → ℕ → ℕ
piece_len m piece = piece_end m piece - piece * piece_size

piece_end_bounds :
    (m : MetadataAssembler) (piece : ℕ)
    → IsValid m
    → piece < m.total_pieces
    → (piece * piece_size < piece_end m piece) × (piece_end m piece ≤ m.metadata_size)
unfolding piece_end
piece_end_bounds m piece v h = let total = v.total in ground arith

store_piece-IsValid :
    (m : MetadataAssembler) (piece : ℕ) (bytes : List ℕ)
    → IsValid m
    → piece < m.total_pieces
    → length bytes ≡ piece_len m piece
    → IsValid (store_piece m piece bytes)
unfolding store_piece
store_piece-IsValid m piece bytes v h l =
    let b = piece_end_bounds m piece v h in
    record {
      positive = v.positive;
      total = v.total;
      size = length-overwrite (piece * piece_size) bytes m.buffer (omega (arith, v.size)) ∙ v.size;
      distinct = insert-NoDup piece m.received_pieces v.distinct;
      in_range = insert-All (λ p. p < m.total_pieces) piece m.received_pieces h v.in_range;
    }

-- `add_piece` on every branch: an index out of range or a wrong length is an error and changes
-- nothing; else the piece is stored, and the result says whether the metadata is complete.
pub data Added (m : MetadataAssembler) (piece : ℕ) (bytes : List ℕ)
    : Result MetadataError Bool × MetadataAssembler → Type 0 where
  beyond : m.total_pieces ≤ piece → Added m piece bytes (err out_of_bounds, m)
  wrong_size :
      piece < m.total_pieces
      → length bytes ≢ piece_len m piece
      → Added m piece bytes (err invalid_piece_size, m)
  stored :
      piece < m.total_pieces
      → length bytes ≡ piece_len m piece
      → Added m piece bytes
          (ok (is_complete (store_piece m piece bytes)), store_piece m piece bytes)

pub add_piece-Added :
    (m : MetadataAssembler) (piece : ℕ) (bytes : List ℕ)
    → Added m piece bytes (add_piece m piece bytes)
unfolding add_piece
add_piece-Added m piece bytes = elim (Bool-cases (leb m.total_pieces piece)) [
  | inl out ↦ rw out (beyond (ground arith))
  | inr inside ↦ elim (Bool-cases (length bytes == piece_len m piece)) [
    | inl good ↦ rw (inside, good) (stored (ground arith) (==→≡ _ _ good))
    | inr bad ↦ rw (inside, bad) (wrong_size (ground arith) (==→≢ _ _ bad))
  ]
]

-- Whatever is added, a well-formed metadata assembler stays well formed.
pub add_piece-IsValid :
    (m : MetadataAssembler) (piece : ℕ) (bytes : List ℕ)
    → IsValid m
    → IsValid (add_piece m piece bytes).1
add_piece-IsValid m piece bytes v = by_case (add_piece-Added m piece bytes)
  where
    by_case :
        {r : Result MetadataError Bool × MetadataAssembler} → Added m piece bytes r → IsValid r.1
    by_case (beyond h) = v
    by_case (wrong_size h n) = v
    by_case (stored h l) = store_piece-IsValid m piece bytes v h l

-- The count of received pieces tells exactly whether all of them are there.
pub is_complete_iff :
    (m : MetadataAssembler)
    → IsValid m
    → (is_complete m ≡ true) ↔ ((i : ℕ) → i < m.total_pieces → contains i m.received_pieces ≡ true)
unfolding is_complete
is_complete_iff m v = (
  λ e. contains_full m.total_pieces m.received_pieces v.distinct v.in_range (==→≡ _ _ e),
  λ f.
      let lo = le-length_full m.total_pieces m.received_pieces v.distinct f in
      let hi = length_le m.total_pieces m.received_pieces v.distinct v.in_range in
      (==_iff _ _).1 (omega arith),
)

-- The first piece that is not received.
pub record FirstMissing (m : MetadataAssembler) (p : ℕ) : Type 0 where
  pub in_range : p < m.total_pieces
  pub absent : contains p m.received_pieces ≡ false
  pub least : (i : ℕ) → i < p → contains i m.received_pieces ≡ true

-- In a well-formed metadata assembler there is a piece to ask for exactly while the metadata is
-- not complete, and it is the first one that is not received.
pub next_missing_piece_lem :
    (m : MetadataAssembler) (p : ℕ)
    → IsValid m
    → ((next_missing_piece m ≡ none) ↔ (is_complete m ≡ true))
      × ((next_missing_piece m ≡ some p) ↔ FirstMissing m p)
unfolding next_missing_piece
next_missing_piece_lem m p v = (
  (
    λ e.
        (is_complete_iff m v).1 (λ i h.
          ground (arith, find_range-none 0 m.total_pieces _ e i (omega arith) (omega arith))),
    λ c. elim (Option-cases (next_missing_piece m)) [
      | inl e ↦ e
      | inr (p, e) ↦
          let hit = find_range-some 0 m.total_pieces _ p e in
          ground (arith, hit, (is_complete_iff m v).0 c p (omega arith))
    ],
  ),
  (
    λ e.
        let hit = find_range-some 0 m.total_pieces _ p e in
        record {
          in_range = omega arith;
          absent = ground (arith, hit.2);
          least = λ i h. ground (arith, find_range_first 0 m.total_pieces _ p e i (omega arith) h);
        },
    λ first. elim (Option-cases (next_missing_piece m)) [
      | inl e ↦ absurd (
          ground (
            arith,
            first.absent,
            find_range-none 0 m.total_pieces _ e p (omega arith) (omega (arith, first.in_range)),
          ))
      | inr (q, e) ↦
          let hit = find_range-some 0 m.total_pieces _ q e in
          e
          ∙ ap some (
              ground (
                arith,
                hit.2,
                first.absent,
                first.least q,
                find_range_first 0 m.total_pieces _ q e p (omega arith),
              ))
    ],
  ),
)
