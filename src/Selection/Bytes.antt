-- ===== src/Selection/Bytes.antt =====
-- The other views of a selection: the pieces to fetch again after a change, and how many bytes are
-- wanted.
use tortor.Prelude.{
  ℕ, zero, suc, ◌+◌, ◌-◌, ◌*◌, ◌%◌, ◌≤◌, ◌<◌, max, ◌≡◌, ◌↔◌, ◌⊎◌, refl, ap, ◌∙◌, inl, inr, Bool,
  true, false, ◌&&◌, List, [], ◌∷◌, if◌then◌else◌, ltb, Bool-cases, arith,
}
use tortor.Prelude.Words.{u64_mod}
use tortor.Prelude.Sets.{filter_range}
use tortor.Bitfield
use tortor.Bitfield.{Bitfield}
use tortor.Bitfield.Members.{has-full, len-full}
use tortor.Selection
use tortor.Selection.{
  TorrentFile, Selection, file_pieces, mark_file, from_files_loop, from_files, pieces_loop,
  pieces_of_files, pieces_to_refetch, newly_selected, wanted_bytes, sum_pieces,
}
use tortor.Selection.Touches.{Overlaps, Touches, total_length}
use tortor.Selection.Overlap.{from_files_iff}

pieces_loop_lem :
    (d total : ℕ) (files : List TorrentFile) (flags : List Bool) (offset : ℕ) (s : Selection)
    → pieces_loop d total files flags offset s.wanted
      ≡ (from_files_loop d total files flags offset s).wanted
unfolding pieces_loop from_files_loop
pieces_loop_lem d total [] flags offset s = refl
pieces_loop_lem d total (file ∷ files) [] offset s = refl
pieces_loop_lem d total (file ∷ files) (flag ∷ flags) offset s =
    ap (pieces_loop d total files flags ((offset + file.length) % u64_mod)) (same_mark flag)
    ∙ pieces_loop_lem d total files flags ((offset + file.length) % u64_mod)
        (mark_file d total offset file flag s)
  where
    same_mark :
        (flag : Bool)
        → (if flag && ltb 0 file.length
            then Bitfield.set_all (file_pieces d total offset file.length) s.wanted
            else s.wanted)
          ≡ (mark_file d total offset file flag s).wanted
    same_mark true =
        unfold mark_file in elim (Bool-cases (ltb 0 file.length)) [ inl h ↦ rw h | inr h ↦ rw h ]
    same_mark false =
        unfold mark_file in elim (Bool-cases (ltb 0 file.length)) [ inl h ↦ rw h | inr h ↦ rw h ]

pieces_of_files_lem :
    (files : List TorrentFile) (flags : List Bool) (piece_length total_pieces : ℕ)
    → pieces_of_files files flags piece_length total_pieces
      ≡ (from_files files flags piece_length total_pieces).wanted
unfolding pieces_of_files from_files
pieces_of_files_lem files flags piece_length total_pieces =
    pieces_loop_lem (max piece_length 1) total_pieces files flags 0
      (record { wanted = Bitfield.new total_pieces; unservable = Bitfield.new total_pieces })

-- A file that was skipped, is selected, and has a byte of the piece `p`.
abbrev pub NewlyOverlaps : ℕ → List TorrentFile → List Bool → List Bool → ℕ → ℕ → Type 0
NewlyOverlaps d [] before after offset p = ⊥
NewlyOverlaps d (file ∷ files) [] after offset p = ⊥
NewlyOverlaps d (file ∷ files) (was ∷ before) [] offset p = ⊥
NewlyOverlaps d (file ∷ files) (was ∷ before) (now ∷ after) offset p =
    ((was ≡ false) × (now ≡ true) × Touches d offset file.length p)
    ⊎ NewlyOverlaps d files before after (offset + file.length) p

newly_iff :
    (d : ℕ) (files : List TorrentFile) (before after : List Bool) (offset p : ℕ)
    → Overlaps true d files (newly_selected before after) offset p
      ↔ NewlyOverlaps d files before after offset p
unfolding newly_selected
newly_iff d [] before after offset p = (λ o. absurd o, λ o. absurd o)
newly_iff d (file ∷ files) [] after offset p = (λ o. absurd o, λ o. absurd o)
newly_iff d (file ∷ files) (was ∷ before) [] offset p = (λ o. absurd o, λ o. absurd o)
newly_iff d (file ∷ files) (was ∷ before) (now ∷ after) offset p =
    let ih = newly_iff d files before after (offset + file.length) p in
    (
      elim [
        | inl (flag, t) ↦ inl (ground (arith, flag), ground (arith, flag), t)
        | inr later ↦ inr (ih.0 later)
      ],
      elim [
        | inl (is_new, is_now, t) ↦ inl (ground (arith, is_new, is_now), t)
        | inr later ↦ inr (ih.1 later)
      ],
    )

-- If the files have less than 2^64 bytes together, a piece in range is fetched again exactly if
-- it has a byte of a file that was skipped and is selected now.
pub pieces_to_refetch_iff :
    (files : List TorrentFile) (before after : List Bool) (piece_length total_pieces p : ℕ)
    → total_length files < u64_mod
    → p < total_pieces
    → (Bitfield.has (pieces_to_refetch files before after piece_length total_pieces) p ≡ true)
      ↔ NewlyOverlaps (max piece_length 1) files before after 0 p
unfolding pieces_to_refetch
pieces_to_refetch_iff files before after piece_length total_pieces p word lt =
    let now = newly_selected before after in
    let marked = from_files_iff files now piece_length total_pieces true p word lt in
    let newly = newly_iff (max piece_length 1) files before after 0 p in
    rw (pieces_of_files_lem files now piece_length total_pieces)
      (λ h. newly.0 (marked.0 h), λ o. marked.1 (newly.1 o))

sum_pieces_lem :
    (piece_length total_bytes start count : ℕ) (p : ℕ → Bool)
    → ((i : ℕ) → start ≤ i → i < start + count → p i ≡ true)
    → total_bytes ≤ (start + count) * piece_length
    → sum_pieces piece_length total_bytes (filter_range start count p)
      ≡ total_bytes - start * piece_length
unfolding filter_range
sum_pieces_lem piece_length total_bytes start zero p every fits = omega arith
sum_pieces_lem piece_length total_bytes start (suc count) p every fits =
    let ih =
      sum_pieces_lem piece_length total_bytes (suc start) count p
        (λ i lo hi. every i (omega arith) (omega arith)) (omega arith) in
    rw (every start (omega arith) (omega arith)) (omega (arith, ih))

-- With every piece wanted, and enough of them for the data, the wanted bytes are all of the data,
-- also if the last piece is short.
pub wanted_bytes-all :
    (total_pieces piece_length total_bytes : ℕ)
    → total_bytes ≤ total_pieces * piece_length
    → wanted_bytes (Selection.all total_pieces) piece_length total_bytes ≡ total_bytes
unfolding wanted_bytes Bitfield.iter_ones Selection.all
wanted_bytes-all total_pieces piece_length total_bytes fits =
    let full = Bitfield.full total_pieces in
    sum_pieces_lem piece_length total_bytes 0 full.len (Bitfield.has full)
      (λ i lo hi. ground (arith, has-full total_pieces i, len-full total_pieces))
      (rw (len-full total_pieces) (omega arith))
    ∙ omega arith
