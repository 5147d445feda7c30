-- ===== src/Selection/Overlap.antt =====
-- Which pieces a selection marks: those that have a byte of a file that is selected, or skipped.
use tortor.Prelude.{
  ℕ, ◌+◌, ◌%◌, ◌<◌, max, ◌≡◌, ◌≢◌, ◌↔◌, ◌⊎◌, refl, ◌∙◌, inl, inr, Bool, true, false, List, [], ◌∷◌,
  if◌then◌else◌, ltb, Bool-cases, arith,
}
use tortor.Prelude.Words.{u64_mod}
use tortor.Prelude.Sets.{contains}
use tortor.Bitfield
use tortor.Bitfield.{Bitfield}
use tortor.Bitfield.Valid.{new-IsValid, set_all-IsValid}
use tortor.Bitfield.Members.{has-set_all, len-set_all, has-new}
use tortor.Selection.{TorrentFile, Selection, file_pieces, mark_file, from_files_loop, from_files}
use tortor.Selection.Touches.{Touches, Overlaps, total_length, contains-file_pieces}

abbrev pub field : Bool → Selection → Bitfield
field true s = s.wanted
field false s = s.unservable

-- Both fields are well formed and as long as there are pieces.
pub record Ok (total : ℕ) (s : Selection) : Type 0 where
  pub wanted_valid : Bitfield.Valid.IsValid s.wanted
  pub unservable_valid : Bitfield.Valid.IsValid s.unservable
  pub wanted_len : s.wanted.len ≡ total
  pub unservable_len : s.unservable.len ≡ total

mark_file-Ok :
    (d total offset : ℕ) (file : TorrentFile) (keep : Bool) (s : Selection)
    → Ok total s
    → Ok total (mark_file d total offset file keep s)
unfolding mark_file
mark_file-Ok d total offset file keep s o = elim (Bool-cases (ltb 0 file.length)) [
  | inr empty ↦ rw empty o
  | inl some_byte ↦ rw some_byte (by_flag keep)
]
  where
    pieces : List ℕ
    pieces = file_pieces d total offset file.length

    by_flag :
        (keep : Bool)
        → Ok total (
            if keep
            then record s { wanted = Bitfield.set_all pieces s.wanted }
            else record s { unservable = Bitfield.set_all pieces s.unservable })
    by_flag true = record {
      wanted_valid = set_all-IsValid pieces s.wanted o.wanted_valid;
      unservable_valid = o.unservable_valid;
      wanted_len = len-set_all pieces s.wanted ∙ o.wanted_len;
      unservable_len = o.unservable_len;
    }
    by_flag false = record {
      wanted_valid = o.wanted_valid;
      unservable_valid = set_all-IsValid pieces s.unservable o.unservable_valid;
      wanted_len = o.wanted_len;
      unservable_len = len-set_all pieces s.unservable ∙ o.unservable_len;
    }

marked_iff :
    (f : Bitfield) (pieces : List ℕ) (p : ℕ) (k : Bool) {T : Type 0}
    → Bitfield.Valid.IsValid f
    → p < f.len
    → (contains p pieces ≡ true) ↔ T
    → (Bitfield.has (Bitfield.set_all pieces f) p ≡ true)
      ↔ (((k ≡ k) × T) ⊎ (Bitfield.has f p ≡ true))
marked_iff f pieces p k v lt touches =
    let h = has-set_all pieces f p v in
    (
      λ e. elim (Bool-cases (contains p pieces)) [
        | inl inside ↦ inl (refl, touches.0 inside)
        | inr outside ↦ inr (ground (arith, h, e, outside))
      ],
      elim [
        | inl (same, t) ↦ let inside = touches.1 t in ground (arith, h)
        | inr old ↦ ground (arith, h)
      ],
    )

other_iff : {k k' : Bool} {T H : Type 0} → (k ≡ k' → ⊥) → H ↔ (((k ≡ k') × T) ⊎ H)
other_iff different = (λ h. inr h, elim [ inl (same, t) ↦ absurd (different same) | inr h ↦ h ])

-- Marking the pieces of a file in a field, and leaving the other field alone.
mark_file_iff :
    (d total offset : ℕ) (file : TorrentFile) (keep k : Bool) (s : Selection) (p : ℕ)
    → Ok total s
    → 0 < d
    → offset + file.length < u64_mod
    → p < total
    → (Bitfield.has (field k (mark_file d total offset file keep s)) p ≡ true)
      ↔ (((keep ≡ k) × Touches d offset file.length p) ⊎ (Bitfield.has (field k s) p ≡ true))
unfolding mark_file
mark_file_iff d total offset file keep k s p o pos word lt = elim (Bool-cases (ltb 0 file.length)) [
  | inr empty ↦
      rw empty
        (λ h. inr h, elim [ inl (e, (b, lo, hi, at)) ↦ absurd (ground (arith, empty)) | inr h ↦ h ])
  | inl some_byte ↦ rw some_byte (
      by_flag keep k
        (contains-file_pieces d total offset file.length p pos (ground (arith, some_byte)) word lt))
]
  where
    pieces : List ℕ
    pieces = file_pieces d total offset file.length

    by_flag :
        (keep k : Bool)
        → (contains p pieces ≡ true) ↔ Touches d offset file.length p
        → (Bitfield.has
              (field k (
                if keep
                then record s { wanted = Bitfield.set_all pieces s.wanted }
                else record s { unservable = Bitfield.set_all pieces s.unservable }))
              p
            ≡ true)
          ↔ (((keep ≡ k) × Touches d offset file.length p) ⊎ (Bitfield.has (field k s) p ≡ true))
    by_flag true true touches =
        marked_iff s.wanted pieces p true o.wanted_valid (omega (arith, o.wanted_len)) touches
    by_flag false false touches =
        marked_iff s.unservable pieces p false o.unservable_valid (omega (arith, o.unservable_len))
          touches
    by_flag true false touches = other_iff (λ e. cc)
    by_flag false true touches = other_iff (λ e. cc)

loop_iff :
    (d total : ℕ) (files : List TorrentFile) (flags : List Bool) (offset : ℕ) (k : Bool)
    (s : Selection) (p : ℕ)
    → Ok total s
    → 0 < d
    → offset + total_length files < u64_mod
    → p < total
    → (Bitfield.has (field k (from_files_loop d total files flags offset s)) p ≡ true)
      ↔ (Overlaps k d files flags offset p ⊎ (Bitfield.has (field k s) p ≡ true))
unfolding from_files_loop
loop_iff d total [] flags offset k s p o pos word lt =
    (λ h. inr h, elim [ inl none_here ↦ absurd none_here | inr h ↦ h ])
loop_iff d total (file ∷ files) [] offset k s p o pos word lt =
    (λ h. inr h, elim [ inl none_here ↦ absurd none_here | inr h ↦ h ])
loop_iff d total (file ∷ files) (keep ∷ flags) offset k s p o pos word lt =
    let exact : (offset + file.length) % u64_mod ≡ offset + file.length = omega arith in
    let s' = mark_file d total offset file keep s in
    let first = mark_file_iff d total offset file keep k s p o pos (omega arith) lt in
    let rest =
      loop_iff d total files flags (offset + file.length) k s' p
        (mark_file-Ok d total offset file keep s o) pos (omega arith) lt in
    rw exact (
      λ h. elim (rest.0 h) [
        | inl later ↦ inl (inr later)
        | inr marked ↦ elim (first.0 marked) [ inl here ↦ inl (inl here) | inr old ↦ inr old ]
      ],
      elim [
        | inl (inl here) ↦ rest.1 (inr (first.1 (inl here)))
        | inl (inr later) ↦ rest.1 (inl later)
        | inr old ↦ rest.1 (inr (first.1 (inr old)))
      ],
    )

-- If the files have less than 2^64 bytes together, a piece in range is wanted exactly if it has a
-- byte of a selected file, and is unservable exactly if it has a byte of a skipped one. Bytes are
-- numbered through the files, and the piece of byte `b` is `b / piece_length`, with a length of
-- zero taken as one.
pub from_files_iff :
    (files : List TorrentFile) (selected : List Bool) (piece_length total_pieces : ℕ) (keep : Bool)
    (p : ℕ)
    → total_length files < u64_mod
    → p < total_pieces
    → (Bitfield.has (field keep (from_files files selected piece_length total_pieces)) p ≡ true)
      ↔ Overlaps keep (max piece_length 1) files selected 0 p
unfolding from_files
from_files_iff files selected piece_length total_pieces keep p word lt =
    let empty : Selection = record {
      wanted = Bitfield.new total_pieces;
      unservable = Bitfield.new total_pieces;
    } in
    let whole =
      loop_iff (max piece_length 1) total_pieces files selected 0 keep empty p (new-Ok total_pieces)
        (omega arith) (omega arith) lt in
    (
      λ h. elim (whole.0 h) [ inl o ↦ o | inr old ↦ absurd (nothing keep old) ],
      λ o. whole.1 (inl o),
    )
  where
    new-Ok : (n : ℕ) → Ok n (record { wanted = Bitfield.new n; unservable = Bitfield.new n })
    new-Ok n =
        unfold Bitfield.new in
        record {
          wanted_valid = new-IsValid n;
          unservable_valid = new-IsValid n;
          wanted_len = refl;
          unservable_len = refl;
        }

    nothing :
        (k : Bool)
        → Bitfield.has
            (field k (record {
              wanted = Bitfield.new total_pieces;
              unservable = Bitfield.new total_pieces;
            }))
            p
          ≢ true
    nothing true e = cc (e, has-new total_pieces p)
    nothing false e = cc (e, has-new total_pieces p)
