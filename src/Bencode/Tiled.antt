-- ===== src/Bencode/Tiled.antt =====
-- What `build_meta` accepts is a torrent whose pieces tile its data, with a safe name.
use tortor.Prelude.{
  ℕ, zero, suc, ◌+◌, ◌-◌, ◌/◌, ◌%◌, ◌≤◌, ◌<◌, min, ◌≡◌, refl, sym, ap, ◌∙◌, inl, inr, Bool, true,
  ◌||◌, Option, none, some, List, [], ◌∷◌, ltb, leb, ◌==◌, Bool-cases, ==→≡, length, drop,
  length-drop, arith,
}
use mathlib.Core.Path.{subst}
use tortor.Prelude.Words.{u64_mod, u32_mod, div_ceil}
use tortor.Prelude.Result.{Result, ok, err}
use tortor.Selection.{TorrentFile}
use tortor.Pex.{chunks_exact, chunks_loop}
use tortor.Torrent
use tortor.Torrent.{
  TorrentMeta, Chars, PathError, saturating_sum, sanitize_path_component, build_file_path,
}
use tortor.Torrent.Paths.{IsSafe, sanitize_path_component-IsSafe}
use tortor.Torrent.Pieces.{IsTiled}
use tortor.Bencode.Meta.{
  RawInfo, MetaError, max_piece_length, checked_file, checked_sum, total_of, meta_of, with_name,
  build_meta,
}

-- A length that the decoder read is a 64-bit word.
abbrev pub IsWord : Option ℕ → Type 0
IsWord none = Unit
IsWord (some n) = n < u64_mod

checked_sum-some :
    (windows : Bool) (name : Chars) (files : List TorrentFile) (acc total : ℕ)
    → checked_sum windows name files acc ≡ ok total
    → acc < u64_mod
    → (saturating_sum acc files ≡ total) × (total < u64_mod)
unfolding checked_sum
checked_sum-some windows name [] acc total e lt =
    let same : acc ≡ total = ground (arith, e) in (same, omega arith)
checked_sum-some windows name (file ∷ files) acc total e lt =
    by_path (build_file_path windows name true file.path) e (checked_sum-some windows name files)
  where
    by_path :
        (r : Result PathError (List Chars))
        → checked_file r (acc + file.length) (checked_sum windows name files) ≡ ok total
        → ((acc' total' : ℕ)
            → checked_sum windows name files acc' ≡ ok total'
            → acc' < u64_mod
            → (saturating_sum acc' files ≡ total') × (total' < u64_mod))
        → (saturating_sum (min (acc + file.length) (u64_mod - 1)) files ≡ total) × (total < u64_mod)
    by_path (err x) e ih = absurd (unfold checked_file in ground (arith, e))
    by_path (ok path) e ih =
        unfold checked_file in
        elim (Bool-cases (leb u64_mod (acc + file.length))) [
          | inl over ↦ absurd (ground (arith, e, over))
          | inr fits ↦
              let rest =
                ih (acc + file.length) total (ground (arith, e, fits)) (ground (arith, fits)) in
              let exact : min (acc + file.length) (u64_mod - 1) ≡ acc + file.length =
                ground (arith, fits) in
              (ap (λ n. saturating_sum n files) exact ∙ rest.0, rest.1)
        ]

-- The total that `build_meta` checks is the one that `TorrentMeta::new` stores.
total_of-some :
    (windows : Bool) (name : Chars) (len : Option ℕ) (files : Option (List TorrentFile)) (total : ℕ)
    → IsWord len
    → total_of windows name len files ≡ ok total
    → (elim len as (λ _. Option ℕ) [
      | some n ↦ some n
      | none ↦ elim files as (λ _. Option ℕ) [ none ↦ none | some fs ↦ some (saturating_sum 0 fs) ]
    ]
        ≡ some total)
      × (total < u64_mod)
unfolding total_of
total_of-some windows name (some n) none total w e =
    let same : n ≡ total = ground (arith, e) in (ap some same, omega arith)
total_of-some windows name none (some []) total w e = absurd (ground (arith, e))
total_of-some windows name none (some (file ∷ files)) total w e =
    let sum = checked_sum-some windows name (file ∷ files) 0 total e (omega arith) in
    (ap some sum.0, sum.1)
total_of-some windows name none none total w e = absurd (ground (arith, e))
total_of-some windows name (some n) (some files) total w e = absurd (ground (arith, e))

chunks_loop-twenty :
    (f : ℕ) (bytes : List ℕ)
    → length bytes ≤ f
    → length (chunks_loop f 20 bytes) ≡ length bytes / 20
unfolding chunks_loop
chunks_loop-twenty zero bytes h = omega arith
chunks_loop-twenty (suc f) bytes h = elim (Bool-cases (leb 20 (length bytes))) [
  | inl whole ↦
      let ih = chunks_loop-twenty f (drop 20 bytes) (omega (arith, length-drop 20 bytes)) in
      ground (arith, whole, ih, length-drop 20 bytes)
  | inr short ↦ ground (arith, short)
]

-- What is known of an accepted torrent.
pub record IsAccepted (m : TorrentMeta) : Type 0 where
  pub total : ℕ
  pub some_data : 0 < total
  pub tiled : IsTiled m total
  pub safe_name : IsSafe m.name
  pub bounded : m.piece_length ≤ max_piece_length

meta_of-IsAccepted :
    (announce name : Chars) (info : RawInfo) (info_hash : List ℕ) (r : Result MetaError ℕ)
    (m : TorrentMeta)
    → IsSafe name
    → 0 < info.piece_length
    → info.piece_length ≤ max_piece_length
    → ((total : ℕ)
        → r ≡ ok total
        → (elim info.length as (λ _. Option ℕ) [
          | some n ↦ some n
          | none ↦ elim info.files as (λ _. Option ℕ) [
            | none ↦ none
            | some fs ↦ some (saturating_sum 0 fs)
          ]
        ]
            ≡ some total)
          × (total < u64_mod))
    → meta_of announce name info info_hash r ≡ ok m
    → IsAccepted m
unfolding meta_of Torrent.new chunks_exact
meta_of-IsAccepted announce name info info_hash (err x) m safe pos small totals e =
    absurd (ground (arith, e))
meta_of-IsAccepted announce name info info_hash (ok total) m safe pos small totals e =
    elim (Bool-cases (total == 0)) [
      | inl empty ↦ absurd (ground (arith, e, empty))
      | inr data_there ↦
          elim (Bool-cases (div_ceil total info.piece_length == length info.pieces / 20)) [
            | inr other ↦ absurd (ground (arith, e, data_there, other))
            | inl same_count ↦
                let is_m : Torrent.new announce name info.piece_length
                      (length (chunks_exact 20 info.pieces) % u32_mod) (chunks_exact 20 info.pieces)
                      info.length info.files info_hash
                    ≡ m =
                  ground (arith, e, data_there, same_count) in
                subst IsAccepted is_m (record {
                  total = total;
                  some_data = ground (arith, data_there);
                  tiled = record {
                    is_total = (totals total refl).0;
                    word = (totals total refl).1;
                    positive = pos;
                    count =
                        chunks_loop-twenty (length info.pieces) info.pieces (omega arith)
                        ∙ sym (==→≡ _ _ same_count);
                  };
                  safe_name = safe;
                  bounded = small;
                })
          ]
    ]

-- If `build_meta` accepts an info dictionary with a 64-bit length, the torrent has data, a piece
-- length within the limit, one hash for each piece of its data, and a name that is safe as a
-- directory.
pub build_meta-IsAccepted :
    (windows : Bool) (announce : Chars) (info : RawInfo) (info_hash : List ℕ) (m : TorrentMeta)
    → IsWord info.length
    → build_meta windows announce info info_hash ≡ ok m
    → IsAccepted m
unfolding build_meta
build_meta-IsAccepted windows announce info info_hash m w e =
    elim (Bool-cases (length info.pieces % 20 == 0)) [
      | inr odd ↦ absurd (ground (arith, e, odd))
      | inl whole ↦
          elim (Bool-cases (info.piece_length == 0 || ltb max_piece_length info.piece_length)) [
            | inl bad ↦ absurd (ground (arith, e, whole, bad))
            | inr good ↦
                by_name (sanitize_path_component windows info.name) (ground (arith, good))
                  (ground (arith, good)) (sanitize_path_component-IsSafe windows info.name)
                  (ground (arith, e, whole, good))
          ]
    ]
  where
    by_name :
        (r : Result PathError Chars)
        → 0 < info.piece_length
        → info.piece_length ≤ max_piece_length
        → ((s : Chars) → r ≡ ok s → IsSafe s)
        → with_name windows announce info info_hash r ≡ ok m
        → IsAccepted m
    by_name (err x) pos small safe e = absurd (unfold with_name in ground (arith, e))
    by_name (ok name) pos small safe e =
        unfold with_name in
        meta_of-IsAccepted announce name info info_hash
          (total_of windows name info.length info.files) m (safe name refl) pos small
          (λ total h. total_of-some windows name info.length info.files total w h) e
