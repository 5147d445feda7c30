-- ===== src/Assembler/Keeps.antt =====
-- `add_block` on every branch, and that it keeps the invariant.
use mathlib.Core.Path.{subst}
use tortor.Prelude.{
  ℕ, ◌+◌, ◌%◌, ◌≤◌, ◌≡◌, refl, sym, ap, ◌∙◌, inl, inr, Bool, true, false, ◌&&◌, List, [], ◌∷◌,
  if◌then◌else◌, ltb, ◌==◌, Bool-cases, Bool-ext, ==_iff, ==→≡, length as list_length, overwrite,
  arith,
}
use tortor.Prelude.Words.{u32_mod}
use tortor.Prelude.Index.{length-overwrite}
use tortor.Assembler.{
  BlockRequest, PieceAssembler, AssemblerState, AssemblerError, in_progress, complete, error,
  exceeds_boundary, unexpected_block, BlockClass, expected_new, duplicate, unexpected, Found,
  missing, already, marked, found_under, mark_block, store_block, on_found, add_block,
  classify_loop, classify_block,
}
use tortor.Assembler.Tiling.{Tiles, done_bytes, all_done, IsValid, done_bytes-le, done_bytes_iff}

-- `bs'` is `bs` with one block marked complete, that of `begin` and `len`, which was not.
pub data Marks (begin len : ℕ) : List BlockRequest → List BlockRequest → Type 0 where
  here :
      (b : BlockRequest) (bs : List BlockRequest)
      → b.begin ≡ begin
      → b.length ≡ len
      → b.completed ≡ false
      → Marks begin len (b ∷ bs) (record b { completed = true } ∷ bs)
  there :
      (b : BlockRequest) {bs bs' : List BlockRequest}
      → Marks begin len bs bs'
      → Marks begin len (b ∷ bs) (b ∷ bs')

pub mark_block-Marks :
    (begin len : ℕ) (bs bs' : List BlockRequest)
    → mark_block begin len bs ≡ marked bs'
    → Marks begin len bs bs'
unfolding mark_block
mark_block-Marks begin len [] bs' e = cc
mark_block-Marks begin len (b ∷ bs) bs' e =
    elim (Bool-cases (b.begin == begin && b.length == len)) [
      | inl hit ↦ elim (Bool-cases b.completed) [
        | inl c ↦ cc (hit_step (b.completed) hit refl ∙ e, c)
        | inr c ↦
            let same : record b { completed = true } ∷ bs ≡ bs' =
              cc (hit_step b.completed hit refl ∙ e, c) in
            subst (Marks begin len (b ∷ bs)) same
              (here b bs (ground (arith, hit)) (ground (arith, hit)) c)
      ]
      | inr miss ↦
          let step : mark_block begin len (b ∷ bs) ≡ found_under b (mark_block begin len bs) =
            rw miss in
          under (mark_block begin len bs) refl (sym step ∙ e)
            (λ bs' e. mark_block-Marks begin len bs bs' e)
    ]
  where
    hit_step :
        (c : Bool)
        → (b.begin == begin && b.length == len) ≡ true
        → b.completed ≡ c
        → (if c then already else marked (record b { completed = true } ∷ bs))
          ≡ mark_block begin len (b ∷ bs)
    hit_step c hit e = rw (hit, e)

    under :
        (f : Found)
        → mark_block begin len bs ≡ f
        → found_under b f ≡ marked bs'
        → ((bs' : List BlockRequest)
            → mark_block begin len bs ≡ marked bs'
            → Marks begin len bs bs')
        → Marks begin len (b ∷ bs) bs'
    under missing r e ih = cc
    under already r e ih = cc
    under (marked rest) r e ih =
        let same : b ∷ rest ≡ bs' = cc in
        subst (Marks begin len (b ∷ bs)) same (there b (ih rest r))

pub Marks-Tiles :
    {begin len : ℕ} {bs bs' : List BlockRequest} (from to : ℕ)
    → Marks begin len bs bs'
    → Tiles from bs to
    → Tiles from bs' to
Marks-Tiles from to (here b bs e l c) t = t
Marks-Tiles from to (there b m) t = (t.0, t.1, Marks-Tiles _ to m t.2)

pub Marks-done_bytes :
    {begin len : ℕ} {bs bs' : List BlockRequest}
    → Marks begin len bs bs'
    → done_bytes bs' ≡ done_bytes bs + len
Marks-done_bytes (here b bs e l c) = ground arith
Marks-done_bytes (there b m) = omega (arith, Marks-done_bytes m)

abbrev class_of : Found → BlockClass
class_of missing = unexpected
class_of already = duplicate
class_of (marked bs) = expected_new

-- The search classifies as `classify_block` does.
pub mark_block-classify_loop :
    (begin len : ℕ) (bs : List BlockRequest)
    → classify_loop begin len bs ≡ class_of (mark_block begin len bs)
unfolding mark_block classify_loop
mark_block-classify_loop begin len [] = refl
mark_block-classify_loop begin len (b ∷ bs) = ground (arith, mark_block-classify_loop begin len bs)

module _ (a : PieceAssembler) (begin : ℕ) (block : List ℕ) (v : IsValid a)
    (fits : begin + list_length block ≤ a.expected_length) where
  -- Within the piece a length is its own 32-bit word.
  pub block_word : list_length block % u32_mod ≡ list_length block
  block_word = omega (arith, v.word)

  pub received-store_block :
      (bs' : List BlockRequest)
      → Marks begin (list_length block) a.blocks bs'
      → (store_block a begin block bs').1.received_bytes ≡ done_bytes bs'
  unfolding store_block
  received-store_block bs' m = omega (
    arith,
    v.word,
    v.received,
    Marks-done_bytes m,
    done_bytes-le bs' 0 a.expected_length (Marks-Tiles 0 a.expected_length m v.tiles),
  )

  store_block-IsValid :
      (bs' : List BlockRequest)
      → Marks begin (list_length block) a.blocks bs'
      → IsValid (store_block a begin block bs').1
  unfolding store_block
  store_block-IsValid bs' m = record {
    word = v.word;
    size = length-overwrite begin block a.buffer (omega (arith, v.size)) ∙ v.size;
    tiles = Marks-Tiles 0 a.expected_length m v.tiles;
    received = received-store_block bs' m;
  }

  on_found-IsValid :
      (f : Found)
      → mark_block begin (list_length block % u32_mod) a.blocks ≡ f
      → IsValid (on_found a begin block f).1
  unfolding on_found
  on_found-IsValid missing e = v
  on_found-IsValid already e = v
  on_found-IsValid (marked bs') e =
      store_block-IsValid bs'
        (mark_block-Marks begin (list_length block) a.blocks bs' (rw block_word at e))

-- Whatever is added, a well-formed assembler stays well formed.
pub add_block-IsValid :
    (a : PieceAssembler) (begin : ℕ) (block : List ℕ)
    → IsValid a
    → IsValid (add_block a begin block).1
unfolding add_block
add_block-IsValid a begin block v =
    elim (Bool-cases (ltb a.expected_length (begin + list_length block))) [
      | inl out ↦ rw out v
      | inr fits ↦ rw fits (on_found-IsValid a begin block v (ground arith) _ refl)
    ]

-- `add_block` agrees with `classify_block`: it reports an error exactly for a block that is
-- unexpected and ignores a duplicate, both without a change; it stores a new block, and the piece
-- is complete exactly when every block is.
pub data Classified (a : PieceAssembler) (begin : ℕ) (block : List ℕ)
    : BlockClass → AssemblerState × PieceAssembler → Type 0 where
  rejected : (e : AssemblerError) → Classified a begin block unexpected (error e, a)
  ignored : Classified a begin block duplicate (in_progress, a)
  stored :
      {a' : PieceAssembler} {s : AssemblerState}
      → begin + list_length block ≤ a.expected_length
      → a'.expected_length ≡ a.expected_length
      → Marks begin (list_length block) a.blocks a'.blocks
      → a'.buffer ≡ overwrite begin block a.buffer
      → s ≡ (if all_done a'.blocks then complete a'.buffer else in_progress)
      → Classified a begin block expected_new (s, a')

on_found-Classified :
    (a : PieceAssembler) (begin : ℕ) (block : List ℕ)
    → IsValid a
    → begin + list_length block ≤ a.expected_length
    → (f : Found) → mark_block begin (list_length block % u32_mod) a.blocks ≡ f
    → Classified a begin block (class_of f) (on_found a begin block f)
unfolding on_found store_block
on_found-Classified a begin block v fits missing e = rejected unexpected_block
on_found-Classified a begin block v fits already e = ignored
on_found-Classified a begin block v fits (marked bs') e =
    let m =
      mark_block-Marks begin (list_length block) a.blocks bs'
        (rw (block_word a begin block v fits) at e) in
    let r = received-store_block a begin block v fits bs' m in
    let full = done_bytes_iff bs' 0 a.expected_length (Marks-Tiles 0 a.expected_length m v.tiles) in
    stored fits refl m refl (
      ap (λ c. if c then complete (overwrite begin block a.buffer) else in_progress)
        (Bool-ext _ _ (λ h. full.0 (omega (arith, ==→≡ _ _ h, r)))
          (λ h. (==_iff _ _).1 (omega (arith, r, full.1 h)))))

-- On a well-formed assembler `add_block` agrees with `classify_block`: an unexpected block is an
-- error and a duplicate is passed over, both without a change; an expected one is marked complete,
-- written to its place, and ends the piece exactly when every block is complete.
pub add_block-Classified :
    (a : PieceAssembler) (begin : ℕ) (block : List ℕ)
    → IsValid a
    → Classified a begin block
        (classify_block a begin (list_length block))
        (add_block a begin block)
unfolding add_block classify_block
add_block-Classified a begin block v =
    elim (Bool-cases (ltb a.expected_length (begin + list_length block))) [
      | inl out ↦ rw out (rejected exceeds_boundary)
      | inr inside ↦
          let fits : begin + list_length block ≤ a.expected_length = ground arith in
          rw (inside, mark_block-classify_loop begin (list_length block) a.blocks)
            (subst
              (λ n.
                Classified a begin block (class_of (mark_block begin n a.blocks)) (
                  on_found a begin block (mark_block begin (list_length block % u32_mod) a.blocks)))
              (block_word a begin block v fits) (on_found-Classified a begin block v fits _ refl))
    ]
