-- ===== src/Session/Errors.antt =====
-- Why a message of a peer ends a session: the errors of `handle_message` in src/net/session.rs.
use tortor.Prelude.{
  ℕ, ◌≤◌, ◌<◌, ◌≡◌, refl, sym, inl, inr, true, false, Option, none, some, List, [], ◌∷◌, ◌%◌, ◌⊎◌,
  ◌==◌, length, list_eq, list_eq_refl, ◌+◌, ◌*◌, ◌-◌, if◌then◌else◌, Bool-cases, ltb, leb, min,
  arith,
}
use mathlib.Core.Path.{subst}
use tortor.Prelude.Words.{u32_mod, u64_mod}
use tortor.Prelude.Result.{Result, ok, err}
use tortor.Bitfield
use tortor.Bitfield.{Bitfield}
use tortor.Assembler.{
  PieceAssembler, AssemblerState, AssemblerError, in_progress, complete, error, BlockClass,
  expected_new, duplicate, unexpected, classify_block, add_block,
}
use tortor.Assembler.Tiling as Pieces
use tortor.Assembler.Keeps.{Classified, rejected, ignored, stored, add_block-Classified}
use tortor.Bencode.{BencodeError}
use tortor.Bencode.Parse.{check_bencode_depth}
use tortor.Swarm.{peer_progress}
use tortor.Wire
use tortor.Wire.{PeerMessage}
use tortor.Session.{
  UploadSlots, PeerContext, Libraries, Job, PeerSession, Answers, SessionError, coordinator_gone,
  write_failed, have_out_of_range, malformed_bitfield, invalid_request, hash_mismatch, fails,
  Effect, hashing_failed, piece_len_at, downloaded, notify,
}
use tortor.Session.Slots.{try_unchoke, choke}
use tortor.Session.Work.{handle_piece, classify, on_class, added, check_piece}
use tortor.Session.Messages.{
  fits, is_request_valid, answer, handle_request, on_have, on_bitfield, on_extended,
  handle_extended, handle_message,
}
use tortor.Bitfield.Valid as Fields
use tortor.Bitfield.Members.{from_wire_iff}
use tortor.Session.Cause.{OutOfPiece, HasOtherHash, WrongPiece, Cause, JobSound, IsShort}

-- The errors of a write, of a message to the coordinator, and of the task that hashes a piece.
abbrev Unsent : Answers → SessionError → Type 0
Unsent w e = (e ≡ write_failed) × (w.sent ≡ false)

abbrev Gone : Answers → SessionError → Type 0
Gone w e = (e ≡ coordinator_gone) × (w.coordinator_there ≡ false)

abbrev Lost : Answers → SessionError → Type 0
Lost w e = Gone w e ⊎ ((e ≡ hashing_failed) × (w.hashed ≡ false))

-- A range that ends outside of what `piece_len_at` finds.
out_of_piece :
    (piece_length : ℕ) (o : Option ℕ) (index end : ℕ)
    → fits end (elim o [
      | none ↦ some piece_length
      | some total ↦
          let start = index * piece_length in
          if leb u64_mod start
          then none
          else if leb total start
          then none
          else some (min piece_length (total - start))
    ])
      ≡ false
    → OutOfPiece piece_length o index end
out_of_piece piece_length none index end h = ground (arith, h)
out_of_piece piece_length (some total) index end h =
    elim (Bool-cases (leb u64_mod (index * piece_length))) [
      | inl over ↦ inl (ground (arith, over))
      | inr fine ↦ elim (Bool-cases (leb total (index * piece_length))) [
        | inl behind ↦ inr (inl (ground (arith, behind)))
        | inr inside ↦
            let over : leb end (min piece_length (total - index * piece_length)) ≡ false =
              simp (fine, inside) at h in
            inr (inr (ground (arith, over, inside)))
      ]
    ]

module _ (lib : Libraries) (ctx : PeerContext) (w : Answers) (e : SessionError) where
  try_unchoke-error :
      (s : PeerSession) (slots : UploadSlots)
      → (try_unchoke w s slots).status ≡ fails e
      → Unsent w e
  unfolding try_unchoke
  try_unchoke-error s slots h = (ground (arith, h), ground (arith, h))

  choke-error :
      (s : PeerSession) (slots : UploadSlots) → (choke w s slots).status ≡ fails e → Unsent w e
  unfolding choke
  choke-error s slots h = (ground (arith, h), ground (arith, h))

  answer-error :
      (index begin len : ℕ) (o : Option (List ℕ)) (s : PeerSession) (slots : UploadSlots)
      → (answer w index begin len o s slots).status ≡ fails e
      → Unsent w e
  unfolding answer
  answer-error index begin len none s slots h = (ground (arith, h), ground (arith, h))
  answer-error index begin len (some block) s slots h = (ground (arith, h), ground (arith, h))

  handle_request-error :
      (index begin len : ℕ) (s : PeerSession) (slots : UploadSlots)
      → (handle_request ctx w index begin len s slots).status ≡ fails e
      → ((e ≡ invalid_request)
          × (s.am_choking ≡ false)
          × (is_request_valid ctx index begin len ≡ false))
        ⊎ (Gone w e ⊎ Unsent w e)
  unfolding handle_request
  handle_request-error index begin len s slots h =
      ground (arith, h, answer-error index begin len w.block s slots)

  check_piece-error :
      (j : Job) (buffer : List ℕ) (s : PeerSession) (slots : UploadSlots) (es : List Effect)
      → (check_piece lib w j buffer s slots es).status ≡ fails e
      → ((e ≡ hash_mismatch) × (lib.hash_piece buffer ≡ j.expected_hash → ⊥)) ⊎ Lost w e
  unfolding check_piece
  check_piece-error j buffer s slots es h =
      let which : ((e ≡ hash_mismatch) × (list_eq (lib.hash_piece buffer) j.expected_hash ≡ false))
          ⊎ Lost w e =
        ground (arith, h) in
      elim which [
        | inl (same, other) ↦ inl (
          same,
          λ is_same.
              let equal : list_eq (lib.hash_piece buffer) j.expected_hash ≡ true =
                subst (λ h. list_eq (lib.hash_piece buffer) h ≡ true) is_same
                  (list_eq_refl (lib.hash_piece buffer)) in
              cc (equal, other),
        )
        | inr lost ↦ inr lost
      ]

  -- With a part that the assembler takes.
  added-error :
      (j : Job) (r : AssemblerState) (n : ℕ) (s : PeerSession) (slots : UploadSlots)
      → ((x : AssemblerError) → r ≡ error x → ⊥)
      → (added lib ctx w n r j s slots).status ≡ fails e
      → ((e ≡ hash_mismatch) × HasOtherHash lib j.expected_hash r) ⊎ Lost w e
  unfolding added
  added-error j in_progress n s slots fine h = absurd (cc h)
  added-error j (error x) n s slots fine h = absurd (fine x refl)
  added-error j (complete buffer) n s slots fine h =
      check_piece-error j buffer (record s { job = none }) slots
        (downloaded n ∷ notify (peer_progress ctx.peer_addr n) ∷ []) h

  on_class-error :
      (begin : ℕ) (block : List ℕ) (c : BlockClass) (j : Job) (s : PeerSession)
      (slots : UploadSlots)
      → (c ≡ expected_new
          → (x : AssemblerError) → (add_block j.assembler begin block).0 ≡ error x
          → ⊥)
      → (on_class lib ctx w begin block c (some j) s slots).status ≡ fails e
      → ((c ≡ expected_new)
          × (e ≡ hash_mismatch)
          × HasOtherHash lib j.expected_hash (add_block j.assembler begin block).0)
        ⊎ Lost w e
  unfolding on_class
  on_class-error begin block duplicate j s slots fine h = absurd (cc h)
  on_class-error begin block unexpected j s slots fine h = absurd (cc h)
  on_class-error begin block expected_new j s slots fine h =
      elim (added-error
        (record j { assembler = (add_block j.assembler begin block).1; last_block = w.now })
        (add_block j.assembler begin block).0 (length block) (record s { last_useful = w.now })
        slots (fine refl) h) [ inl wrong ↦ inl (refl, wrong.0, wrong.1) | inr gone ↦ inr gone ]

  -- A part that is expected is not refused by the assembler.
  never_refused :
      (begin : ℕ) (block : List ℕ) (a : PieceAssembler)
      → Pieces.IsValid a
      → classify_block a begin (length block) ≡ expected_new
      → (x : AssemblerError) → (add_block a begin block).0 ≡ error x
      → ⊥
  never_refused begin block a v c x h =
      by_class (classify_block a begin (length block)) (add_block a begin block)
        (add_block-Classified a begin block v) c h
    where
      by_class :
          (c : BlockClass) (r : AssemblerState × PieceAssembler)
          → Classified a begin block c r
          → c ≡ expected_new
          → r.0 ≡ error x
          → ⊥
      by_class _ _ (rejected y) c h = cc c
      by_class _ _ ignored c h = cc c
      by_class _ _ (stored fits len m b s) c h = ground (arith, s, h)

  classify_expected :
      (j : Job) (index begin : ℕ) (block : List ℕ)
      → length block < u32_mod
      → classify (some j) index begin block ≡ expected_new
      → ((j.index == index) ≡ true)
        × (classify_block j.assembler begin (length block) ≡ expected_new)
  unfolding classify
  classify_expected j index begin block short c =
      let whole : length block % u32_mod ≡ length block = omega (arith, short) in
      (ground (arith, c), ground (arith, c, whole))

  piece_error :
      (o : Option Job) (index begin : ℕ) (block : List ℕ) (s : PeerSession) (slots : UploadSlots)
      → JobSound o
      → length block < u32_mod
      → (on_class lib ctx w begin block (classify o index begin block) o s slots).status ≡ fails e
      → ((e ≡ hash_mismatch) × WrongPiece lib o (Wire.piece index begin block)) ⊎ Lost w e
  unfolding on_class classify
  piece_error none index begin block s slots sound short h = absurd (cc h)
  piece_error (some j) index begin block s slots sound short h =
      elim (on_class-error begin block (classify (some j) index begin block) j s slots
        (λ c.
          never_refused begin block j.assembler sound
            (classify_expected j index begin block short c).1)
        h) [
          | inl wrong ↦
              inl (wrong.1, ((classify_expected j index begin block short wrong.0).0, wrong.2))
          | inr gone ↦ inr gone
        ]

  bad_request :
      (index begin len : ℕ)
      → is_request_valid ctx index begin len ≡ false
      → (len ≡ 0)
        ⊎ ((32768 < len) ⊎ OutOfPiece ctx.piece_length ctx.total_length index (begin + len))
  unfolding is_request_valid piece_len_at
  bad_request index begin len h = elim (Bool-cases (ltb 0 len)) [
    | inr empty ↦ inl (ground (arith, empty))
    | inl some_bytes ↦ elim (Bool-cases (leb len 32768)) [
      | inr long ↦ inr (inl (ground (arith, long)))
      | inl short ↦ inr (
          inr (
            out_of_piece ctx.piece_length ctx.total_length index (begin + len)
              (simp (some_bytes, short) at h)))
    ]
  ]

  malformed :
      (len : ℕ) (payload : List ℕ)
      → Bitfield.from_wire len payload ≡ none
      → Fields.IsValid (record { bytes = payload; len = len })
      → ⊥
  malformed len payload h v =
      let accepted =
        (from_wire_iff len payload (record { bytes = payload; len = len }) v.are_bytes).1
          (refl, v) in
      cc (accepted, h)

  on_bitfield-error :
      (o : Option Bitfield) (s : PeerSession) (slots : UploadSlots)
      → (on_bitfield w o s slots).status ≡ fails e
      → (e ≡ malformed_bitfield) × (o ≡ none)
  unfolding on_bitfield
  on_bitfield-error none s slots h = (cc h, refl)
  on_bitfield-error (some f) s slots h = absurd (cc h)

  on_have-error :
      (index : ℕ) (s : PeerSession) (slots : UploadSlots)
      → (on_have w index s slots).status ≡ fails e
      → (e ≡ have_out_of_range) × (s.have_pieces.len ≤ index)
  unfolding on_have
  on_have-error index s slots h = (ground (arith, h), ground (arith, h))

  on_extended-no_error :
      (id : ℕ) (payload : List ℕ) (r : Result BencodeError Unit) (s : PeerSession)
      (slots : UploadSlots)
      → (on_extended lib id payload r s slots).status ≡ fails e
      → ⊥
  unfolding on_extended
  on_extended-no_error id payload (ok u) s slots h = ground (arith, h)
  on_extended-no_error id payload (err x) s slots h = cc h

  caused :
      (s : PeerSession) (m : PeerMessage) (x : SessionError)
      → e ≡ x
      → Cause lib ctx w s m x
      → Cause lib ctx w s m e
  caused s m x same c = subst (Cause lib ctx w s m) (sym same) c

  caused_outside :
      (s : PeerSession) (m : PeerMessage) → Gone w e ⊎ Unsent w e → Cause lib ctx w s m e
  caused_outside s m (inl gone) = caused s m coordinator_gone gone.0 gone.1
  caused_outside s m (inr unsent) = caused s m write_failed unsent.0 unsent.1

  -- A message ends a session with an error only if a write fails, the coordinator is gone, a HAVE is
  -- out of range, a BITFIELD has another size or a spare bit, a REQUEST that is not choked asks for
  -- nothing, for more than 32768 bytes or for bytes outside its piece, the task that hashes a piece
  -- fails, or a part completes the piece of the job with another hash than the expected one. Here
  -- the job's assembler is well formed and a part of a piece is shorter than 2^32 bytes.
  pub handle_message-Cause :
      (m : PeerMessage) (s : PeerSession) (slots : UploadSlots)
      → JobSound s.job
      → IsShort m
      → (handle_message lib ctx w m s slots).status ≡ fails e
      → Cause lib ctx w s m e
  unfolding handle_message
  handle_message-Cause Wire.keep_alive s slots sound short h = absurd (cc h)
  handle_message-Cause Wire.choke s slots sound short h = absurd (cc h)
  handle_message-Cause Wire.unchoke s slots sound short h = absurd (cc h)
  handle_message-Cause Wire.interested s slots sound short h =
      caused_outside s Wire.interested
        (inr (try_unchoke-error (record s { peer_interested = true }) slots h))
  handle_message-Cause Wire.not_interested s slots sound short h =
      caused_outside s Wire.not_interested
        (inr (choke-error (record s { peer_interested = false }) slots h))
  handle_message-Cause (Wire.have index) s slots sound short h =
      let out = on_have-error index s slots h in
      caused s (Wire.have index) have_out_of_range out.0 out.1
  handle_message-Cause (Wire.bitfield payload) s slots sound short h =
      let wrong = on_bitfield-error (Bitfield.from_wire s.have_pieces.len payload) s slots h in
      caused s (Wire.bitfield payload) malformed_bitfield wrong.0
        (malformed s.have_pieces.len payload wrong.1)
  handle_message-Cause (Wire.extended id payload) s slots sound short h = absurd (
      on_extended-no_error id payload (check_bencode_depth payload) s slots
        (unfold handle_extended in h))
  handle_message-Cause (Wire.request index begin len) s slots sound short h =
      elim (handle_request-error index begin len s slots h) [
        | inl bad ↦
            caused s (Wire.request index begin len) invalid_request bad.0
              (bad.1, bad_request index begin len bad.2)
        | inr outside ↦ caused_outside s (Wire.request index begin len) outside
      ]
  handle_message-Cause (Wire.piece index begin block) s slots sound short h =
      elim (piece_error s.job index begin block s slots sound short (unfold handle_piece in h)) [
        | inl wrong ↦ caused s (Wire.piece index begin block) hash_mismatch wrong.0 wrong.1
        | inr (inl gone) ↦ caused_outside s (Wire.piece index begin block) (inl gone)
        | inr (inr lost) ↦ caused s (Wire.piece index begin block) hashing_failed lost.0 lost.1
      ]
