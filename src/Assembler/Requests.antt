-- ===== src/Assembler/Requests.antt =====
-- Which blocks are requested: `next_request`, `reset_requests` and `in_flight_count`.
use tortor.Prelude.{
  ℕ, suc, ◌+◌, ◌≡◌, ◌⊎◌, refl, sym, ap, ◌∙◌, inl, inr, Bool, not, ltb, ◌&&◌, ◌-◌, true, false,
  Option, none, some, List, [], ◌∷◌, if◌then◌else◌, Bool-cases, length as list_length, filterb, map,
  arith,
}
use tortor.Assembler.{
  BlockRequest, PieceAssembler, due, in_flight, in_flight_count, request_loop, hand_out,
  next_request, reset_requests,
}
use tortor.Assembler.Tiling.{Tiles, done_bytes, IsValid}

-- A block that is not complete is due if it was never asked for, or if its last request is older
-- than the timeout.
abbrev pub is_due : ℕ → ℕ → BlockRequest → Bool
is_due now timeout b =
    not b.completed && (elim b.requested_at [ none ↦ true | some t ↦ ltb timeout (now - t) ])

-- How many blocks are due at an instant.
abbrev pub due_count : ℕ → ℕ → List BlockRequest → ℕ
due_count now timeout bs = list_length (filterb (is_due now timeout) bs)

-- A request that the loop hands out: it is for a block of the piece that is not complete, and it is
-- a retry exactly when the block was requested before.
abbrev pub Requested : ℕ → ℕ → Bool → List BlockRequest → Type 0
Requested begin len retry [] = ⊥
Requested begin len retry (b ∷ bs) =
    ((b.begin ≡ begin)
      × (b.length ≡ len)
      × (b.completed ≡ false)
      × (b.requested_at ≡ none → retry ≡ false)
      × ((t : ℕ) → b.requested_at ≡ some t → retry ≡ true))
    ⊎ Requested begin len retry bs

pub loop_step :
    (now timeout : ℕ) (b : BlockRequest) (bs : List BlockRequest) (d : Option Bool)
    → due now timeout b ≡ d
    → request_loop now timeout (b ∷ bs) ≡ hand_out now b bs d (request_loop now timeout bs)
unfolding request_loop
loop_step now timeout b bs d e = ap (λ d. hand_out now b bs d (request_loop now timeout bs)) e

due_count_step :
    (now timeout : ℕ) (b : BlockRequest) (bs : List BlockRequest)
    → (due now timeout b ≡ none → due_count now timeout (b ∷ bs) ≡ due_count now timeout bs)
      × ((r : Bool)
          → due now timeout b ≡ some r
          → due_count now timeout (b ∷ bs) ≡ suc (due_count now timeout bs))
unfolding due
due_count_step now timeout b bs = (λ e. ground (arith, e), λ r e. ground (arith, e))

due-some :
    (now timeout : ℕ) (b : BlockRequest) (retry : Bool)
    → due now timeout b ≡ some retry
    → (b.completed ≡ false)
      × (b.requested_at ≡ none → retry ≡ false)
      × ((t : ℕ) → b.requested_at ≡ some t → retry ≡ true)
unfolding due
due-some now timeout b retry e = (ground arith, λ n. ground arith, λ t n. ground arith)

-- A block that was just requested is not due.
due_marked :
    (now timeout : ℕ) (b : BlockRequest)
    → due now timeout (record b { requested_at = some now }) ≡ none
unfolding due
due_marked now timeout b = ground arith

pub request_loop-none :
    (now timeout : ℕ) (bs : List BlockRequest)
    → (request_loop now timeout bs).0 ≡ none
    → (due_count now timeout bs ≡ 0) × ((request_loop now timeout bs).1 ≡ bs)
unfolding hand_out
request_loop-none now timeout [] e = (refl, unfold request_loop in refl)
request_loop-none now timeout (b ∷ bs) e =
    by_due (due now timeout b) refl e (request_loop-none now timeout bs)
  where
    by_due :
        (d : Option Bool)
        → due now timeout b ≡ d
        → (request_loop now timeout (b ∷ bs)).0 ≡ none
        → ((request_loop now timeout bs).0 ≡ none
            → (due_count now timeout bs ≡ 0) × ((request_loop now timeout bs).1 ≡ bs))
        → (due_count now timeout (b ∷ bs) ≡ 0) × ((request_loop now timeout (b ∷ bs)).1 ≡ b ∷ bs)
    by_due none d e ih =
        let step = loop_step now timeout b bs none d in
        let rest = ih (ap (λ r. r.0) (sym step) ∙ e) in
        (
          (due_count_step now timeout b bs).0 d ∙ rest.0,
          ap (λ r. r.1) step ∙ ap (λ l. b ∷ l) rest.1,
        )
    by_due (some r) d e ih = cc (ap (λ r. r.0) (loop_step now timeout b bs (some r) d), e)

request_loop-some :
    (now timeout : ℕ) (bs : List BlockRequest) (begin len : ℕ) (retry : Bool)
    → (request_loop now timeout bs).0 ≡ some (begin, len, retry)
    → (due_count now timeout (request_loop now timeout bs).1 + 1 ≡ due_count now timeout bs)
      × Requested begin len retry bs
unfolding hand_out
request_loop-some now timeout [] begin len retry e = unfold request_loop in cc
request_loop-some now timeout (b ∷ bs) begin len retry e =
    by_due (due now timeout b) refl e (request_loop-some now timeout bs begin len retry)
  where
    by_due :
        (d : Option Bool)
        → due now timeout b ≡ d
        → (request_loop now timeout (b ∷ bs)).0 ≡ some (begin, len, retry)
        → ((request_loop now timeout bs).0 ≡ some (begin, len, retry)
            → (due_count now timeout (request_loop now timeout bs).1 + 1 ≡ due_count now timeout bs)
              × Requested begin len retry bs)
        → (due_count now timeout (request_loop now timeout (b ∷ bs)).1 + 1
            ≡ due_count now timeout (b ∷ bs))
          × Requested begin len retry (b ∷ bs)
    by_due none d e ih =
        let step = loop_step now timeout b bs none d in
        let rest = ih (ap (λ r. r.0) (sym step) ∙ e) in
        (
          rw step (
              omega (
                arith,
                (due_count_step now timeout b bs).0 d,
                (due_count_step now timeout b (request_loop now timeout bs).1).0 d,
                rest.0,
              )),
          inr rest.1,
        )
    by_due (some r) d e ih =
        let step = loop_step now timeout b bs (some r) d in
        let same = ap (λ r. r.0) (sym step) ∙ e in
        let facts = due-some now timeout b r d in
        let is_r : r ≡ retry = cc same in
        (
          rw step (
              omega (
                arith,
                (due_count_step now timeout b bs).1 r d,
                (due_count_step now timeout (record b { requested_at = some now }) bs).0
                    (due_marked now timeout b),
              )),
          inl (cc same, cc same, facts.0, λ n. sym is_r ∙ facts.1 n, λ t n. sym is_r ∙ facts.2 t n),
        )

request_loop-Tiles :
    (now timeout : ℕ) (bs : List BlockRequest) (from to : ℕ)
    → Tiles from bs to
    → Tiles from (request_loop now timeout bs).1 to
      × (done_bytes (request_loop now timeout bs).1 ≡ done_bytes bs)
unfolding hand_out
request_loop-Tiles now timeout [] from to t = unfold request_loop in (t, refl)
request_loop-Tiles now timeout (b ∷ bs) from to t =
    by_due (due now timeout b) refl (request_loop-Tiles now timeout bs (from + b.length) to t.2)
  where
    by_due :
        (d : Option Bool)
        → due now timeout b ≡ d
        → Tiles (from + b.length) (request_loop now timeout bs).1 to
          × (done_bytes (request_loop now timeout bs).1 ≡ done_bytes bs)
        → Tiles from (request_loop now timeout (b ∷ bs)).1 to
          × (done_bytes (request_loop now timeout (b ∷ bs)).1 ≡ done_bytes (b ∷ bs))
    by_due none d ih =
        rw (loop_step now timeout b bs none d) ((t.0, t.1, ih.0), omega (arith, ih.1))
    by_due (some r) d ih = rw (loop_step now timeout b bs (some r) d) (t, refl)

-- What `next_request` returns: nothing, or a block with what is due then.
pub data NextRequest (a : PieceAssembler) (now timeout : ℕ)
    : Option (ℕ × ℕ × Bool) × PieceAssembler → Type 0 where
  idle : due_count now timeout a.blocks ≡ 0 → NextRequest a now timeout (none, a)
  handed :
      {begin len : ℕ} {retry : Bool} {a' : PieceAssembler}
      → Requested begin len retry a.blocks
      → due_count now timeout a'.blocks + 1 ≡ due_count now timeout a.blocks
      → a'.buffer ≡ a.buffer
      → NextRequest a now timeout (some (begin, len, retry), a')

-- A block is due if it is not complete and was never asked for, or last longer ago than the timeout.
-- `next_request` hands out a block that is not complete, as a retry exactly if it was requested
-- before, and one block less is due then; or no block is due, and nothing changes.
pub next_request-NextRequest :
    (a : PieceAssembler) (now timeout : ℕ) → NextRequest a now timeout (next_request a now timeout)
unfolding next_request
next_request-NextRequest a now timeout = by_result (request_loop now timeout a.blocks).0 refl
  where
    by_result :
        (r : Option (ℕ × ℕ × Bool))
        → (request_loop now timeout a.blocks).0 ≡ r
        → NextRequest a now timeout (next_request a now timeout)
    by_result none e =
        let facts = request_loop-none now timeout a.blocks e in rw (e, facts.1) (idle facts.0)
    by_result (some (begin, len, retry)) e =
        let facts = request_loop-some now timeout a.blocks begin len retry e in
        rw e (handed facts.1 facts.0 refl)

pub next_request-IsValid :
    (a : PieceAssembler) (now timeout : ℕ) → IsValid a → IsValid (next_request a now timeout).1
unfolding next_request
next_request-IsValid a now timeout v =
    let t = request_loop-Tiles now timeout a.blocks 0 a.expected_length v.tiles in
    record { word = v.word; size = v.size; tiles = t.0; received = v.received ∙ sym t.1 }

reset-Tiles :
    (bs : List BlockRequest) (from to : ℕ)
    → Tiles from bs to
    → let bs' =
        map
          (λ (b : BlockRequest). if b.completed then b else record b { requested_at = none })
          bs in
      Tiles from bs' to × (done_bytes bs' ≡ done_bytes bs)
reset-Tiles [] from to t = (t, refl)
reset-Tiles (b ∷ bs) from to t =
    let ih = reset-Tiles bs (from + b.length) to t.2 in
    elim (Bool-cases b.completed) [
      | inl c ↦ rw c ((t.0, t.1, ih.0), omega (arith, ih.1))
      | inr c ↦ rw c ((t.0, t.1, ih.0), omega (arith, ih.1))
    ]

reset-in_flight :
    (now timeout : ℕ) (bs : List BlockRequest)
    → list_length (
        filterb (in_flight now timeout) (
          map
            (λ (b : BlockRequest). if b.completed then b else record b { requested_at = none })
            bs))
      ≡ 0
reset-in_flight now timeout [] = refl
reset-in_flight now timeout (b ∷ bs) = ground (arith, reset-in_flight now timeout bs)

-- After a choke nothing is in flight, and a well-formed assembler stays well formed.
pub reset_requests_lem :
    (a : PieceAssembler) (now timeout : ℕ)
    → IsValid a
    → (in_flight_count (reset_requests a) now timeout ≡ 0) × IsValid (reset_requests a)
unfolding reset_requests in_flight_count
reset_requests_lem a now timeout v =
    let t = reset-Tiles a.blocks 0 a.expected_length v.tiles in
    (
      reset-in_flight now timeout a.blocks,
      record { word = v.word; size = v.size; tiles = t.0; received = v.received ∙ sym t.1 },
    )
