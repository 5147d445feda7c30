-- ===== src/Assembler/Flight.antt =====
-- How `next_request` changes the number of requests in flight.
use tortor.Prelude.{
  ℕ, suc, ◌≡◌, refl, sym, ap, ◌∙◌, inl, inr, Bool, not, ◌&&◌, true, false, Option, none, some, List,
  [], ◌∷◌, length as list_length, filterb, Bool-cases, arith,
}
use tortor.Assembler.{
  BlockRequest, PieceAssembler, due, in_flight, in_flight_count, request_loop, hand_out,
  next_request,
}
use tortor.Assembler.Requests.{due_count, is_due, loop_step, request_loop-none}

abbrev flying : ℕ → ℕ → List BlockRequest → ℕ
flying now timeout bs = list_length (filterb (in_flight now timeout) bs)

-- A block that is due is not in flight, and it is once it was requested.
due-in_flight :
    (now timeout : ℕ) (b : BlockRequest) (r : Bool)
    → due now timeout b ≡ some r
    → (in_flight now timeout b ≡ false)
      × (in_flight now timeout (record b { requested_at = some now }) ≡ true)
unfolding due
due-in_flight now timeout b r e = (ground arith, ground arith)

flying-step :
    (now timeout : ℕ) (b : BlockRequest) (bs : List BlockRequest)
    → (in_flight now timeout b ≡ true → flying now timeout (b ∷ bs) ≡ suc (flying now timeout bs))
      × (in_flight now timeout b ≡ false → flying now timeout (b ∷ bs) ≡ flying now timeout bs)
flying-step now timeout b bs = (λ e. ground arith, λ e. ground arith)

flying-request_loop :
    (now timeout : ℕ) (bs : List BlockRequest) (r : ℕ × ℕ × Bool)
    → (request_loop now timeout bs).0 ≡ some r
    → flying now timeout (request_loop now timeout bs).1 ≡ suc (flying now timeout bs)
unfolding hand_out
flying-request_loop now timeout [] r e = unfold request_loop in cc
flying-request_loop now timeout (b ∷ bs) r e =
    by_due (due now timeout b) refl e (flying-request_loop now timeout bs r)
  where
    by_due :
        (d : Option Bool)
        → due now timeout b ≡ d
        → (request_loop now timeout (b ∷ bs)).0 ≡ some r
        → ((request_loop now timeout bs).0 ≡ some r
            → flying now timeout (request_loop now timeout bs).1 ≡ suc (flying now timeout bs))
        → flying now timeout (request_loop now timeout (b ∷ bs)).1
          ≡ suc (flying now timeout (b ∷ bs))
    by_due none d e ih =
        let step = loop_step now timeout b bs none d in
        let rest = ih (ap (λ r. r.0) (sym step) ∙ e) in
        let old = flying-step now timeout b bs in
        let new = flying-step now timeout b (request_loop now timeout bs).1 in
        rw step (elim (Bool-cases (in_flight now timeout b)) [
          | inl flies ↦ new.0 flies ∙ ap suc (rest ∙ sym (old.0 flies))
          | inr waits ↦ new.1 waits ∙ rest ∙ ap suc (sym (old.1 waits))
        ])
    by_due (some q) d e ih =
        let step = loop_step now timeout b bs (some q) d in
        let marks = due-in_flight now timeout b q d in
        rw step (
          (flying-step now timeout (record b { requested_at = some now }) bs).0 marks.1
          ∙ ap suc (sym ((flying-step now timeout b bs).1 marks.0)))

-- A request goes into flight, and without one no block is due.
pub next_request-in_flight_count :
    (a : PieceAssembler) (now timeout : ℕ) (r : ℕ × ℕ × Bool)
    → (next_request a now timeout).0 ≡ some r
    → in_flight_count (next_request a now timeout).1 now timeout
      ≡ suc (in_flight_count a now timeout)
unfolding next_request in_flight_count
next_request-in_flight_count a now timeout r e = flying-request_loop now timeout a.blocks r e

-- A block that is neither complete nor due.
abbrev pub is_asked_for : ℕ → ℕ → BlockRequest → Bool
is_asked_for now timeout b = not b.completed && not (is_due now timeout b)

in_flight-is_asked_for :
    (now timeout : ℕ) (b : BlockRequest) → in_flight now timeout b ≡ is_asked_for now timeout b
in_flight-is_asked_for now timeout b = ground arith

-- The requests in flight are the blocks that are neither complete nor due.
pub in_flight_count_lem :
    (a : PieceAssembler) (now timeout : ℕ)
    → in_flight_count a now timeout ≡ list_length (filterb (is_asked_for now timeout) a.blocks)
unfolding in_flight_count
in_flight_count_lem a now timeout = by_blocks a.blocks
  where
    by_blocks :
        (bs : List BlockRequest)
        → flying now timeout bs ≡ list_length (filterb (is_asked_for now timeout) bs)
    by_blocks [] = refl
    by_blocks (b ∷ bs) =
        let same = in_flight-is_asked_for now timeout b in
        let ih = by_blocks bs in ground (arith, same, ih)

pub next_request-none :
    (a : PieceAssembler) (now timeout : ℕ)
    → (next_request a now timeout).0 ≡ none
    → (due_count now timeout (next_request a now timeout).1.blocks ≡ 0)
      × (in_flight_count (next_request a now timeout).1 now timeout ≡ in_flight_count a now timeout)
unfolding next_request in_flight_count
next_request-none a now timeout e =
    let facts = request_loop-none now timeout a.blocks e in
    (ap (due_count now timeout) facts.1 ∙ facts.0, ap (flying now timeout) facts.1)
