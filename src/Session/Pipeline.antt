-- ===== src/Session/Pipeline.antt =====
-- `fill_pipeline` of src/net/session.rs fills the pipeline of requests.
use tortor.Prelude.{
  ℕ, zero, suc, ◌+◌, ◌≤◌, ◌≡◌, ◌⊎◌, refl, inl, inr, Bool, true, false, Option, none, some, ltb,
  Bool-cases, length, filterb, arith,
}
use tortor.Assembler.{PieceAssembler, in_flight_count, next_request}
use tortor.Assembler.Requests.{due_count}
use tortor.Assembler.Flight.{
  is_asked_for, in_flight_count_lem, next_request-in_flight_count, next_request-none,
}
use tortor.Session.{
  UploadSlots, Job, PeerSession, Answers, Turn, goes_on, written, pipeline_depth,
  request_retry_timeout,
}
use tortor.Session.Work.{Filled, fill_loop, on_request, ask, fill_pipeline}

-- The requests in flight and the blocks that are due, at the time of a turn.
abbrev flying : Answers → PieceAssembler → ℕ
flying w a = in_flight_count a w.now request_retry_timeout

abbrev due_blocks : Answers → PieceAssembler → ℕ
due_blocks w a = due_count w.now request_retry_timeout a.blocks

-- Each request is in flight, they fit the pipeline, and unless a write failed the pipeline is full
-- or no block is due.
record IsFilled (w : Answers) (before : PieceAssembler) (f : Filled) : Type 0 where
  counted : flying w f.assembler ≡ flying w before + length f.requests
  fits : flying w f.assembler ≤ pipeline_depth
  full :
      f.all_sent ≡ true → (flying w f.assembler ≡ pipeline_depth) ⊎ (due_blocks w f.assembler ≡ 0)

module _ (w : Answers) (index : ℕ) where
  on_request-IsFilled :
      (sent : Bool) (q : Option (ℕ × ℕ × Bool) × PieceAssembler) (a : PieceAssembler)
      (next : PieceAssembler → Filled)
      → suc (flying w a) ≤ pipeline_depth
      → ((r : ℕ × ℕ × Bool) → q.0 ≡ some r → flying w q.1 ≡ suc (flying w a))
      → (q.0 ≡ none → (due_blocks w q.1 ≡ 0) × (flying w q.1 ≡ flying w a))
      → (flying w q.1 ≡ suc (flying w a) → IsFilled w q.1 (next q.1))
      → IsFilled w a (on_request index sent q next)
  unfolding on_request ask
  on_request-IsFilled sent (none, b) a next room asked idle rest = record {
    counted = omega (arith, (idle refl).1);
    fits = omega (arith, (idle refl).1);
    full = λ e. inr (idle refl).0;
  }
  on_request-IsFilled false (some r, b) a next room asked idle rest = record {
    counted = omega (arith, asked r refl);
    fits = omega (arith, asked r refl);
    full = λ e. cc e;
  }
  on_request-IsFilled true (some r, b) a next room asked idle rest =
      let after = rest (asked r refl) in
      record {
        counted = omega (arith, asked r refl, after.counted);
        fits = after.fits;
        full = after.full;
      }

  fill_loop-IsFilled :
      (fuel k : ℕ) (a : PieceAssembler)
      → flying w a ≤ pipeline_depth
      → pipeline_depth ≤ flying w a + fuel
      → IsFilled w a (fill_loop fuel k w index a)
  unfolding fill_loop
  fill_loop-IsFilled zero k a room enough = record {
    counted = omega arith;
    fits = room;
    full = λ e. inl (omega arith);
  }
  fill_loop-IsFilled (suc fuel) k a room enough =
      elim (Bool-cases (ltb (flying w a) pipeline_depth)) [
        | inr is_full ↦ rw is_full (record {
          counted = omega arith;
          fits = room;
          full = λ e. inl (ground (arith, is_full, room));
        })
        | inl less ↦
            let lesser : suc (flying w a) ≤ pipeline_depth = ground (arith, less) in
            rw less (
              on_request-IsFilled (w.request_sent k) (next_request a w.now request_retry_timeout) a
                (fill_loop fuel (k + 1) w index) lesser
                (λ r e. next_request-in_flight_count a w.now request_retry_timeout r e)
                (λ e. next_request-none a w.now request_retry_timeout e)
                (λ one_more.
                  fill_loop-IsFilled fuel (k + 1) (next_request a w.now request_retry_timeout).1
                    (omega (arith, one_more, lesser)) (omega (arith, one_more, enough))))
      ]

-- How many blocks were asked for and are neither complete nor due again.
abbrev pub asked_for : Answers → PieceAssembler → ℕ
asked_for w a = length (filterb (is_asked_for w.now 5000) a.blocks)

-- How the pipeline stands after `fill_pipeline`, for the assembler that the job has then.
abbrev pub AfterFilling : Answers → PieceAssembler → Turn → Option Job → Type 0
AfterFilling w before t none = ⊥
AfterFilling w before t (some j) =
    (asked_for w j.assembler ≡ asked_for w before + length t.effects)
    × (asked_for w j.assembler ≤ 16)
    × (t.status ≡ goes_on
        → (asked_for w j.assembler ≡ 16) ⊎ (due_count w.now 5000 j.assembler.blocks ≡ 0))

written-goes_on : (b : Bool) → written b ≡ goes_on → b ≡ true
written-goes_on true e = refl
written-goes_on false e = cc e

-- A block is due if it is not complete and was never asked for, or last more than 5 seconds ago. A
-- session that is not choked, with at most 16 blocks of its job neither complete nor due, fills its
-- pipeline: each request that it sends makes one more, there are at most 16, and unless a write
-- failed there are 16 or no block is due.
pub fill_pipeline-AfterFilling :
    (w : Answers) (s : PeerSession) (slots : UploadSlots) (j : Job)
    → s.peer_choking ≡ false
    → s.job ≡ some j
    → asked_for w j.assembler ≤ 16
    → AfterFilling w j.assembler (fill_pipeline w s slots) (fill_pipeline w s slots).session.job
unfolding fill_pipeline
fill_pipeline-AfterFilling w s slots j free job room =
    let before = in_flight_count_lem j.assembler w.now 5000 in
    let f =
      fill_loop-IsFilled w j.index pipeline_depth 0 j.assembler (omega (arith, room, before))
        (omega arith) in
    let after =
      in_flight_count_lem (fill_loop pipeline_depth 0 w j.index j.assembler).assembler w.now 5000 in
    simp (free, job)
      (
        omega (arith, f.counted, before, after),
        omega (arith, f.fits, after),
        λ e. elim (f.full (written-goes_on _ e)) [
          | inl full ↦ inl (omega (arith, full, after))
          | inr none_due ↦ inr none_due
        ],
      )
