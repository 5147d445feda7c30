-- ===== src/Session/Requests.antt =====
-- Requests, bitfields and the other messages of a peer keep a session in balance.
use tortor.Prelude.{
  ℕ, ◌+◌, ◌≤◌, ◌<◌, ◌≡◌, refl, ap, ◌∙◌, inl, inr, Bool, true, false, ◌&&◌, Option, none, some, List,
  [], ◌∷◌, ltb, leb, ◌==◌, Bool-cases, length, All, arith,
}
use tortor.Prelude.Sets.{contains, contains-filter_range}
use tortor.Bitfield
use tortor.Bitfield.{Bitfield}
use tortor.Bitfield.Valid as Fields
use tortor.Bitfield.Valid.{IsByte, set-IsValid}
use tortor.Bitfield.Members.{has-set, len-set, from_wire_iff}
use tortor.Bitfield.Counting.{count-iter_ones}
use tortor.Wire
use tortor.Wire.{PeerMessage}
use tortor.Coordinator.{read_piece, max_block_request}
use tortor.Session.{
  UploadSlots, PeerContext, Libraries, Job, PeerSession, Answers, tell, Turn, piece_len_at,
}
use tortor.Session.Messages.{
  fits, is_request_valid, answer, handle_request, on_have, on_bitfield, reset_job, handle_message,
}
use tortor.Session.Ledger.{one_if, JobOk, IsValid, IsReady, Kept}
use tortor.Session.Keeps.{
  Quiet, quiet, sent-Quiet, idle-Kept, job-Kept, try_unchoke-Kept, choke-Kept,
}
use tortor.Session.Jobs.{handle_piece-Kept}
use tortor.Session.Exchange.{handle_extended-Kept}

contains-none : (xs : List ℕ) (x : ℕ) → length xs ≡ 0 → contains x xs ≡ false
contains-none [] x e = refl
contains-none (y ∷ xs) x e = absurd (omega arith)

-- A field that counts nothing holds nothing.
pub has-uncounted :
    (f : Bitfield) (i : ℕ)
    → Fields.IsValid f
    → ltb 0 (Bitfield.count f) ≡ false
    → Bitfield.has f i ≡ false
has-uncounted f i v e =
    let none_there =
      contains-none (Bitfield.iter_ones f) i (ground (arith, count-iter_ones f v, e)) in
    let iff = contains-filter_range 0 f.len (Bitfield.has f) i in
    in_range f i (unfold Bitfield.iter_ones in ground (arith, none_there, iff))
  where
    in_range :
        (f : Bitfield) (i : ℕ)
        → (ltb i f.len && Bitfield.has f i) ≡ false
        → Bitfield.has f i ≡ false
    in_range f i e = unfold Bitfield.has in ground (arith, e)

set_in_range : (f : Bitfield) (i : ℕ) → leb f.len i ≡ false → (Bitfield.set f i).1 ≡ true
unfolding Bitfield.set
set_in_range f i e = rw e refl

-- The payload of a bitfield consists of bytes.
abbrev pub AreBytesIn : PeerMessage → Type 0
AreBytesIn (Wire.bitfield payload) = All IsByte payload
AreBytesIn m = Unit

-- A state with another interest of the peer and another time of the last message.
abbrev pub noted : Bool → ℕ → PeerSession → PeerSession
noted b n s = record s { peer_interested = b; last_recv = n }

pub noted-IsValid :
    {ctx : PeerContext} (b : Bool) (n : ℕ) (s : PeerSession) (slots : UploadSlots)
    → IsValid ctx s slots
    → IsValid ctx (noted b n s) slots
noted-IsValid b n s slots v = record {
  have_valid = v.have_valid;
  have_len = v.have_len;
  job_ok = v.job_ok;
  held = v.held;
  bounded = v.bounded;
}

pub from_noted :
    {lib : Libraries} {ctx : PeerContext} (b : Bool) (n : ℕ) (s : PeerSession) (slots : UploadSlots)
    (t : Turn)
    → Kept lib ctx (noted b n s) slots t
    → Kept lib ctx s slots t
from_noted b n s slots t k = record {
  valid = k.valid;
  ready = k.ready;
  max = k.max;
  balance = k.balance;
  pieces = k.pieces;
  jobs = k.jobs;
  allowed = k.allowed;
}

module _ (lib : Libraries) (ctx : PeerContext) (w : Answers) where
  valid_request :
      (index begin len : ℕ)
      → is_request_valid ctx index begin len ≡ true
      → (0 < len) × (len ≤ max_block_request) × (fits (begin + len) (piece_len_at ctx index) ≡ true)
  unfolding is_request_valid
  valid_request index begin len e = (ground (arith, e), ground (arith, e), ground (arith, e))

  answer-Kept :
      (index begin len : ℕ) (o : Option (List ℕ)) (s : PeerSession) (slots : UploadSlots)
      → IsValid ctx s slots
      → IsReady s
      → Quiet lib ctx (tell (read_piece index begin len))
      → Kept lib ctx s slots (answer w index begin len o s slots)
  unfolding answer
  answer-Kept index begin len none s slots v r ask =
      idle-Kept _ v r refl refl refl refl refl (ask, tt)
  answer-Kept index begin len (some block) s slots v r ask = elim (Bool-cases w.sent) [
    | inl done ↦ simp done (
        idle-Kept _ v r refl refl refl refl refl (
          ask,
          (
            sent-Quiet (Wire.piece index begin block),
            (quiet (λ i. refl) (λ i. refl) (λ p. refl) (λ p. refl) tt, tt),
          ),
        ))
    | inr failed ↦ simp failed (
        idle-Kept _ v r refl refl refl refl refl
          (ask, (sent-Quiet (Wire.piece index begin block), tt)))
  ]

  pub handle_request-Kept :
      (index begin len : ℕ) (s : PeerSession) (slots : UploadSlots)
      → IsValid ctx s slots
      → IsReady s
      → Kept lib ctx s slots (handle_request ctx w index begin len s slots)
  unfolding handle_request
  handle_request-Kept index begin len s slots v r = elim (Bool-cases s.am_choking) [
    | inl chokes ↦ simp chokes (idle-Kept _ v r refl refl refl refl refl tt)
    | inr serves ↦ elim (Bool-cases (is_request_valid ctx index begin len)) [
      | inr wrong ↦ simp (serves, wrong) (idle-Kept _ v r refl refl refl refl refl tt)
      | inl right ↦
          let ask : Quiet lib ctx (tell (read_piece index begin len)) =
            quiet (λ i. refl) (λ i. refl) (λ p. refl) (λ p. refl)
              (valid_request index begin len right) in
          elim (Bool-cases w.coordinator_there) [
            | inr gone ↦
                simp (serves, right, gone) (idle-Kept _ v r refl refl refl refl refl (ask, tt))
            | inl there ↦
                simp (serves, right, there) (answer-Kept index begin len w.block s slots v r ask)
          ]
    ]
  ]

  pub on_have-Kept :
      (index : ℕ) (s : PeerSession) (slots : UploadSlots)
      → IsValid ctx s slots
      → IsReady s
      → Kept lib ctx s slots (on_have w index s slots)
  unfolding on_have
  on_have-Kept index s slots v r = elim (Bool-cases (leb s.have_pieces.len index)) [
    | inl out ↦ rw out (idle-Kept _ v r refl refl refl refl refl tt)
    | inr inside ↦
        let in_range : index < s.have_pieces.len = ground (arith, inside) in
        let newly : (Bitfield.set s.have_pieces index).1 ≡ true =
          set_in_range s.have_pieces index inside in
        rw (inside, newly)
          (record {
            valid = record {
              have_valid = set-IsValid s.have_pieces index v.have_valid;
              have_len = len-set s.have_pieces index ∙ v.have_len;
              job_ok = v.job_ok;
              held = v.held;
              bounded = v.bounded;
            };
            ready = λ going. r;
            max = refl;
            balance = refl;
            pieces = λ i. let e = has-set s.have_pieces index i v.have_valid in ground (arith, e);
            jobs = λ p. omega arith;
            allowed = (omega (arith, in_range, v.have_len), tt);
          })
  ]

  pub on_bitfield-Kept :
      (o : Option Bitfield) (s : PeerSession) (slots : UploadSlots)
      → IsValid ctx s slots
      → IsReady s
      → ((f : Bitfield) → o ≡ some f → Fields.IsValid f × (f.len ≡ s.have_pieces.len))
      → Kept lib ctx s slots (on_bitfield w o s slots)
  unfolding on_bitfield
  on_bitfield-Kept none s slots v r new_valid = idle-Kept _ v r refl refl refl refl refl tt
  on_bitfield-Kept (some f) s slots v r new_valid =
      let fine = new_valid f refl in
      elim (Bool-cases (ltb 0 (Bitfield.count s.have_pieces))) [
        | inl had ↦ rw had (record {
          valid = record {
            have_valid = fine.0;
            have_len = fine.1 ∙ v.have_len;
            job_ok = v.job_ok;
            held = v.held;
            bounded = v.bounded;
          };
          ready = λ going. r;
          max = refl;
          balance = refl;
          pieces = λ i. omega arith;
          jobs = λ p. omega arith;
          allowed = (tt, (fine.1 ∙ v.have_len, tt));
        })
        | inr had_none ↦ rw had_none (record {
          valid = record {
            have_valid = fine.0;
            have_len = fine.1 ∙ v.have_len;
            job_ok = v.job_ok;
            held = v.held;
            bounded = v.bounded;
          };
          ready = λ going. r;
          max = refl;
          balance = refl;
          pieces = λ i. omega arith;
          jobs = λ p. omega arith;
          allowed = (fine.1 ∙ v.have_len, tt);
        })
      ]

  reset_job-Ok : (o : Option Job) → JobOk ctx o → JobOk ctx (reset_job o)
  reset_job-Ok none k = tt
  reset_job-Ok (some j) k = k

  holds-reset_job :
      (o : Option Job) (p : ℕ)
      → (elim o as (λ _. ℕ) [ none ↦ 0 | some j ↦ one_if (p == j.index) ])
        ≡ (elim (reset_job o) as (λ _. ℕ) [ none ↦ 0 | some j ↦ one_if (p == j.index) ])
  holds-reset_job none p = refl
  holds-reset_job (some j) p = refl

  wire-IsValid :
      (payload : List ℕ) (len : ℕ)
      → All IsByte payload
      → (f : Bitfield) → Bitfield.from_wire len payload ≡ some f
      → Fields.IsValid f × (f.len ≡ len)
  wire-IsValid payload len bytes f e =
      let good = (from_wire_iff len payload f bytes).0 e in
      (good.1, ap (λ (f : Bitfield). f.len) good.0)

  pub handle_message-Kept :
      (m : PeerMessage) (s : PeerSession) (slots : UploadSlots)
      → AreBytesIn m
      → IsValid ctx s slots
      → IsReady s
      → Kept lib ctx s slots (handle_message lib ctx w m s slots)
  unfolding handle_message
  handle_message-Kept Wire.keep_alive s slots b v r = idle-Kept _ v r refl refl refl refl refl tt
  handle_message-Kept Wire.choke s slots b v r =
      job-Kept _ v r refl refl refl refl (reset_job-Ok s.job v.job_ok) (λ i. refl)
        (λ p. omega (arith, holds-reset_job s.job p)) tt
  handle_message-Kept Wire.unchoke s slots b v r = idle-Kept _ v r refl refl refl refl refl tt
  handle_message-Kept Wire.interested s slots b v r = from_noted true s.last_recv s slots _ (
      try_unchoke-Kept lib ctx w (noted true s.last_recv s) slots
        (noted-IsValid true s.last_recv s slots v) r)
  handle_message-Kept Wire.not_interested s slots b v r = from_noted false s.last_recv s slots _ (
      choke-Kept lib ctx w (noted false s.last_recv s) slots
        (noted-IsValid false s.last_recv s slots v) r)
  handle_message-Kept (Wire.have index) s slots b v r = on_have-Kept index s slots v r
  handle_message-Kept (Wire.bitfield payload) s slots b v r =
      on_bitfield-Kept (Bitfield.from_wire s.have_pieces.len payload) s slots v r
        (wire-IsValid payload s.have_pieces.len b)
  handle_message-Kept (Wire.extended id payload) s slots b v r =
      handle_extended-Kept lib ctx w id payload s slots v r
  handle_message-Kept (Wire.request index begin len) s slots b v r =
      handle_request-Kept index begin len s slots v r
  handle_message-Kept (Wire.piece index begin block) s slots b v r =
      handle_piece-Kept lib ctx w index begin block s slots v r
