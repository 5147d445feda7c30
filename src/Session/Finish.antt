-- ===== src/Session/Finish.antt =====
-- What the end of a session gives back: `finish` in src/net/session.rs.
use mathlib.Core.Path.{ap}
use tortor.Prelude.{
  ℕ, ◌+◌, ◌≤◌, ◌≡◌, refl, ◌∙◌, inl, inr, Bool, true, false, Option, none, some, List, [], ◌∷◌,
  if◌then◌else◌, ltb, ◌==◌, Bool-cases, All, All-append, arith,
}
use tortor.Bitfield
use tortor.Bitfield.{Bitfield}
use tortor.Bitfield.Valid as Fields
use tortor.Bitfield.Valid.{IsByte, set-IsValid}
use tortor.Coordinator.{peer_gone}
use tortor.Session.{UploadSlots, PeerContext, Libraries, Job, PeerSession, Effect, tell}
use tortor.Session.Ledger.{
  one_if, gains, losses, reserved, settled, total, total-append, holds_job, IsAllowed, IsValid,
}
use tortor.Session.Slots.{release_upload_slot, release}
use tortor.Session.Loop.{finish}
use tortor.Coordinator.{piece_failed}
use tortor.Bitfield.Valid.{new-IsValid}
use tortor.Bitfield.Members.{has-new}
use tortor.Session.Requests.{has-uncounted}

-- What `finish` settles.
pub record Finished (lib : Libraries) (ctx : PeerContext) (s : PeerSession) (slots : UploadSlots)
    (r : List Effect × (PeerSession × UploadSlots)) : Type 0 where
  pub used : r.1.1.used + one_if s.holds_upload_slot ≡ slots.used
  pub max : r.1.1.max ≡ slots.max
  pub lost : (i : ℕ) → total (losses i) r.0 ≡ one_if (Bitfield.has s.have_pieces i)
  pub gained : (i : ℕ) → total (gains i) r.0 ≡ 0
  pub reserves : (p : ℕ) → total (reserved p) r.0 ≡ 0
  pub settles : (p : ℕ) → total (settled p) r.0 ≡ holds_job p s
  pub fine : All (IsAllowed lib ctx) r.0
  pub no_slot : r.1.0.holds_upload_slot ≡ false
  pub no_job : r.1.0.job ≡ none
  pub no_pieces : (i : ℕ) → Bitfield.has r.1.0.have_pieces i ≡ false

abbrev job_back : Option Job → List Effect
job_back o = elim o [ none ↦ [] | some j ↦ tell (piece_failed j.index) ∷ [] ]

abbrev pieces_back : Bool → Bitfield → List Effect
pieces_back b f = if b then tell (peer_gone f) ∷ [] else []

job_back_lem :
    (lib : Libraries) (ctx : PeerContext) (o : Option Job)
    → ((i : ℕ) → (total (losses i) (job_back o) ≡ 0) × (total (gains i) (job_back o) ≡ 0))
      × ((p : ℕ)
          → (total (reserved p) (job_back o) ≡ 0)
            × (total (settled p) (job_back o)
                ≡ (elim o as (λ _. ℕ) [ none ↦ 0 | some j ↦ one_if (p == j.index) ])))
      × All (IsAllowed lib ctx) (job_back o)
job_back_lem lib ctx none = (λ i. (refl, refl), λ p. (refl, refl), tt)
job_back_lem lib ctx (some j) = (λ i. (refl, refl), λ p. (refl, omega arith), (tt, tt))

pieces_back_lem :
    (lib : Libraries) (ctx : PeerContext) (f : Bitfield) (b : Bool)
    → Fields.IsValid f
    → ltb 0 (Bitfield.count f) ≡ b
    → ((i : ℕ)
        → (total (losses i) (pieces_back b f) ≡ one_if (Bitfield.has f i))
          × (total (gains i) (pieces_back b f) ≡ 0))
      × ((p : ℕ)
          → (total (reserved p) (pieces_back b f) ≡ 0) × (total (settled p) (pieces_back b f) ≡ 0))
      × All (IsAllowed lib ctx) (pieces_back b f)
pieces_back_lem lib ctx f true v e = (λ i. (omega arith, refl), λ p. (refl, refl), (tt, tt))
pieces_back_lem lib ctx f false v e =
    (λ i. (ground (arith, has-uncounted f i v e), refl), λ p. (refl, refl), tt)

released :
    (s : PeerSession) (slots : UploadSlots)
    → one_if s.holds_upload_slot ≤ slots.used
    → ((release_upload_slot s slots).1.used + one_if s.holds_upload_slot ≡ slots.used)
      × ((release_upload_slot s slots).1.max ≡ slots.max)
unfolding release_upload_slot release
released s slots le = elim (Bool-cases s.holds_upload_slot) [
  | inl has_one ↦ simp has_one (ground (arith, le, has_one), refl)
  | inr has_none ↦ simp has_none (omega arith, refl)
]

released_session :
    (s : PeerSession) (slots : UploadSlots)
    → ((release_upload_slot s slots).0.holds_upload_slot ≡ false)
      × ((release_upload_slot s slots).0.job ≡ s.job)
      × ((release_upload_slot s slots).0.have_pieces ≡ s.have_pieces)
unfolding release_upload_slot
released_session s slots = elim (Bool-cases s.holds_upload_slot) [
  | inl has_one ↦ simp has_one (refl, refl, refl)
  | inr has_none ↦ simp has_none (refl, refl, refl)
]

emptied :
    (f : Bitfield) (i : ℕ) (b : Bool)
    → Fields.IsValid f
    → ltb 0 (Bitfield.count f) ≡ b
    → Bitfield.has (if b then Bitfield.new f.len else f) i ≡ false
emptied f i true v e = has-new f.len i
emptied f i false v e = has-uncounted f i v e

pub finish-Finished :
    (lib : Libraries) (ctx : PeerContext) (s : PeerSession) (slots : UploadSlots)
    → IsValid ctx s slots
    → Finished lib ctx s slots (finish s slots)
unfolding finish
finish-Finished lib ctx s slots v =
    let b = ltb 0 (Bitfield.count s.have_pieces) in
    let one = job_back_lem lib ctx s.job in
    let two = pieces_back_lem lib ctx s.have_pieces b v.have_valid refl in
    let es = job_back s.job in
    let fs = pieces_back b s.have_pieces in
    let empty : PeerSession = record s {
      job = none;
      have_pieces = (if b then Bitfield.new s.have_pieces.len else s.have_pieces);
    } in
    let back = released empty slots v.held in
    let rest = released_session empty slots in
    record {
      used = back.0;
      max = back.1;
      lost = λ i. omega (arith, total-append (losses i) es fs, (one.0 i).0, (two.0 i).0);
      gained = λ i. omega (arith, total-append (gains i) es fs, (one.0 i).1, (two.0 i).1);
      reserves = λ p. omega (arith, total-append (reserved p) es fs, (one.1 p).0, (two.1 p).0);
      settles = λ p. omega (arith, total-append (settled p) es fs, (one.1 p).1, (two.1 p).1);
      fine = All-append (IsAllowed lib ctx) es fs one.2 two.2;
      no_slot = rest.0;
      no_job = rest.1;
      no_pieces =
          λ i. ap (λ f. Bitfield.has f i) rest.2 ∙ emptied s.have_pieces i b v.have_valid refl;
    }
