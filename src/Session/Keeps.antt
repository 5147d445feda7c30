-- ===== src/Session/Keeps.antt =====
-- The slots, the pieces and the jobs of a session stay in balance through its handlers.
use tortor.Prelude.{
  ℕ, ◌+◌, ◌≤◌, ◌<◌, ◌≡◌, refl, sym, ap, ◌∙◌, inl, inr, Bool, true, false, not, ◌&&◌, Option, none,
  some, List, [], ◌∷◌, ltb, ◌==◌, Bool-cases, All, arith,
}
use mathlib.Core.Path.{subst}
use tortor.Bitfield
use tortor.Bitfield.{Bitfield}
use tortor.Bitfield.Valid as Fields
use tortor.Wire
use tortor.Session.{
  UploadSlots, PeerContext, Libraries, Job, PeerSession, Answers, Effect, send, Turn, turn, goes_on,
  written,
}
use tortor.Session.Slots.{try_acquire, release, unchoke, try_unchoke, release_upload_slot, choke}
use tortor.Session.Ledger.{
  one_if, gains, losses, reserved, settled, total, holds_job, IsAllowed, JobOk, IsValid, IsReady,
  Kept,
}

-- An effect that no count sees and that says nothing to the coordinator that could be wrong.
pub data Quiet (lib : Libraries) (ctx : PeerContext) (e : Effect) : Type 0 where
  quiet :
      ((i : ℕ) → gains i e ≡ 0)
      → ((i : ℕ) → losses i e ≡ 0)
      → ((p : ℕ) → reserved p e ≡ 0)
      → ((p : ℕ) → settled p e ≡ 0)
      → IsAllowed lib ctx e
      → Quiet lib ctx e

pub sent-Quiet :
    {lib : Libraries} {ctx : PeerContext} (m : Wire.PeerMessage) → Quiet lib ctx (send m)
sent-Quiet m = quiet (λ i. refl) (λ i. refl) (λ p. refl) (λ p. refl) tt

pub total-Quiet :
    (lib : Libraries) (ctx : PeerContext) (es : List Effect)
    → All (Quiet lib ctx) es
    → ((i : ℕ) → total (gains i) es ≡ 0)
      × ((i : ℕ) → total (losses i) es ≡ 0)
      × ((p : ℕ) → total (reserved p) es ≡ 0)
      × ((p : ℕ) → total (settled p) es ≡ 0)
      × All (IsAllowed lib ctx) es
total-Quiet lib ctx [] q = (λ i. refl, λ i. refl, λ p. refl, λ p. refl, tt)
total-Quiet lib ctx (e ∷ es) (quiet g l r s a, q) =
    let ih = total-Quiet lib ctx es q in
    (
      λ i. omega (arith, g i, ih.0 i),
      λ i. omega (arith, l i, ih.1 i),
      λ p. omega (arith, r p, ih.2 p),
      λ p. omega (arith, s p, ih.3 p),
      (a, ih.4),
    )

-- The job changes, and nothing else.
pub job-Kept :
    {lib : Libraries} {ctx : PeerContext} {s : PeerSession} {slots : UploadSlots} (t : Turn)
    → IsValid ctx s slots
    → IsReady s
    → t.session.have_pieces ≡ s.have_pieces
    → t.session.am_choking ≡ s.am_choking
    → t.session.holds_upload_slot ≡ s.holds_upload_slot
    → t.slots ≡ slots
    → JobOk ctx t.session.job
    → ((i : ℕ) → total (losses i) t.effects ≡ 0)
    → ((p : ℕ)
        → total (reserved p) t.effects + holds_job p s
          ≤ holds_job p t.session + total (settled p) t.effects)
    → All (IsAllowed lib ctx) t.effects
    → Kept lib ctx s slots t
job-Kept {lib} {ctx} {s} {slots} t v r have choking holds same ok none_lost balanced allowed =
    let used : t.slots.used ≡ slots.used = ap (λ (u : UploadSlots). u.used) same in
    let most : t.slots.max ≡ slots.max = ap (λ (u : UploadSlots). u.max) same in
    let slot_held : one_if t.session.holds_upload_slot ≡ one_if s.holds_upload_slot =
      ap one_if holds in
    record {
      valid = record {
        have_valid = subst Fields.IsValid (sym have) v.have_valid;
        have_len = ap (λ (f : Bitfield). f.len) have ∙ v.have_len;
        job_ok = ok;
        held = omega (arith, used, slot_held, v.held);
        bounded = omega (arith, used, most, v.bounded);
      };
      ready = λ going. holds ∙ r ∙ ap not (sym choking);
      max = most;
      balance = omega (arith, used, slot_held);
      pieces = λ i.
          let has_same = ap (λ (f : Bitfield). one_if (Bitfield.has f i)) have in
          omega (arith, none_lost i, has_same);
      jobs = balanced;
      allowed = allowed;
    }

-- A turn that leaves the pieces, the job and the slot alone.
pub idle-Kept :
    {lib : Libraries} {ctx : PeerContext} {s : PeerSession} {slots : UploadSlots} (t : Turn)
    → IsValid ctx s slots
    → IsReady s
    → t.session.have_pieces ≡ s.have_pieces
    → t.session.job ≡ s.job
    → t.session.am_choking ≡ s.am_choking
    → t.session.holds_upload_slot ≡ s.holds_upload_slot
    → t.slots ≡ slots
    → All (Quiet lib ctx) t.effects
    → Kept lib ctx s slots t
idle-Kept {lib} {ctx} {s} {slots} t v r have job choking holds same q =
    let none_seen = total-Quiet lib ctx t.effects q in
    job-Kept t v r have choking holds same (subst (JobOk ctx) (sym job) v.job_ok) none_seen.1
      (λ p.
        let job_same =
          ap (λ (o : Option Job). elim o as (λ _. ℕ) [ none ↦ 0 | some j ↦ one_if (p == j.index) ])
            job in
        omega (arith, none_seen.2 p, none_seen.3 p, job_same))
      none_seen.4

try_acquire-true :
    (slots : UploadSlots)
    → (try_acquire slots).0 ≡ true
    → ((try_acquire slots).1 ≡ record slots { used = slots.used + 1 }) × (slots.used < slots.max)
unfolding try_acquire
try_acquire-true slots e = elim (Bool-cases (ltb slots.used slots.max)) [
  | inl free ↦ rw free (refl, ground (arith, free))
  | inr full ↦ absurd (ground (arith, e, full))
]

written-goes_on : (b : Bool) → written b ≡ goes_on → b ≡ true
written-goes_on true e = refl
written-goes_on false e = cc e

pub try_unchoke-Kept :
    (lib : Libraries) (ctx : PeerContext) (w : Answers) (s : PeerSession) (slots : UploadSlots)
    → IsValid ctx s slots
    → IsReady s
    → Kept lib ctx s slots (try_unchoke w s slots)
unfolding try_unchoke unchoke
try_unchoke-Kept lib ctx w s slots v r =
    elim (Bool-cases (s.am_choking && s.peer_interested && (try_acquire slots).0)) [
      | inr stays ↦ rw stays (idle-Kept _ v r refl refl refl refl refl tt)
      | inl goes ↦
          let got = try_acquire-true slots (ground (arith, goes)) in
          let free : s.holds_upload_slot ≡ false = ground (arith, r, goes) in
          rw (goes, got.0)
            (record {
              valid = record {
                have_valid = v.have_valid;
                have_len = v.have_len;
                job_ok = v.job_ok;
                held = omega arith;
                bounded = omega (arith, got.1);
              };
              ready = λ going. ground (arith, written-goes_on w.sent going);
              max = refl;
              balance = ground (arith, free);
              pieces = λ i. omega arith;
              jobs = λ p. omega arith;
              allowed = (tt, tt);
            })
    ]

pub choke-Kept :
    (lib : Libraries) (ctx : PeerContext) (w : Answers) (s : PeerSession) (slots : UploadSlots)
    → IsValid ctx s slots
    → IsReady s
    → Kept lib ctx s slots (choke w s slots)
unfolding choke release_upload_slot release
choke-Kept lib ctx w s slots v r = elim (Bool-cases s.am_choking) [
  | inl chokes ↦
      let has_none : s.holds_upload_slot ≡ false = ground (arith, r, chokes) in
      simp (chokes, has_none) (idle-Kept (turn [] s slots goes_on) v r refl refl refl refl refl tt)
  | inr serves ↦
      let has_one : s.holds_upload_slot ≡ true = ground (arith, r, serves) in
      elim (Bool-cases w.sent) [
        | inr failed ↦
            simp (serves, has_one, failed)
              (idle-Kept (turn (send Wire.choke ∷ []) s slots (written false)) v r refl refl refl
                refl refl (sent-Quiet Wire.choke, tt))
        | inl done ↦
            simp (serves, has_one, done)
              (record {
                valid = record {
                  have_valid = v.have_valid;
                  have_len = v.have_len;
                  job_ok = v.job_ok;
                  held = omega arith;
                  bounded = omega (arith, v.bounded);
                };
                ready = λ going. refl;
                max = refl;
                balance = ground (arith, has_one, v.held);
                pieces = λ i. omega arith;
                jobs = λ p. omega arith;
                allowed = (tt, tt);
              })
      ]
]
