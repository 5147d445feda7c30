-- ===== src/Session/Sharing.antt =====
-- The sessions of a torrent share its upload slots: no more peers are unchoked than there are slots.
use tortor.Prelude.{
  ℕ, zero, suc, ◌+◌, ◌≤◌, ◌≡◌, refl, ◌∙◌, not, Option, none, some, List, [], ◌∷◌, length, All,
  arith,
}
use tortor.Bitfield.Valid as Fields
use tortor.Bitfield.Valid.{IsByte, set-IsValid}
use tortor.Session.{
  UploadSlots, PeerContext, Libraries, PeerSession, Answers, Turn, Status, goes_on, fails,
}
use tortor.Session.Ledger.{one_if, JobOk, IsValid, IsReady, Kept}
use tortor.Session.{Input, ends, new_session}
use tortor.Session.Loop.{finish}
use tortor.Bitfield.Valid.{new-IsValid}
use tortor.Session.Turns.{AreBytes}
use tortor.Session.Slots.{new}
use tortor.Session.Loop.{
  Sessions, Happening, joins, takes_turn, is_aborted, settle, turn_at, last_turn, abort_at, happen,
  happenings,
}
use tortor.Session.Turns.{step-Kept}
use tortor.Session.Keeps.{idle-Kept}
use tortor.Session.Life.{new_session-IsValid, send_opening_messages-Kept}
use tortor.Session.Finish.{Finished, finish-Finished}

-- How many sessions hold a slot, and how many let their peer ask for blocks.
abbrev pub holders : List (PeerContext × PeerSession) → ℕ
holders [] = 0
holders (m ∷ ms) = one_if m.1.holds_upload_slot + holders ms

abbrev pub unchoked : List (PeerContext × PeerSession) → ℕ
unchoked [] = 0
unchoked (m ∷ ms) = one_if (not m.1.am_choking) + unchoked ms

-- What a session satisfies by itself.
pub record IsSound (m : PeerContext × PeerSession) : Type 0 where
  pub have_valid : Fields.IsValid m.1.have_pieces
  pub have_len : m.1.have_pieces.len ≡ length m.0.expected_hashes
  pub job_ok : JobOk m.0 m.1.job
  pub ready : IsReady m.1

-- `k` slots are held by others.
pub record IsShared (k most : ℕ) (all : Sessions) : Type 0 where
  pub used : all.slots.used ≡ k + holders all.members
  pub bounded : all.slots.used ≤ all.slots.max
  pub max : all.slots.max ≡ most
  pub sound : All IsSound all.members

abbrev together : UploadSlots → List (PeerContext × PeerSession) → Sessions
together slots ms = record { slots = slots; members = ms }

with_slots :
    (k max : ℕ) (ctx : PeerContext) (s : PeerSession) (ms : List (PeerContext × PeerSession))
    (slots : UploadSlots)
    → IsShared k max (together slots ((ctx, s) ∷ ms))
    → IsValid ctx s slots
with_slots k max ctx s ms slots b = record {
  have_valid = b.sound.0.have_valid;
  have_len = b.sound.0.have_len;
  job_ok = b.sound.0.job_ok;
  held = omega (arith, b.used);
  bounded = b.bounded;
}

settle-IsShared :
    (lib : Libraries) (k max : ℕ) (ctx : PeerContext) (s : PeerSession) (slots : UploadSlots)
    (t : Turn) (ms : List (PeerContext × PeerSession))
    → slots.used ≡ k + one_if s.holds_upload_slot + holders ms
    → slots.max ≡ max
    → All IsSound ms
    → Kept lib ctx s slots t
    → IsShared k max (settle ctx t ms)
unfolding settle
settle-IsShared lib k max ctx s slots t ms used most sound kept = by_status t.status refl
  where
    end : Finished lib ctx t.session t.slots (finish t.session t.slots)
    end = finish-Finished lib ctx t.session t.slots kept.valid

    gone : IsShared k max (together (finish t.session t.slots).1.1 ms)
    gone = record {
      used = omega (arith, used, kept.balance, end.used);
      bounded = omega (arith, end.used, end.max, kept.valid.bounded);
      max = end.max ∙ kept.max ∙ most;
      sound = sound;
    }

    by_status :
        (st : Status)
        → t.status ≡ st
        → IsShared k max (elim st [
          | goes_on ↦ record { slots = t.slots; members = (ctx, t.session) ∷ ms }
          | ends ↦ record { slots = (finish t.session t.slots).1.1; members = ms }
          | fails e ↦ record { slots = (finish t.session t.slots).1.1; members = ms }
        ])
    by_status goes_on h = record {
      used = omega (arith, used, kept.balance);
      bounded = kept.valid.bounded;
      max = kept.max ∙ most;
      sound = (
        record {
          have_valid = kept.valid.have_valid;
          have_len = kept.valid.have_len;
          job_ok = kept.valid.job_ok;
          ready = kept.ready h;
        },
        sound,
      );
    }
    by_status ends h = gone
    by_status (fails e) h = gone

turn_at-IsShared :
    (lib : Libraries) (w : Answers) (i : Input) (n k max : ℕ)
    (ms : List (PeerContext × PeerSession)) (slots : UploadSlots)
    → AreBytes i
    → IsShared k max (together slots ms)
    → IsShared k max (turn_at lib w i n ms slots)
unfolding turn_at
turn_at-IsShared lib w i n k max [] slots bytes b = b
turn_at-IsShared lib w i zero k max ((ctx, s) ∷ ms) slots bytes b =
    settle-IsShared lib k max ctx s slots _ ms (omega (arith, b.used)) b.max b.sound.1
      (step-Kept lib ctx w i s slots bytes (with_slots k max ctx s ms slots b) b.sound.0.ready)
turn_at-IsShared lib w i (suc n) k max (m ∷ ms) slots bytes b =
    let inner =
      turn_at-IsShared lib w i n (k + one_if m.1.holds_upload_slot) max ms slots bytes (record {
        used = omega (arith, b.used);
        bounded = b.bounded;
        max = b.max;
        sound = b.sound.1;
      }) in
    record {
      used = omega (arith, inner.used);
      bounded = inner.bounded;
      max = inner.max;
      sound = (b.sound.0, inner.sound);
    }

abbrev pub AreBytesAt : Happening → Type 0
AreBytesAt (joins ctx w supported completed) = Unit
AreBytesAt (takes_turn n w i) = AreBytes i
AreBytesAt (is_aborted n none) = Unit
AreBytesAt (is_aborted n (some (w, i))) = AreBytes i

-- How many slots stay in use for nobody: those that sessions hold where they are aborted.
abbrev pub leak_at :
    Libraries → Option (Answers × Input) → ℕ → List (PeerContext × PeerSession) → UploadSlots → ℕ
leak_at lib o n [] slots = 0
leak_at lib o zero ((ctx, s) ∷ ms) slots =
    one_if (last_turn lib ctx o s slots).session.holds_upload_slot
leak_at lib o (suc n) (m ∷ ms) slots = leak_at lib o n ms slots

abbrev pub leak : Libraries → Happening → Sessions → ℕ
leak lib (joins ctx w supported completed) all = 0
leak lib (takes_turn n w i) all = 0
leak lib (is_aborted n o) all = leak_at lib o n all.members all.slots

abbrev pub leaked : Libraries → List Happening → Sessions → ℕ
leaked lib [] all = 0
leaked lib (h ∷ hs) all = leak lib h all + leaked lib hs (happen lib h all)

last_turn-Kept :
    (lib : Libraries) (ctx : PeerContext) (n : ℕ) (o : Option (Answers × Input)) (s : PeerSession)
    (slots : UploadSlots)
    → AreBytesAt (is_aborted n o)
    → IsValid ctx s slots
    → IsReady s
    → Kept lib ctx s slots (last_turn lib ctx o s slots)
unfolding last_turn
last_turn-Kept lib ctx n none s slots bytes v r = idle-Kept _ v r refl refl refl refl refl tt
last_turn-Kept lib ctx n (some (w, i)) s slots bytes v r = step-Kept lib ctx w i s slots bytes v r

abort_at-IsShared :
    (lib : Libraries) (o : Option (Answers × Input)) (n k max : ℕ)
    (ms : List (PeerContext × PeerSession)) (slots : UploadSlots)
    → AreBytesAt (is_aborted n o)
    → IsShared k max (together slots ms)
    → IsShared (k + leak_at lib o n ms slots) max (abort_at lib o n ms slots)
unfolding abort_at
abort_at-IsShared lib o n k max [] slots bytes b = record {
  used = omega (arith, b.used);
  bounded = b.bounded;
  max = b.max;
  sound = tt;
}
abort_at-IsShared lib o zero k max ((ctx, s) ∷ ms) slots bytes b =
    let kept =
      last_turn-Kept lib ctx 0 o s slots bytes (with_slots k max ctx s ms slots b)
        b.sound.0.ready in
    record {
      used = omega (arith, b.used, kept.balance);
      bounded = kept.valid.bounded;
      max = kept.max ∙ b.max;
      sound = b.sound.1;
    }
abort_at-IsShared lib o (suc n) k max (m ∷ ms) slots bytes b =
    let inner =
      abort_at-IsShared lib o n (k + one_if m.1.holds_upload_slot) max ms slots bytes (record {
        used = omega (arith, b.used);
        bounded = b.bounded;
        max = b.max;
        sound = b.sound.1;
      }) in
    record {
      used = omega (arith, inner.used);
      bounded = inner.bounded;
      max = inner.max;
      sound = (b.sound.0, inner.sound);
    }

happen-IsShared :
    (lib : Libraries) (h : Happening) (k max : ℕ) (all : Sessions)
    → AreBytesAt h
    → IsShared k max all
    → IsShared (k + leak lib h all) max (happen lib h all)
unfolding happen
happen-IsShared lib (is_aborted n o) k max all bytes b =
    abort_at-IsShared lib o n k max all.members all.slots bytes b
happen-IsShared lib (takes_turn n w i) k max all bytes b =
    turn_at-IsShared lib w i n (k + 0) max all.members all.slots bytes
      (record { used = omega (arith, b.used); bounded = b.bounded; max = b.max; sound = b.sound })
happen-IsShared lib (joins ctx w supported completed) k max all bytes b =
    let v = new_session-IsValid lib ctx w w.now all.slots b.bounded in
    settle-IsShared lib (k + 0) max ctx (new_session ctx w.now) all.slots _ all.members
      (unfold new_session in omega (arith, b.used)) b.max b.sound
      (send_opening_messages-Kept lib ctx w supported completed (new_session ctx w.now) all.slots v
        (unfold new_session in refl))

happenings-IsShared :
    (lib : Libraries) (hs : List Happening) (k max : ℕ) (all : Sessions)
    → All AreBytesAt hs
    → IsShared k max all
    → IsShared (k + leaked lib hs all) max (happenings lib hs all)
unfolding happenings
happenings-IsShared lib [] k max all bytes b = record {
  used = omega (arith, b.used);
  bounded = b.bounded;
  max = b.max;
  sound = b.sound;
}
happenings-IsShared lib (h ∷ hs) k max all bytes b =
    let rest =
      happenings-IsShared lib hs (k + leak lib h all) max (happen lib h all) bytes.1
        (happen-IsShared lib h k max all bytes.0 b) in
    record {
      used = omega (arith, rest.used);
      bounded = rest.bounded;
      max = rest.max;
      sound = rest.sound;
    }

unchoked-le : (ms : List (PeerContext × PeerSession)) → All IsSound ms → unchoked ms ≤ holders ms
unchoked-le [] s = omega arith
unchoked-le (m ∷ ms) (s, sound) = ground (arith, s.ready, unchoked-le ms sound)

-- However sessions start, take turns, end and are aborted, in any interleaving: the slots in use are
-- those that sessions hold and those that aborted sessions held where they were aborted, which are
-- never free again; and the peers that are unchoked, with the slots lost in this way, are no more than
-- the torrent has upload slots.
pub happenings-bounded :
    (lib : Libraries) (hs : List Happening) (max : ℕ)
    → All AreBytesAt hs
    → (unchoked (happenings lib hs (record { slots = new max; members = [] })).members
          + leaked lib hs (record { slots = new max; members = [] })
        ≤ max)
      × ((happenings lib hs (record { slots = new max; members = [] })).slots.used
          ≡ holders (happenings lib hs (record { slots = new max; members = [] })).members
            + leaked lib hs (record { slots = new max; members = [] }))
happenings-bounded lib hs max bytes =
    let b =
      happenings-IsShared lib hs 0 max (record { slots = new max; members = [] }) bytes
        (unfold new in record { used = refl; bounded = omega arith; max = refl; sound = tt }) in
    (omega (arith, unchoked-le _ b.sound, b.used, b.bounded, b.max), omega (arith, b.used))
