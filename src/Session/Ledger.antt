-- ===== src/Session/Ledger.antt =====
-- What a session owes: the counts that its trace and its state keep in balance.
use tortor.Prelude.{
  ℕ, ◌+◌, ◌≤◌, ◌<◌, ◌≡◌, refl, ◌∙◌, Bool, true, not, Option, none, some, List, [], ◌∷◌, ◌++◌,
  if◌then◌else◌, ◌==◌, length, All, All-append, get_elem?, arith,
}
use tortor.Bitfield
use tortor.Bitfield.{Bitfield}
use tortor.Bitfield.Valid as Fields
use tortor.Coordinator.{
  peer_have, peer_bitfield, peer_gone, piece_failed, piece_downloaded, read_piece,
  max_block_request,
}
use tortor.Session.{
  UploadSlots, PeerContext, Libraries, Job, PeerSession, Effect, tell, given, heard, unhashed, Turn,
  Status, goes_on, ends, fails, prepend, then_turn, piece_len_at,
}
use tortor.Session.Messages.{fits}

abbrev pub one_if : Bool → ℕ
one_if b = if b then 1 else 0

-- How often the coordinator is told that the peer has the piece `i`, or no longer has it.
abbrev pub gains : ℕ → Effect → ℕ
gains i (tell (peer_have j)) = one_if (i == j)
gains i (tell (peer_bitfield f)) = one_if (Bitfield.has f i)
gains i e = 0

abbrev pub losses : ℕ → Effect → ℕ
losses i (tell (peer_gone f)) = one_if (Bitfield.has f i)
losses i e = 0

-- How often the piece `p` is reserved for the session, and how often that is over: it is given back,
-- handed over or announced to be complete, or the task that hashes it fails.
abbrev pub reserved : ℕ → Effect → ℕ
reserved p (given q) = one_if (p == q)
reserved p e = 0

abbrev pub settled : ℕ → Effect → ℕ
settled p (tell (piece_failed q)) = one_if (p == q)
settled p (tell (piece_downloaded q bytes)) = one_if (p == q)
settled p (heard q) = one_if (p == q)
settled p (unhashed q) = one_if (p == q)
settled p e = 0

abbrev pub total : (Effect → ℕ) → List Effect → ℕ
total f [] = 0
total f (e ∷ es) = f e + total f es

pub total-append :
    (f : Effect → ℕ) (es fs : List Effect) → total f (es ++ fs) ≡ total f es + total f fs
total-append f [] fs = omega arith
total-append f (e ∷ es) fs = omega (arith, total-append f es fs)

abbrev pub holds_job : ℕ → PeerSession → ℕ
holds_job p s = elim s.job [ none ↦ 0 | some j ↦ one_if (p == j.index) ]

-- What the coordinator may be told: a piece is handed over with the hash that is expected of it, a
-- block is asked for within its piece, and pieces of the peer are within the torrent.
abbrev pub IsAllowed : Libraries → PeerContext → Effect → Type 0
IsAllowed lib ctx (tell (piece_downloaded p bytes)) =
    get_elem? ctx.expected_hashes p ≡ some (lib.hash_piece bytes)
IsAllowed lib ctx (tell (read_piece index begin len)) =
    (0 < len) × (len ≤ max_block_request) × (fits (begin + len) (piece_len_at ctx index) ≡ true)
IsAllowed lib ctx (tell (peer_have i)) = i < length ctx.expected_hashes
IsAllowed lib ctx (tell (peer_bitfield f)) = f.len ≡ length ctx.expected_hashes
IsAllowed lib ctx e = Unit

abbrev pub JobOk : PeerContext → Option Job → Type 0
JobOk ctx none = Unit
JobOk ctx (some j) = get_elem? ctx.expected_hashes j.index ≡ some j.expected_hash

pub record IsValid (ctx : PeerContext) (s : PeerSession) (slots : UploadSlots) : Type 0 where
  pub have_valid : Fields.IsValid s.have_pieces
  pub have_len : s.have_pieces.len ≡ length ctx.expected_hashes
  pub job_ok : JobOk ctx s.job
  pub held : one_if s.holds_upload_slot ≤ slots.used
  pub bounded : slots.used ≤ slots.max

-- Between turns a session holds a slot exactly while its peer may ask for blocks.
abbrev pub IsReady : PeerSession → Type 0
IsReady s = s.holds_upload_slot ≡ not s.am_choking

-- A turn from a valid state.
pub record Kept (lib : Libraries) (ctx : PeerContext) (s : PeerSession) (slots : UploadSlots)
    (t : Turn) : Type 0 where
  pub valid : IsValid ctx t.session t.slots
  pub ready : t.status ≡ goes_on → IsReady t.session
  pub max : t.slots.max ≡ slots.max
  pub balance :
      t.slots.used + one_if s.holds_upload_slot ≡ slots.used + one_if t.session.holds_upload_slot
  pub pieces :
      (i : ℕ)
      → total (losses i) t.effects + one_if (Bitfield.has t.session.have_pieces i)
        ≤ total (gains i) t.effects + one_if (Bitfield.has s.have_pieces i)
  pub jobs :
      (p : ℕ)
      → total (reserved p) t.effects + holds_job p s
        ≤ holds_job p t.session + total (settled p) t.effects
  pub allowed : All (IsAllowed lib ctx) t.effects

pub prepend-Kept :
    {lib : Libraries} {ctx : PeerContext} {s : PeerSession} {slots : UploadSlots} (t u : Turn)
    → Kept lib ctx s slots t
    → Kept lib ctx t.session t.slots u
    → Kept lib ctx s slots (prepend t.effects u)
prepend-Kept {lib} {ctx} {s} {slots} t u k l = record {
  valid = l.valid;
  ready = l.ready;
  max = l.max ∙ k.max;
  balance = omega (arith, k.balance, l.balance);
  pieces = λ i. omega (
    arith,
    k.pieces i,
    l.pieces i,
    total-append (gains i) t.effects u.effects,
    total-append (losses i) t.effects u.effects,
  );
  jobs = λ p. omega (
    arith,
    k.jobs p,
    l.jobs p,
    total-append (reserved p) t.effects u.effects,
    total-append (settled p) t.effects u.effects,
  );
  allowed = All-append _ t.effects u.effects k.allowed l.allowed;
}

pub then_turn-Kept :
    {lib : Libraries} {ctx : PeerContext} {s : PeerSession} {slots : UploadSlots} (t : Turn)
    (next : PeerSession → UploadSlots → Turn)
    → Kept lib ctx s slots t
    → ((s' : PeerSession) (slots' : UploadSlots)
        → IsValid ctx s' slots'
        → IsReady s'
        → Kept lib ctx s' slots' (next s' slots'))
    → Kept lib ctx s slots (then_turn t next)
unfolding then_turn
then_turn-Kept {lib} {ctx} {s} {slots} t next k f = by_status t.status refl
  where
    by_status :
        (st : Status)
        → t.status ≡ st
        → Kept lib ctx s slots (elim st [
          | goes_on ↦ prepend t.effects (next t.session t.slots)
          | ends ↦ t
          | fails e ↦ t
        ])
    by_status goes_on h =
        prepend-Kept t (next t.session t.slots) k (f t.session t.slots k.valid (k.ready h))
    by_status ends h = k
    by_status (fails e) h = k
