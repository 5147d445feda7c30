-- ===== src/Manager.antt =====
-- The piece manager of src/core/manager.rs: the pieces that are missing, in progress and completed,
-- and which of them a peer is given next. The hash sets and maps are lists without repetition; the
-- random choice among equally rare pieces is an argument, a function of the position in the queue
-- and of the number of ties so far.
pub mod Store
pub mod Pick
pub mod Invariant
pub mod Steps
pub mod Returns
pub mod Work
pub mod Done
mod Tests
use package.tortor.Prelude.{
  ℕ, zero, suc, ◌+◌, ◌-◌, Bool, true, false, not, ◌&&◌, ◌||◌, Option, none, some, List, [], ◌∷◌,
  ◌++◌, if◌then◌else◌, ltb, leb, ◌==◌, length, replicate, get_elem?, get_or, set, filterb, min,
}
use package.tortor.Prelude.Words.{u16_mod}
use package.tortor.Prelude.Sets.{contains, insert, remove, filter_range}
use package.tortor.Bitfield
use package.tortor.Bitfield.{Bitfield}
use package.tortor.Selection
use package.tortor.Selection.{Selection}

abbrev pub max_endgame_holders : ℕ
max_endgame_holders = 3

pub data PieceState : Type 0 where
  missing_state downloading downloaded : PieceState

-- `HashMap<u32, u32>`, without repeated keys.
abbrev pub HolderMap : Type 0
HolderMap = List (ℕ × ℕ)

unfoldable pub holders : ℕ → HolderMap → Option ℕ
holders p [] = none
holders p ((q, n) ∷ m) = if p == q then some n else holders p m

abbrev pub contains_key : ℕ → HolderMap → Bool
contains_key p m = elim (holders p m) [ none ↦ false | some _ ↦ true ]

unfoldable pub remove_key : ℕ → HolderMap → HolderMap
remove_key p [] = []
remove_key p ((q, n) ∷ m) = if p == q then remove_key p m else (q, n) ∷ remove_key p m

unfoldable pub put : ℕ → ℕ → HolderMap → HolderMap
unfolding remove_key
put p n m = (p, n) ∷ remove_key p m

pub record TorrentManager : Type 0 where
  pub total_pieces : ℕ
  pub missing : List ℕ
  pub in_progress : HolderMap
  pub completed : List ℕ
  pub availability : List ℕ
  pub missing_dirty : Bool
  pub selection : Selection
  pub wanted_total : ℕ
  pub wanted_completed : ℕ

abbrev pub wanted_in : Selection → ℕ → Bool
wanted_in s p = Bitfield.has s.wanted p

-- `.iter().copied().filter(|idx| *idx < total).collect()` into a set.
unfoldable pub collect_below : ℕ → List ℕ → List ℕ
collect_below total [] = []
collect_below total (p ∷ ps) =
    let rest = collect_below total ps in if ltb p total then insert p rest else rest

unfoldable pub with_selection : ℕ → List ℕ → Selection → TorrentManager
unfolding collect_below
with_selection total_pieces completed_pieces selection =
    let completed = collect_below total_pieces completed_pieces in
    record {
      total_pieces = total_pieces;
      missing =
          filter_range 0 total_pieces (λ p. wanted_in selection p && not (contains p completed));
      in_progress = [];
      completed = completed;
      availability = replicate total_pieces 0;
      missing_dirty = false;
      selection = selection;
      wanted_total = length (filter_range 0 total_pieces (wanted_in selection));
      wanted_completed = length (filterb (wanted_in selection) completed);
    }

unfoldable pub from_completed : ℕ → List ℕ → TorrentManager
unfolding with_selection
from_completed total_pieces completed_pieces =
    with_selection total_pieces completed_pieces (Selection.all total_pieces)

unfoldable pub new : ℕ → TorrentManager
unfolding from_completed
new total_pieces = from_completed total_pieces []

abbrev pub is_wanted : TorrentManager → ℕ → Bool
is_wanted m p = wanted_in m.selection p

abbrev pub is_completed : TorrentManager → ℕ → Bool
is_completed m p = contains p m.completed

unfoldable pub is_servable : TorrentManager → ℕ → Bool
is_servable m p = contains p m.completed && not (Bitfield.has m.selection.unservable p)

-- The completed pieces in ascending order. They are all below `total_pieces`.
unfoldable pub completed_pieces : TorrentManager → List ℕ
completed_pieces m = filter_range 0 m.total_pieces (λ p. contains p m.completed)

unfoldable pub servable_pieces : TorrentManager → List ℕ
unfolding completed_pieces
servable_pieces m = filterb (λ p. not (Bitfield.has m.selection.unservable p)) (completed_pieces m)

-- `self.missing.retain(...)`, if a piece was completed since.
unfoldable pub refresh : TorrentManager → TorrentManager
refresh m =
    if m.missing_dirty
    then record m {
      missing = filterb (λ p. not (contains p m.completed)) m.missing;
      missing_dirty = false;
    }
    else m

-- What the search for the rarest piece knows: the position and availability of the best piece so
-- far, and the number of ties with it.
pub record Best : Type 0 where
  pub pos : ℕ
  pub avail : ℕ
  pub ties : ℕ

module _ (coin : ℕ → ℕ → Bool) (peer_has : ℕ → Bool) (availability : List ℕ) where
  -- A piece against the best one so far.
  unfoldable pub consider : ℕ → ℕ → Option Best → Best
  consider pos avail none = record { pos = pos; avail = avail; ties = 0 }
  consider pos avail (some b) =
      if ltb b.avail avail
      then b
      else if avail == b.avail
      then (if coin pos (b.ties + 1)
          then record { pos = pos; avail = avail; ties = b.ties + 1 }
          else record b { ties = b.ties + 1 })
      else record { pos = pos; avail = avail; ties = 0 }

  unfoldable pub pick : ℕ → List ℕ → Option Best → Option Best
  unfolding consider
  pick pos [] best = best
  pick pos (piece ∷ pieces) best =
      pick (pos + 1) pieces
        (if peer_has piece then some (consider pos (get_or availability piece 0) best) else best)

-- `VecDeque::remove`, within the queue.
abbrev pub remove_at : ℕ → List ℕ → List ℕ
remove_at i [] = []
remove_at zero (x ∷ xs) = xs
remove_at (suc i) (x ∷ xs) = x ∷ remove_at i xs

-- The endgame candidate: the smallest `(holders, piece)` among those that may be shared.
abbrev pub shareable : (ℕ → Bool) → ℕ → ℕ → Bool
shareable peer_has piece n = ltb n max_endgame_holders && peer_has piece

abbrev pub before : ℕ × ℕ → ℕ × ℕ → Bool
before (p, n) (q, k) = ltb n k || n == k && ltb p q

abbrev pub smaller : ℕ × ℕ → Option (ℕ × ℕ) → ℕ × ℕ
smaller c none = c
smaller c (some d) = if before d c then d else c

unfoldable pub candidate : (ℕ → Bool) → HolderMap → Option (ℕ × ℕ)
candidate peer_has [] = none
candidate peer_has ((p, n) ∷ m) =
    let rest = candidate peer_has m in
    if shareable peer_has p n then some (smaller (p, n) rest) else rest

-- The branch of `next_work_for` with nothing left to assign.
unfoldable pub endgame : (ℕ → Bool) → TorrentManager → Option ℕ × TorrentManager
unfolding candidate
endgame peer_has m = elim (candidate peer_has m.in_progress) [
  | none ↦ (none, m)
  | some (p, n) ↦ (some p, record m { in_progress = put p (n + 1) m.in_progress })
]

-- The branch with a piece found at a position of the queue.
unfoldable pub assign : ℕ → TorrentManager → Option ℕ × TorrentManager
assign pos m = elim (get_elem? m.missing pos) [
  | none ↦ (none, m)
  | some piece ↦ (
    some piece,
    record m { missing = remove_at pos m.missing; in_progress = put piece 1 m.in_progress },
  )
]

unfoldable pub choose : (ℕ → ℕ → Bool) → (ℕ → Bool) → TorrentManager → Option ℕ × TorrentManager
unfolding pick endgame assign
choose coin peer_has m = elim (pick coin peer_has m.availability 0 m.missing none) [
  | some b ↦ assign b.pos m
  | none ↦ if leb 1 (length m.missing) then (none, m) else endgame peer_has m
]

unfoldable pub next_work_for :
    (ℕ → ℕ → Bool) → Bitfield → TorrentManager → Option ℕ × TorrentManager
unfolding refresh choose
next_work_for coin peer_has m = choose coin (Bitfield.has peer_has) (refresh m)

-- The end of `return_work`: the last holder gave the piece up.
unfoldable pub release : ℕ → TorrentManager → TorrentManager
release p m =
    let m' : TorrentManager = record m { in_progress = remove_key p m.in_progress } in
    if not (contains p m.completed) && is_wanted m p
    then record m' { missing = m.missing ++ (p ∷ []) }
    else m'

-- The count is at least one (Manager/Invariant), so the subtraction does not wrap.
unfoldable pub return_work : ℕ → TorrentManager → TorrentManager
unfolding release
return_work p m = elim (holders p m.in_progress) [
  | none ↦ m
  | some n ↦
      if n - 1 == 0 then release p m else record m { in_progress = put p (n - 1) m.in_progress }
]

abbrev pub remove_all : List ℕ → List ℕ → List ℕ
remove_all [] s = s
remove_all (p ∷ ps) s = remove_all ps (remove p s)

unfoldable pub apply_selection : Selection → Bitfield → TorrentManager → TorrentManager
apply_selection selection refetch m =
    let completed = remove_all (Bitfield.iter_ones refetch) m.completed in
    record m {
      completed = completed;
      selection = selection;
      wanted_total = length (filter_range 0 m.total_pieces (wanted_in selection));
      wanted_completed = length (filterb (wanted_in selection) completed);
      missing = filter_range 0 m.total_pieces (λ p.
          wanted_in selection p
          && (not (contains p completed) && not (contains_key p m.in_progress)));
      missing_dirty = false;
    }

unfoldable pub mark_completed : ℕ → TorrentManager → TorrentManager
mark_completed p m =
    if leb m.total_pieces p
    then m
    else (let m' : TorrentManager = record m { in_progress = remove_key p m.in_progress } in
        if contains p m.completed then m' else record m' {
          completed = insert p m.completed;
          missing_dirty = true;
          wanted_completed = (if is_wanted m p then m.wanted_completed + 1 else m.wanted_completed);
        })

abbrev pub saturating_inc : ℕ → ℕ
saturating_inc n = min (n + 1) (u16_mod - 1)

-- `if let Some(slot) = availability.get_mut(i) { *slot = f(*slot) }`
abbrev pub update_at : (ℕ → ℕ) → List ℕ → ℕ → List ℕ
update_at f xs i = set xs i (f (get_or xs i 0))

abbrev pub update_each : (ℕ → ℕ) → List ℕ → List ℕ → List ℕ
update_each f xs [] = xs
update_each f xs (i ∷ is) = update_each f (update_at f xs i) is

unfoldable pub add_peer_pieces : Bitfield → TorrentManager → TorrentManager
add_peer_pieces pieces m = record m {
  availability = update_each saturating_inc m.availability (Bitfield.iter_ones pieces);
}

unfoldable pub remove_peer_pieces : Bitfield → TorrentManager → TorrentManager
remove_peer_pieces pieces m = record m {
  availability = update_each (λ n. n - 1) m.availability (Bitfield.iter_ones pieces);
}

unfoldable pub add_peer_piece : ℕ → TorrentManager → TorrentManager
add_peer_piece i m = record m { availability = update_at saturating_inc m.availability i }

unfoldable pub availability_of : TorrentManager → ℕ → ℕ
availability_of m i = get_or m.availability i 0

unfoldable pub is_done : TorrentManager → Bool
is_done m = m.wanted_completed == m.wanted_total

unfoldable pub completed_count : TorrentManager → ℕ
completed_count m = length m.completed

unfoldable pub piece_state : TorrentManager → ℕ → Option PieceState
piece_state m p =
    if leb m.total_pieces p
    then none
    else if contains p m.completed
    then some downloaded
    else if contains_key p m.in_progress
    then some downloading
    else some missing_state
