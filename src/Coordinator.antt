-- ===== src/Coordinator.antt =====
-- The coordinator of src/core/coordinator.rs: the task that owns the piece manager and the disk of
-- one torrent. Coordinator/Loop has `step`, which is one round of its loop. What the disk, the clock and the random choice
-- answer during a round is a `World`; what is sent, replied or asked of the disk is a list of
-- effects, in order. Log lines, status texts and progress numbers are left out.
pub mod Handlers
pub mod Counts
pub mod Check
pub mod Complete
pub mod Justify
pub mod Stored
pub mod Flushes
pub mod Effects
pub mod Runs
pub mod Invariant
pub mod Loop
mod Tests
use package.tortor.Prelude.{
  ℕ, ◌+◌, ◌-◌, ◌*◌, ◌%◌, Bool, true, false, not, ◌&&◌, ◌||◌, Option, none, some, List, [], ◌∷◌,
  ◌++◌, if◌then◌else◌, ltb, leb, ◌==◌, length, get_or, list_eq,
}
use package.tortor.Prelude.Words.{u32_mod}
use package.tortor.Prelude.Result.{Result, ok, err}
use package.tortor.Bitfield.{Bitfield}
use package.tortor.Selection.{Selection}
use package.tortor.Manager
use package.tortor.Manager.{TorrentManager}
use package.tortor.MetadataAssembler
use package.tortor.MetadataAssembler.{MetadataAssembler, MetadataError}
use package.tortor.Torrent.{TorrentMeta}
use package.tortor.Bencode.Meta.{RawInfo}
use package.tortor.Bencode.Parse.{ParseError, parse_torrent_metadata_bytes}
use package.tortor.Resume.{FastResumeState, from_manager}

-- Milliseconds.
abbrev pub resume_persist_interval : ℕ
resume_persist_interval = 5000

abbrev pub max_block_request : ℕ
max_block_request = 32 * 1024

pub data CoordinatorMsg : Type 0 where
  request_work : Bitfield → CoordinatorMsg
  peer_bitfield : Bitfield → CoordinatorMsg
  peer_have : ℕ → CoordinatorMsg
  peer_gone : Bitfield → CoordinatorMsg
  piece_downloaded : ℕ → List ℕ → CoordinatorMsg
  piece_failed : ℕ → CoordinatorMsg
  get_completed_pieces : CoordinatorMsg
  read_piece : ℕ → ℕ → ℕ → CoordinatorMsg
  request_metadata_work : CoordinatorMsg
  metadata_piece_downloaded : ℕ → List ℕ → CoordinatorMsg
  metadata_piece_failed : ℕ → CoordinatorMsg
  pause resume : CoordinatorMsg
  set_selection : Selection → List Bool → Bitfield → CoordinatorMsg

-- A round of the loop: a message, or a tick of the timer.
pub data Event : Type 0 where
  incoming : CoordinatorMsg → Event
  tick : Event

pub data Effect : Type 0 where
  reply_work : Option ℕ → Effect
  reply_pieces : List ℕ → Effect
  reply_block : Option (List ℕ) → Effect
  reply_metadata_work : Option ℕ → Effect
  write_piece : ℕ → List ℕ → Effect
  select_files : List Bool → Effect
  flush : Effect
  save_fastresume : FastResumeState → Effect
  metadata_ready : TorrentMeta → Effect
  piece_completed : ℕ → Effect
  download_complete selection_changed : Effect
  paused_state : Bool → Effect

-- The answers of one round.
pub record World : Type 0 where
  pub now : ℕ
  pub coin : ℕ → ℕ → Bool
  pub written : Bool
  pub flushed : Bool
  pub files_selected : Bool
  pub disk_ready : Bool
  pub target_exists : Bool
  pub block_at : ℕ → ℕ → ℕ → Option (List ℕ)

pub record Fetching : Type 0 where
  pub assembler : MetadataAssembler
  pub info_hash : List ℕ

pub record Checking : Type 0 where
  pub manager : TorrentManager
  pub expected_hashes : List (List ℕ)
  pub piece_length : ℕ
  pub total_length : ℕ
  pub next_piece : ℕ

pub record Downloading : Type 0 where
  pub manager : TorrentManager
  pub paused : Bool
  pub has_completed : Bool

pub data CoordinatorState : Type 0 where
  downloading_metadata : Fetching → CoordinatorState
  checking_files : Checking → CoordinatorState
  downloading_data : Downloading → CoordinatorState

-- What a round leaves behind; `persisted` when it reset `last_persist`.
pub record Outcome : Type 0 where
  pub effects : List Effect
  pub state : CoordinatorState
  pub persisted : Bool

abbrev pub leave : List Effect → CoordinatorState → Outcome
leave es s = record { effects = es; state = s; persisted = false }

pub record Coordinator : Type 0 where
  pub state : CoordinatorState
  pub last_persist : ℕ

unfoldable pub manager_mut : CoordinatorState → Option TorrentManager
manager_mut (downloading_metadata f) = none
manager_mut (checking_files c) = some c.manager
manager_mut (downloading_data d) = some d.manager

-- `if let Some(manager) = state.manager_mut() { ... }`
unfoldable pub on_manager : (TorrentManager → TorrentManager) → CoordinatorState → CoordinatorState
on_manager f (downloading_metadata s) = downloading_metadata s
on_manager f (checking_files c) = checking_files (record c { manager = f c.manager })
on_manager f (downloading_data d) = downloading_data (record d { manager = f d.manager })

-- Both the UI and the session tasks are told.
abbrev pub complete_if : Bool → List Effect
complete_if b = if b then download_complete ∷ [] else []

abbrev pub announce_piece : TorrentManager → ℕ → List Effect
announce_piece m p = if Manager.is_servable m p then piece_completed p ∷ [] else []
