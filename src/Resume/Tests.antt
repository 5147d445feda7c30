-- ===== src/Resume/Tests.antt =====
-- The resume record at concrete inputs.
use tortor.Prelude.{ℕ, ◌*◌, ◌≤◌, ◌≡◌, refl, Bool, Option, none, some, List, [], ◌∷◌, arith}
use tortor.Prelude.Sets.{contains}
use tortor.Prelude.Result.{ok, err}
use tortor.Selection
use tortor.Manager.{TorrentManager, with_selection}
use tortor.Manager.Invariant.{IsValid, with_selection-IsValid}
use tortor.Resume.{FastResumeState, encode, decode, from_manager, into_manager, truncated}
use tortor.Resume.RoundTrip.{normal, decode-encode, restart_lem}

abbrev no_json : List ℕ → Option FastResumeState
no_json bytes = none

abbrev saved : FastResumeState
saved = record { version = 2; total_pieces = 10; completed = 9 ∷ 0 ∷ 9 ∷ 12 ∷ [] }

abbrev half_done : TorrentManager
half_done = with_selection 3 (1 ∷ []) (Selection.all 3)

saved_bytes : encode saved ≡ 84 ∷ 84 ∷ 82 ∷ 83 ∷ 2 ∷ 10 ∷ 0 ∷ 0 ∷ 0 ∷ 128 ∷ 64 ∷ []
unfolding encode tortor.Bitfield.from_indices tortor.Bitfield.set tortor.Bitfield.new
    tortor.Prelude.Bits.set_bit
saved_bytes = refl

cut_off : decode no_json (84 ∷ 84 ∷ 82 ∷ 83 ∷ 2 ∷ []) ≡ err truncated
unfolding decode
cut_off = refl

decode-encode_example : decode no_json (encode saved) ≡ ok (normal saved)
decode-encode_example = decode-encode no_json saved (ground arith)

restart_lem_example :
    (s : FastResumeState) × (decode no_json (encode (from_manager half_done)) ≡ ok s)
    × IsValid (into_manager s half_done.total_pieces)
    × ((p : ℕ)
        → contains p (into_manager s half_done.total_pieces).completed
          ≡ contains p half_done.completed)
restart_lem_example =
    restart_lem no_json half_done (with_selection-IsValid 3 (1 ∷ []) (Selection.all 3)) three_le
  where
    three_le : half_done.total_pieces ≤ 16 * 1024 * 1024
    three_le = unfold with_selection in ground arith
