-- ===== src/Resume/RoundTrip.antt =====
-- A saved record reads back, and a restart restores the completed pieces.
use tortor.Prelude.{
  ℕ, ◌+◌, ◌*◌, ◌/◌, ◌%◌, ◌^◌, ◌≤◌, ◌≡◌, ap, ◌∙◌, inl, inr, false, ◌&&◌, Option, some, List, ltb,
  ◌==◌, Bool-cases, le→ltb_false, length, arith,
}
use tortor.Prelude.Sets.{contains, contains-filter_range}
use tortor.Prelude.Result.{ok}
use tortor.Bitfield
use tortor.Bitfield.{Bitfield}
use tortor.Bitfield.Valid.{from_indices-IsValid}
use tortor.Bitfield.Members.{has-from_indices, len-from_indices, from_wire_iff}
use tortor.Manager
use tortor.Manager.{TorrentManager}
use tortor.Manager.Store.{contains-collect_below}
use tortor.Manager.Invariant.{IsValid, with_selection-IsValid}
use tortor.Resume.{
  FastResumeState, from_manager, into_manager, encode, decode, decode_pieces, format_version,
  max_pieces, header_len,
}

-- The record that is read for a saved one: its completed pieces without repetitions, in order, and
-- without those out of range.
abbrev pub normal : FastResumeState → FastResumeState
normal s = record {
  version = format_version;
  total_pieces = s.total_pieces;
  completed = Bitfield.iter_ones (Bitfield.from_indices s.total_pieces s.completed);
}

abbrev with_len : List ℕ → ℕ → Bitfield
with_len bytes len = record { bytes = bytes; len = len }

-- The wire form of a field that was built from indices is accepted.
from_wire-from_indices :
    (len : ℕ) (is : List ℕ)
    → Bitfield.from_wire len (Bitfield.from_indices len is).bytes
      ≡ some (Bitfield.from_indices len is)
from_wire-from_indices len is =
    let f = Bitfield.from_indices len is in
    let v = from_indices-IsValid len is in
    let same : f.len ≡ len = len-from_indices len is in
    (from_wire_iff len f.bytes f v.are_bytes).1 (ap (with_len f.bytes) same, v)

decode_pieces_lem :
    (from_json : List ℕ → Option FastResumeState) (n : ℕ) (is : List ℕ)
    → n ≤ max_pieces
    → decode_pieces from_json n (Bitfield.from_indices n is).bytes
      ≡ ok (record {
        version = format_version;
        total_pieces = n;
        completed = Bitfield.iter_ones (Bitfield.from_indices n is);
      })
unfolding decode_pieces
decode_pieces_lem from_json n is h = rw (le→ltb_false max_pieces n h, from_wire-from_indices n is)

-- The completed pieces of a record are those in range.
contains-normal :
    (s : FastResumeState) (p : ℕ)
    → contains p (normal s).completed ≡ (ltb p s.total_pieces && contains p s.completed)
unfolding Bitfield.iter_ones
contains-normal s p =
    let f = Bitfield.from_indices s.total_pieces s.completed in
    ground (
      arith,
      contains-filter_range 0 f.len (Bitfield.has f) p,
      has-from_indices s.total_pieces s.completed p,
      len-from_indices s.total_pieces s.completed,
    )

contains-into_manager :
    (s : FastResumeState) (p : ℕ)
    → contains p (into_manager s s.total_pieces).completed
      ≡ (contains p s.completed && ltb p s.total_pieces)
unfolding into_manager Manager.from_completed Manager.with_selection
contains-into_manager s p = elim (Bool-cases (s.total_pieces == s.total_pieces)) [
  | inl same ↦ rw same (contains-collect_below s.total_pieces s.completed p)
  | inr different ↦ rw different (contains-collect_below s.total_pieces s.completed p)
]

into_manager-IsValid : (s : FastResumeState) (n : ℕ) → IsValid (into_manager s n)
unfolding into_manager Manager.from_completed
into_manager-IsValid s n = with_selection-IsValid _ s.completed _

-- A saved record of at most 2^24 pieces reads back as its normal form, whatever the JSON reader.
pub decode-encode :
    (from_json : List ℕ → Option FastResumeState) (s : FastResumeState)
    → s.total_pieces ≤ max_pieces
    → decode from_json (encode s) ≡ ok (normal s)
unfolding decode encode
decode-encode from_json s h =
    let n = s.total_pieces in
    let number : n % 256
          + n / 2 ^ 8 % 256 * 2 ^ 8
          + n / 2 ^ 16 % 256 * 2 ^ 16
          + n / 2 ^ 24 % 256 * 2 ^ 24
        ≡ n =
      omega arith in
    let long : ltb (length (encode s)) header_len ≡ false =
      le→ltb_false (length (encode s)) header_len (omega arith) in
    rw long (
      ap (λ k. decode_pieces from_json k (Bitfield.from_indices n s.completed).bytes) number
      ∙ decode_pieces_lem from_json n s.completed h)

-- After a restart from the saved record of a well-formed manager of at most 2^24 pieces, the
-- manager is well formed, and its completed pieces are those of the one that was saved.
pub restart_lem :
    (from_json : List ℕ → Option FastResumeState) (m : TorrentManager)
    → IsValid m
    → m.total_pieces ≤ max_pieces
    → (s : FastResumeState) × (decode from_json (encode (from_manager m)) ≡ ok s)
      × IsValid (into_manager s m.total_pieces)
      × ((p : ℕ) → contains p (into_manager s m.total_pieces).completed ≡ contains p m.completed)
unfolding from_manager Manager.completed_pieces
restart_lem from_json m v h =
    let s = from_manager m in
    (
      normal s,
      decode-encode from_json s h,
      into_manager-IsValid (normal s) m.total_pieces,
      λ p.
          let made = contains-into_manager (normal s) p in
          let read = contains-normal s p in
          let saved = contains-filter_range 0 m.total_pieces (λ q. contains q m.completed) p in
          elim (Bool-cases (contains p m.completed)) [
            | inl there ↦ ground (arith, made, read, saved, (v.pieces p).done there)
            | inr absent ↦ ground (arith, made, read, saved)
          ],
    )
