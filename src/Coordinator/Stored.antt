-- ===== src/Coordinator/Stored.antt =====
-- What the check of one stored file finds: `verified` of Coordinator/Loop.
use tortor.Prelude.{
  ℕ, ◌+◌, ◌-◌, ◌*◌, ◌%◌, ◌≤◌, ◌<◌, ◌≡◌, ◌↔◌, sym, ap, ◌∙◌, inl, inr, Bool, if◌then◌else◌, true,
  false, min, Option, none, some, List, [], ◌==◌, ==→≡, Bool-cases, Option-cases, get_or, list_eq,
  list_eq→≡, list_eq_refl, arith,
}
use mathlib.Core.Path.{subst}
use native.Mathlib.Nat.{mod_self, add-mul-mod_self_right, mod-eq_of_lt}
use tortor.Prelude.Words.{u32_mod, div_ceil}
use tortor.Torrent.Pieces.{count_bounds}
use tortor.Manager
use tortor.Bencode.Meta.{RawInfo}
use tortor.Coordinator.{Checking, World}
use tortor.Coordinator.Loop.{check_len, verified}

-- The pieces are those of the data, and their length is a 32-bit number.
pub record IsTiled (c : Checking) : Type 0 where
  pub positive : 0 < c.piece_length
  pub word : c.piece_length < u32_mod
  pub count : c.manager.total_pieces ≡ div_ceil c.total_length c.piece_length

-- The bytes of a piece: as many as a piece has, or as are left for the last one.
abbrev pub len_of : Checking → ℕ → ℕ
len_of c p = min c.piece_length (c.total_length - p * c.piece_length)

-- A piece is wanted, the disk gives all its bytes, and they have the expected hash.
pub record IsStored (hash_sha1 : List ℕ → List ℕ) (w : World) (c : Checking) (p : ℕ) : Type 0 where
  pub wanted : Manager.is_wanted c.manager p ≡ true
  pub bytes : List ℕ
  pub read : w.block_at p 0 (len_of c p) ≡ some bytes
  pub genuine : hash_sha1 bytes ≡ get_or c.expected_hashes p []

last_mod :
    (total d q : ℕ)
    → q * d < total
    → total ≤ (q + 1) * d
    → d < u32_mod
    → (if total % d % u32_mod == 0 then d else total % d % u32_mod) ≡ min d (total - q * d)
last_mod total d q lo hi word =
    let split : total ≡ (total - q * d) + q * d = omega (arith, lo) in
    let same : total % d ≡ (total - q * d) % d =
      ap (λ n. n % d) split ∙ add-mul-mod_self_right (total - q * d) q d in
    elim (Bool-cases (total - q * d == d)) [
      | inl whole ↦
          let e : total - q * d ≡ d = ==→≡ (total - q * d) d whole in
          let none_left : total % d ≡ 0 = same ∙ (rw e (mod_self d)) in
          rw none_left (omega (arith, e))
      | inr part ↦
          let less : total - q * d < d = ground (arith, part, hi, lo) in
          let rest : total % d ≡ total - q * d = same ∙ mod-eq_of_lt less in
          let small : (total - q * d) % u32_mod ≡ total - q * d =
            mod-eq_of_lt (omega (arith, less, word)) in
          rw (rest, small) (ground (arith, lo, less))
    ]

pub check_len_lem :
    (c : Checking) (p : ℕ)
    → IsTiled c
    → p < c.manager.total_pieces
    → check_len (record c { next_piece = p }) ≡ len_of c p
unfolding check_len
check_len_lem c p t lt =
    let bounds = count_bounds c.total_length c.piece_length t.positive in
    let all_of : (n : ℕ) → c.manager.total_pieces ≡ n → c.total_length ≤ n * c.piece_length =
      λ n e. subst (λ n. c.total_length ≤ n * c.piece_length) (sym t.count ∙ e) bounds.0 in
    elim (Bool-cases (p == c.manager.total_pieces - 1)) [
      | inl last ↦ rw last (
          last_mod c.total_length c.piece_length p (bounds.1 p (omega (arith, t.count, lt)))
            (all_of (p + 1) (ground (arith, last, lt))) t.word)
      | inr before ↦
          let next : (p + 1) * c.piece_length < c.total_length =
            bounds.1 (p + 1) (ground (arith, before, lt, t.count)) in
          rw before (omega (arith, next))
    ]

module _ (windows : Bool) (hash_sha1 : List ℕ → List ℕ) (decode : List ℕ → Option RawInfo) where
  verified_len :
      (w : World) (c : Checking) (p len : ℕ)
      → check_len (record c { next_piece = p }) ≡ len
      → verified windows hash_sha1 decode w (record c { next_piece = p }) ≡ (
          if Manager.is_wanted c.manager p
          then (elim (w.block_at p 0 len) [
            | none ↦ false
            | some bytes ↦ list_eq (hash_sha1 bytes) (get_or c.expected_hashes p [])
          ])
          else false)
  unfolding verified
  verified_len w c p len e =
      ap
        (λ n.
          if Manager.is_wanted c.manager p
          then (elim (w.block_at p 0 n) as (λ _. Bool) [
            | none ↦ false
            | some bytes ↦ list_eq (hash_sha1 bytes) (get_or c.expected_hashes p [])
          ])
          else false)
        e

  pub verified_iff :
      (w : World) (c : Checking) (p : ℕ)
      → IsTiled c
      → p < c.manager.total_pieces
      → (verified windows hash_sha1 decode w (record c { next_piece = p }) ≡ true)
        ↔ IsStored hash_sha1 w c p
  verified_iff w c p t lt =
      let e = verified_len w c p (len_of c p) (check_len_lem c p t lt) in
      (
        λ h. elim (Option-cases (w.block_at p 0 (len_of c p))) [
          | inl absent ↦ absurd (ground (arith, e, h, absent))
          | inr (bytes, read) ↦ record {
            wanted = ground (arith, e, h);
            bytes = bytes;
            read = read;
            genuine =
                list_eq→≡ (hash_sha1 bytes) (get_or c.expected_hashes p [])
                  (ground (arith, e, h, read));
          }
        ],
        λ s.
            let same : list_eq (hash_sha1 s.bytes) (get_or c.expected_hashes p []) ≡ true =
              subst (λ h. list_eq (hash_sha1 s.bytes) h ≡ true) s.genuine
                (list_eq_refl (hash_sha1 s.bytes)) in
            e ∙ rw (s.wanted, s.read) same,
      )
