-- ===== src/Handshake/Codec.antt =====
-- `from_bytes` is the inverse of `as_bytes`, and refuses everything else.
use tortor.Prelude.{
  ℕ, ◌<◌, ◌≡◌, ◌↔◌, refl, sym, ap, ◌∙◌, inl, inr, List, [], ◌∷◌, ◌++◌, ◌==◌, Bool-cases, ==→≡,
  list_eq, list_eq→≡, length, take, drop, slice, get_or, length-append, length-take, length-drop,
  drop-drop, take_all, arith, cut, take_of_length, drop_of_length,
}
use tortor.Prelude.Result.{ok}
use tortor.Handshake.{Handshake, protocol_string, as_bytes, from_bytes}

-- The sizes of the three arrays.
pub record IsValid (h : Handshake) : Type 0 where
  pub reserved_len : length h.reserved ≡ 8
  pub info_hash_len : length h.info_hash ≡ 20
  pub peer_id_len : length h.peer_id ≡ 20

pub length-as_bytes : (h : Handshake) → IsValid h → length (as_bytes h) ≡ 68
unfolding as_bytes
length-as_bytes h v = omega (
  arith,
  length-append h.reserved (h.info_hash ++ h.peer_id),
  length-append h.info_hash h.peer_id,
)

module _ (h : Handshake) (v : IsValid h) where
  reserved_slice : slice 20 28 (as_bytes h) ≡ h.reserved
  unfolding as_bytes
  reserved_slice = take_of_length 8 h.reserved (h.info_hash ++ h.peer_id) v.reserved_len

  info_hash_slice : slice 28 48 (as_bytes h) ≡ h.info_hash
  unfolding as_bytes
  info_hash_slice =
      ap (take 20) (drop_of_length 8 h.reserved (h.info_hash ++ h.peer_id) v.reserved_len)
      ∙ take_of_length 20 h.info_hash h.peer_id v.info_hash_len

  peer_id_slice : slice 48 68 (as_bytes h) ≡ h.peer_id
  unfolding as_bytes
  peer_id_slice =
      ap (take 20) (
        sym (drop-drop 20 8 (h.reserved ++ (h.info_hash ++ h.peer_id)))
        ∙ ap (drop 20) (drop_of_length 8 h.reserved (h.info_hash ++ h.peer_id) v.reserved_len)
        ∙ drop_of_length 20 h.info_hash h.peer_id v.info_hash_len)
      ∙ take_all 20 h.peer_id (omega (arith, v.peer_id_len))

  protocol_slice : (get_or (as_bytes h) 0 0 ≡ 19) × (slice 1 20 (as_bytes h) ≡ protocol_string)
  unfolding as_bytes
  protocol_slice = (refl, refl)

  from_bytes-as_bytes : from_bytes (as_bytes h) ≡ ok h
  unfolding from_bytes
  from_bytes-as_bytes = rw (
    length-as_bytes h v,
    protocol_slice.0,
    protocol_slice.1,
    reserved_slice,
    info_hash_slice,
    peer_id_slice,
  )

-- What a successful parse has checked.
record Checked (bytes : List ℕ) (h : Handshake) : Type 0 where
  size : length bytes ≡ 68
  first : get_or bytes 0 0 ≡ 19
  name : slice 1 20 bytes ≡ protocol_string
  fields : h ≡ record {
    reserved = slice 20 28 bytes;
    info_hash = slice 28 48 bytes;
    peer_id = slice 48 68 bytes;
  }

from_bytes-Checked : (bytes : List ℕ) (h : Handshake) → from_bytes bytes ≡ ok h → Checked bytes h
unfolding from_bytes
from_bytes-Checked bytes h e = elim (Bool-cases (length bytes == 68)) [
  | inr bad ↦ cc (rw (bad, from_bytes) at e)
  | inl size ↦ elim (Bool-cases (get_or bytes 0 0 == 19)) [
    | inr bad ↦ cc (rw (size, bad, from_bytes) at e)
    | inl first ↦ elim (Bool-cases (list_eq (slice 1 20 bytes) protocol_string)) [
      | inr bad ↦ cc (rw (size, first, bad, from_bytes) at e)
      | inl name ↦ record {
        size = ==→≡ _ _ size;
        first = ==→≡ _ _ first;
        name = list_eq→≡ _ _ name;
        fields = cc (rw (size, first, name, from_bytes) at e);
      }
    ]
  ]
]

head_slice : (xs : List ℕ) → 0 < length xs → slice 0 1 xs ≡ get_or xs 0 0 ∷ []
head_slice [] h = absurd (omega arith)
head_slice (x ∷ xs) h = refl

-- `from_bytes` accepts exactly the buffers that `as_bytes` writes, and returns what was written.
pub from_bytes_iff :
    (bytes : List ℕ) (h : Handshake)
    → (from_bytes bytes ≡ ok h) ↔ ((bytes ≡ as_bytes h) × IsValid h)
unfolding as_bytes
from_bytes_iff bytes h = (
  λ e.
      let c = from_bytes-Checked bytes h e in
      let size = c.size in
      let whole : bytes
          ≡ slice 0 1 bytes
            ++ (slice 1 20 bytes
                ++ (slice 20 28 bytes ++ (slice 28 48 bytes ++ slice 48 68 bytes))) =
        cut 0 1 bytes (omega arith)
        ∙ ap (λ r. slice 0 1 bytes ++ r)
            (cut 1 20 bytes (omega arith)
              ∙ ap (λ r. slice 1 20 bytes ++ r)
                  (cut 20 28 bytes (omega arith)
                    ∙ ap (λ r. slice 20 28 bytes ++ r)
                        (cut 28 48 bytes (omega arith)
                          ∙ ap (λ r. slice 28 48 bytes ++ r)
                              (sym (
                                take_all 20 (drop 48 bytes)
                                  (omega (arith, length-drop 48 bytes))))))) in
      (
        whole ∙ rw (head_slice bytes (omega arith), c.first, c.name, c.fields),
        rw c.fields (record {
          reserved_len = omega (arith, length-take 8 (drop 20 bytes), length-drop 20 bytes);
          info_hash_len = omega (arith, length-take 20 (drop 28 bytes), length-drop 28 bytes);
          peer_id_len = omega (arith, length-take 20 (drop 48 bytes), length-drop 48 bytes);
        }),
      ),
  λ p. rw p.0 (from_bytes-as_bytes h p.1),
)
