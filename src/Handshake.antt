-- ===== src/Handshake.antt =====
-- The 68-byte peer handshake of src/net/handshake.rs. `Handshake/Codec` proves its codec right.
pub mod Codec
mod Tests
use Prim.Native.Nat.{bit_and, bit_or}
use package.tortor.Prelude.{
  ℕ, Bool, not, List, [], ◌∷◌, ◌++◌, if◌then◌else◌, ◌==◌, list_eq, length, replicate, get_or, set,
  slice,
}
use package.tortor.Prelude.Result.{Result, ok, err}

-- The fields are arrays of 8, 20 and 20 bytes.
pub record Handshake : Type 0 where
  pub reserved : List ℕ
  pub info_hash : List ℕ
  pub peer_id : List ℕ

pub data HandshakeError : Type 0 where
  bad_length bad_string_length bad_string : HandshakeError

-- "BitTorrent protocol"
abbrev pub protocol_string : List ℕ
protocol_string =
    b'B' ∷ b'i' ∷ b't' ∷ b'T' ∷ b'o' ∷ b'r' ∷ b'r' ∷ b'e' ∷ b'n' ∷ b't' ∷ 32 ∷ b'p' ∷ b'r' ∷ b'o'
    ∷ b't' ∷ b'o' ∷ b'c' ∷ b'o' ∷ b'l' ∷ []

abbrev pub handshake_len : ℕ
handshake_len = 68

unfoldable pub new : List ℕ → List ℕ → Handshake
new info_hash peer_id =
    let zeros : List ℕ = replicate 8 0 in
    record {
      reserved = set zeros 5 (bit_or (get_or zeros 5 0) 0x10);
      info_hash = info_hash;
      peer_id = peer_id;
    }

unfoldable pub supports_extension_protocol : Handshake → Bool
supports_extension_protocol h = not (bit_and (get_or h.reserved 5 0) 0x10 == 0)

-- The buffer is filled by five copies that lie end to end.
unfoldable pub as_bytes : Handshake → List ℕ
as_bytes h =
    length protocol_string ∷ (protocol_string ++ (h.reserved ++ (h.info_hash ++ h.peer_id)))

unfoldable pub from_bytes : List ℕ → Result HandshakeError Handshake
from_bytes bytes =
    if not (length bytes == handshake_len)
    then err bad_length
    else if not (get_or bytes 0 0 == length protocol_string)
    then err bad_string_length
    else if not (list_eq (slice 1 20 bytes) protocol_string)
    then err bad_string
    else ok (record {
      reserved = slice 20 28 bytes;
      info_hash = slice 28 48 bytes;
      peer_id = slice 48 68 bytes;
    })
