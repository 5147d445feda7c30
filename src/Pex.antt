-- ===== src/Pex.antt =====
-- Peer exchange and the compact address lists of src/net/pex.rs. The bencoding of the message is a
-- library's.
pub mod Chunks
pub mod RoundTrip
mod Tests
use package.tortor.Prelude.{
  ℕ, zero, suc, ◌+◌, ◌-◌, ◌/◌, ◌%◌, ◌^◌, Bool, true, false, not, ◌&&◌, Option, none, some, List, [],
  ◌∷◌, ◌++◌, if◌then◌else◌, leb, ◌==◌, length, take, drop, slice, get_or, replicate, list_eq, map,
}
use package.tortor.Prelude.Words.{be16}

-- The octets and the port; a V6 address has a flow label and a scope as well.
pub data SocketAddr : Type 0 where
  v4 : List ℕ → ℕ → SocketAddr
  v6 : List ℕ → ℕ → ℕ → ℕ → SocketAddr

pub record PexMessage : Type 0 where
  pub added : List ℕ
  pub added_f : List ℕ
  pub added6 : List ℕ
  pub added6_f : List ℕ
  pub dropped : List ℕ
  pub dropped6 : List ℕ

-- `u16::to_be_bytes`
abbrev pub be16_bytes : ℕ → List ℕ
be16_bytes n = n / 2 ^ 8 % 256 ∷ n % 256 ∷ []

-- `chunks_exact`: a chunk takes one byte at least, so a round for each byte is enough.
unfoldable pub chunks_loop : ℕ → ℕ → List ℕ → List (List ℕ)
chunks_loop zero n bytes = []
chunks_loop (suc fuel) n bytes =
    let rest = chunks_loop fuel n (drop n bytes) in
    if leb n (length bytes) then take n bytes ∷ rest else []

unfoldable pub chunks_exact : ℕ → List ℕ → List (List ℕ)
unfolding chunks_loop
chunks_exact n bytes = chunks_loop (length bytes) n bytes

abbrev pub addr_of4 : List ℕ → SocketAddr
addr_of4 chunk =
    v4 (get_or chunk 0 0 ∷ get_or chunk 1 0 ∷ get_or chunk 2 0 ∷ get_or chunk 3 0 ∷ [])
      (be16 (get_or chunk 4 0) (get_or chunk 5 0))

unfoldable pub decode_compact_ipv4 : List ℕ → List SocketAddr
unfolding chunks_exact
decode_compact_ipv4 bytes = map addr_of4 (chunks_exact 6 bytes)

abbrev pub addr_of6 : List ℕ → SocketAddr
addr_of6 chunk = v6 (take 16 chunk) (be16 (get_or chunk 16 0) (get_or chunk 17 0)) 0 0

unfoldable pub decode_compact_ipv6 : List ℕ → List SocketAddr
unfolding chunks_exact
decode_compact_ipv6 bytes = map addr_of6 (chunks_exact 18 bytes)

unfoldable pub decode_compact_peers : List ℕ → List SocketAddr
unfolding decode_compact_ipv4 decode_compact_ipv6
decode_compact_peers bytes =
    if length bytes == 18 then decode_compact_ipv6 bytes else decode_compact_ipv4 bytes

-- `::ffff:a.b.c.d`, `Ipv6Addr::to_ipv4_mapped`
abbrev pub to_ipv4_mapped : List ℕ → Option (List ℕ)
to_ipv4_mapped octets =
    if list_eq (take 12 octets) (replicate 10 0 ++ (255 ∷ 255 ∷ []))
    then some (slice 12 16 octets)
    else none

-- The octets that a peer is sent with, and whether they are those of IPv4.
unfoldable pub octets_of : SocketAddr → Bool × List ℕ
octets_of (v4 octets port) = (true, octets)
octets_of (v6 octets port flow scope) = elim (to_ipv4_mapped octets) [
  | some mapped ↦ (true, mapped)
  | none ↦ (false, octets)
]

abbrev pub port_of : SocketAddr → ℕ
port_of (v4 octets port) = port
port_of (v6 octets port flow scope) = port

unfoldable pub put_peer : Bool × List ℕ → ℕ → List ℕ × List ℕ → List ℕ × List ℕ
put_peer (true, octets) port (four, six) = (octets ++ (be16_bytes port ++ four), six)
put_peer (false, octets) port (four, six) = (four, octets ++ (be16_bytes port ++ six))

-- The bytes of the first peer come first, as the code appends the bytes of the later ones.
unfoldable pub split_compact : List SocketAddr → List ℕ × List ℕ
unfolding octets_of put_peer
split_compact [] = ([], [])
split_compact (peer ∷ peers) = put_peer (octets_of peer) (port_of peer) (split_compact peers)

unfoldable pub encode_compact_ipv4 : List SocketAddr → List ℕ
unfolding split_compact
encode_compact_ipv4 peers = (split_compact peers).0

unfoldable pub from_peers : List SocketAddr → List SocketAddr → PexMessage
unfolding split_compact
from_peers added dropped =
    let (added4, added6) = split_compact added in
    let (dropped4, dropped6) = split_compact dropped in
    record {
      added = added4;
      added_f = replicate (length added4 / 6) 0;
      added6 = added6;
      added6_f = replicate (length added6 / 18) 0;
      dropped = dropped4;
      dropped6 = dropped6;
    }

unfoldable pub decode_added_ipv4 : PexMessage → List SocketAddr
unfolding decode_compact_ipv4
decode_added_ipv4 m = decode_compact_ipv4 m.added

unfoldable pub decode_added : PexMessage → List SocketAddr
unfolding decode_compact_ipv4 decode_compact_ipv6
decode_added m = decode_compact_ipv4 m.added ++ decode_compact_ipv6 m.added6
