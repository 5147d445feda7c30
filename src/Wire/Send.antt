-- ===== src/Wire/Send.antt =====
-- What the `send_*` functions of src/net/wire.rs put on the stream.
use tortor.Prelude.{ℕ, ◌+◌, ◌%◌, List, [], ◌∷◌, ◌++◌, length}
use tortor.Prelude.Words.{be32_bytes, u32_mod}
use tortor.Wire.{
  PeerMessage, keep_alive, choke, unchoke, interested, not_interested, have, bitfield, request,
  piece, extended,
}

abbrev pub send_keepalive : List ℕ
send_keepalive = 0 ∷ 0 ∷ 0 ∷ 0 ∷ []

abbrev pub send_choke : List ℕ
send_choke = 0 ∷ 0 ∷ 0 ∷ 1 ∷ 0 ∷ []

abbrev pub send_unchoke : List ℕ
send_unchoke = 0 ∷ 0 ∷ 0 ∷ 1 ∷ 1 ∷ []

abbrev pub send_interested : List ℕ
send_interested = 0 ∷ 0 ∷ 0 ∷ 1 ∷ 2 ∷ []

abbrev pub send_not_interested : List ℕ
send_not_interested = 0 ∷ 0 ∷ 0 ∷ 1 ∷ 3 ∷ []

unfoldable pub send_request : ℕ → ℕ → ℕ → List ℕ
send_request index begin len =
    be32_bytes 13 ++ (6 ∷ (be32_bytes index ++ (be32_bytes begin ++ be32_bytes len)))

unfoldable pub send_have : ℕ → List ℕ
send_have piece_index = be32_bytes 5 ++ (4 ∷ be32_bytes piece_index)

unfoldable pub send_bitfield : List ℕ → List ℕ
send_bitfield bits = be32_bytes ((1 + length bits) % u32_mod) ++ (5 ∷ bits)

unfoldable pub send_piece : ℕ → ℕ → List ℕ → List ℕ
send_piece index begin block =
    be32_bytes ((9 + length block) % u32_mod)
    ++ (7 ∷ (be32_bytes index ++ (be32_bytes begin ++ block)))

unfoldable pub send_extended : ℕ → List ℕ → List ℕ
send_extended extended_id payload =
    be32_bytes ((2 + length payload) % u32_mod) ++ (20 ∷ (extended_id ∷ payload))

-- The sender of each message.
unfoldable pub send : PeerMessage → List ℕ
unfolding send_request send_have send_bitfield send_piece send_extended
send keep_alive = send_keepalive
send choke = send_choke
send unchoke = send_unchoke
send interested = send_interested
send not_interested = send_not_interested
send (have i) = send_have i
send (bitfield bits) = send_bitfield bits
send (request i b n) = send_request i b n
send (piece i b block) = send_piece i b block
send (extended id payload) = send_extended id payload
