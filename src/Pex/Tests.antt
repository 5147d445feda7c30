-- ===== src/Pex/Tests.antt =====
-- Peer exchange at concrete inputs: an IPv4 peer, an IPv4-mapped one and an IPv6 one.
use tortor.Prelude.{ℕ, ◌≡◌, refl, not, List, [], ◌∷◌, ◌++◌, replicate, map, filterb, All, arith}
use tortor.Pex.{SocketAddr, v4, v6, split_compact, from_peers, decode_added, decode_compact_peers}
use tortor.Pex.RoundTrip.{IsAddr, as_sent, is_v4, decode_added-from_peers}

abbrev mapped : List ℕ
mapped = replicate 10 0 ++ (255 ∷ 255 ∷ 10 ∷ 1 ∷ 2 ∷ 3 ∷ [])

abbrev peers : List SocketAddr
peers = v6 (replicate 16 1) 7 5 5 ∷ v4 (10 ∷ 0 ∷ 0 ∷ 1 ∷ []) 6881 ∷ v6 mapped 258 0 0 ∷ []

split_peers : (split_compact peers).0 ≡ 10 ∷ 0 ∷ 0 ∷ 1 ∷ 26 ∷ 225 ∷ 10 ∷ 1 ∷ 2 ∷ 3 ∷ 1 ∷ 2 ∷ []
unfolding split_compact
split_peers = refl

decode_one :
    decode_compact_peers (10 ∷ 0 ∷ 0 ∷ 1 ∷ 1 ∷ 0 ∷ 99 ∷ []) ≡ v4 (10 ∷ 0 ∷ 0 ∷ 1 ∷ []) 256 ∷ []
unfolding decode_compact_peers
decode_one = refl

peers-IsAddr : All IsAddr peers
peers-IsAddr = ((refl, ground arith), ((refl, ground arith), ((refl, ground arith), tt)))

decode_added-from_peers_example :
    decode_added (from_peers peers [])
    ≡ filterb is_v4 (map as_sent peers) ++ filterb (λ a. not (is_v4 a)) (map as_sent peers)
decode_added-from_peers_example = decode_added-from_peers peers [] peers-IsAddr
