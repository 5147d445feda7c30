-- ===== src/Pex/RoundTrip.antt =====
-- What is sent in a compact list is what the receiver reads.
use tortor.Prelude.{
  ℕ, ◌-◌, ◌/◌, ◌%◌, ◌^◌, ◌<◌, ◌≡◌, ◌⊎◌, refl, sym, ap, ◌∙◌, inl, inr, Bool, true, false, not, none,
  some, List, [], ◌∷◌, ◌++◌, Bool-cases, length, take, drop, get_or, replicate, list_eq, map,
  filterb, All, append_assoc, length-append, take_of_length, length-take, length-drop, arith,
}
use mathlib.Core.Path.{subst}
use tortor.Prelude.Words.{u16_mod, be16-bytes}
use tortor.Prelude.Index.{get_or-append_right}
use tortor.Pex.{
  SocketAddr, v4, v6, be16_bytes, chunks_exact, addr_of4, addr_of6, decode_compact_ipv4,
  decode_compact_ipv6, to_ipv4_mapped, octets_of, port_of, put_peer, split_compact, from_peers,
  decode_added,
}
use tortor.Pex.Chunks.{chunks_exact-append}

-- An address as it can stand in memory: four or sixteen octets, and a 16-bit port.
abbrev pub IsAddr : SocketAddr → Type 0
IsAddr (v4 octets port) = (length octets ≡ 4) × (port < u16_mod)
IsAddr (v6 octets port flow scope) = (length octets ≡ 16) × (port < u16_mod)

-- The address that a receiver sees: an IPv4-mapped one is IPv4, and flow and scope are not sent.
abbrev pub as_sent : SocketAddr → SocketAddr
as_sent (v4 octets port) = v4 octets port
as_sent (v6 octets port flow scope) = elim (to_ipv4_mapped octets) [
  | some mapped ↦ v4 mapped port
  | none ↦ v6 octets port 0 0
]

abbrev pub is_v4 : SocketAddr → Bool
is_v4 (v4 octets port) = true
is_v4 (v6 octets port flow scope) = false

four_octets :
    (o : List ℕ) → length o ≡ 4 → o ≡ get_or o 0 0 ∷ get_or o 1 0 ∷ get_or o 2 0 ∷ get_or o 3 0 ∷ []
four_octets (a ∷ b ∷ c ∷ d ∷ []) e = refl
four_octets [] e = absurd (omega arith)
four_octets (a ∷ []) e = absurd (omega arith)
four_octets (a ∷ b ∷ []) e = absurd (omega arith)
four_octets (a ∷ b ∷ c ∷ []) e = absurd (omega arith)
four_octets (a ∷ b ∷ c ∷ d ∷ x ∷ o) e = absurd (omega arith)

decode_ipv4-append :
    (o rest : List ℕ) (port : ℕ)
    → length o ≡ 4
    → port < u16_mod
    → decode_compact_ipv4 (o ++ (be16_bytes port ++ rest)) ≡ v4 o port ∷ decode_compact_ipv4 rest
unfolding decode_compact_ipv4
decode_ipv4-append o rest port e h =
    subst
      (λ o.
        map addr_of4 (chunks_exact 6 (o ++ (be16_bytes port ++ rest)))
        ≡ v4 o port ∷ map addr_of4 (chunks_exact 6 rest))
      (sym (four_octets o e))
      (ap (map addr_of4)
          (chunks_exact-append 6 (_ ∷ _ ∷ _ ∷ _ ∷ be16_bytes port) rest (omega arith) refl)
        ∙ rw (be16-bytes port h))

decode_ipv6-append :
    (o rest : List ℕ) (port : ℕ)
    → length o ≡ 16
    → port < u16_mod
    → decode_compact_ipv6 (o ++ (be16_bytes port ++ rest))
      ≡ v6 o port 0 0 ∷ decode_compact_ipv6 rest
unfolding decode_compact_ipv6
decode_ipv6-append o rest port e h =
    let chunk = o ++ be16_bytes port in
    let first : 16 - length o ≡ 0 = omega arith in
    let second : 17 - length o ≡ 1 = omega arith in
    let high : get_or chunk 16 0 ≡ port / 2 ^ 8 % 256 =
      get_or-append_right o (be16_bytes port) 16 (omega arith)
      ∙ ap (λ n. get_or (be16_bytes port) n 0) first in
    let low : get_or chunk 17 0 ≡ port % 256 =
      get_or-append_right o (be16_bytes port) 17 (omega arith)
      ∙ ap (λ n. get_or (be16_bytes port) n 0) second in
    ap (λ s. map addr_of6 (chunks_exact 18 s)) (sym (append_assoc o (be16_bytes port) rest))
    ∙ ap (map addr_of6) (
        chunks_exact-append 18 chunk rest (omega arith)
          (omega (arith, length-append o (be16_bytes port))))
    ∙ ap (λ a. a ∷ map addr_of6 (chunks_exact 18 rest))
        (rw (take_of_length 16 o (be16_bytes port) e, high, low, be16-bytes port h))

-- The octets of a peer and their family are those of the address that the receiver sees.
octets_lem :
    (peer : SocketAddr)
    → IsAddr peer
    → ((octets_of peer).0 ≡ true)
        × (length (octets_of peer).1 ≡ 4)
        × (as_sent peer ≡ v4 (octets_of peer).1 (port_of peer))
      ⊎ ((octets_of peer).0 ≡ false)
        × (length (octets_of peer).1 ≡ 16)
        × (as_sent peer ≡ v6 (octets_of peer).1 (port_of peer) 0 0)
unfolding octets_of
octets_lem (v4 octets port) a = inl (refl, a.0, refl)
octets_lem (v6 octets port flow scope) a =
    elim (Bool-cases (list_eq (take 12 octets) (replicate 10 0 ++ (255 ∷ 255 ∷ [])))) [
      | inl mapped ↦
          rw (octets_of, as_sent, mapped)
            (inl (
              refl,
              omega (arith, length-take 4 (drop 12 octets), length-drop 12 octets, a.0),
              refl,
            ))
      | inr plain ↦ rw (octets_of, as_sent, plain) (inr (refl, a.0, refl))
    ]

-- The lists of one message decode to the peers that were put in, by family and in their order.
pub split_compact_lem :
    (peers : List SocketAddr)
    → All IsAddr peers
    → (decode_compact_ipv4 (split_compact peers).0 ≡ filterb is_v4 (map as_sent peers))
      × (decode_compact_ipv6 (split_compact peers).1
          ≡ filterb (λ a. not (is_v4 a)) (map as_sent peers))
unfolding split_compact
split_compact_lem [] all = (
  unfold decode_compact_ipv4 chunks_exact in refl,
  unfold decode_compact_ipv6 chunks_exact in refl,
)
split_compact_lem (peer ∷ peers) all =
    put (octets_of peer) (port_of peer) (as_sent peer) (octets_lem peer all.0) (port_lt peer all.0)
      (split_compact_lem peers all.1)
  where
    port_lt : (peer : SocketAddr) → IsAddr peer → port_of peer < u16_mod
    port_lt (v4 o p) a = a.1
    port_lt (v6 o p f s) a = a.1

    put :
        (o : Bool × List ℕ) (port : ℕ) (sent : SocketAddr)
        → ((o.0 ≡ true) × (length o.1 ≡ 4) × (sent ≡ v4 o.1 port)
            ⊎ (o.0 ≡ false) × (length o.1 ≡ 16) × (sent ≡ v6 o.1 port 0 0))
        → port < u16_mod
        → (decode_compact_ipv4 (split_compact peers).0 ≡ filterb is_v4 (map as_sent peers))
          × (decode_compact_ipv6 (split_compact peers).1
              ≡ filterb (λ a. not (is_v4 a)) (map as_sent peers))
        → (decode_compact_ipv4 (put_peer o port (split_compact peers)).0
            ≡ filterb is_v4 (sent ∷ map as_sent peers))
          × (decode_compact_ipv6 (put_peer o port (split_compact peers)).1
              ≡ filterb (λ a. not (is_v4 a)) (sent ∷ map as_sent peers))
    put (true, o) port sent (inl (is_four, len, e)) h ih =
        unfold put_peer in
        rw e (decode_ipv4-append o _ port len h ∙ ap (λ r. v4 o port ∷ r) ih.0, ih.1)
    put (false, o) port sent (inl (is_four, len, e)) h ih = absurd (cc)
    put (true, o) port sent (inr (is_six, len, e)) h ih = absurd (cc)
    put (false, o) port sent (inr (is_six, len, e)) h ih =
        unfold put_peer in
        rw e (ih.0, decode_ipv6-append o _ port len h ∙ ap (λ r. v6 o port 0 0 ∷ r) ih.1)

-- A receiver of the message of any added and dropped peers, the added ones with four or sixteen
-- octets and a 16-bit port, reads the added ones back, IPv4 before IPv6 and otherwise in their
-- order; IPv4-mapped addresses arrive as IPv4 ones.
pub decode_added-from_peers :
    (added dropped : List SocketAddr)
    → All IsAddr added
    → decode_added (from_peers added dropped)
      ≡ filterb is_v4 (map as_sent added) ++ filterb (λ a. not (is_v4 a)) (map as_sent added)
unfolding decode_added from_peers
decode_added-from_peers added dropped all =
    let parts = split_compact_lem added all in rw (parts.0, parts.1)
