-- ===== src/Wire/RoundTrip.antt =====
-- What the `send_*` functions write, the decoder reads back.
use mathlib.Core.Path.{subst}
use tortor.Prelude.{
  ℕ, suc, ◌+◌, ◌-◌, ◌%◌, ◌≤◌, ◌<◌, ◌≡◌, refl, sym, ap, ◌∙◌, false, Option, some, List, [], ◌∷◌,
  ◌++◌, ltb, ◌==◌, length, drop, length-append, take-length_append, drop-length_append, arith,
  le→ltb_false, ≢→==,
}
use tortor.Prelude.Words.{be32, be32_bytes, be32-bytes, u32_mod}
use tortor.Prelude.Result.{ok}
use tortor.Wire.{
  PeerMessage, keep_alive, choke, unchoke, interested, not_interested, have, bitfield, request,
  piece, extended, frame, round, framed, parse, parse_frame, max_message_len, MessageDecoder, feed,
  decode,
}
use tortor.Wire.Send.{send}
use tortor.Wire.Stream.{decode_stream, decode_all}
use tortor.Wire.Refine.{IsValid, pending, view, decode_refines, pending-feed}

-- The fields are 32-bit words and the message is not longer than the decoder accepts.
abbrev pub IsSendable : PeerMessage → Type 0
IsSendable (have i) = i < u32_mod
IsSendable (bitfield bits) = 1 + length bits ≤ max_message_len
IsSendable (request i b n) = (i < u32_mod) × (b < u32_mod) × (n < u32_mod)
IsSendable (piece i b block) = (i < u32_mod) × (b < u32_mod) × (9 + length block ≤ max_message_len)
IsSendable (extended id payload) = 2 + length payload ≤ max_message_len
IsSendable _ = Unit

-- A frame of an id and a payload, behind its length.
round_front :
    (a b c d id : ℕ) (payload rest : List ℕ) (m : Option PeerMessage)
    → be32 a b c d ≡ 1 + length payload
    → 1 + length payload ≤ max_message_len
    → parse id payload ≡ ok m
    → round (a ∷ b ∷ c ∷ d ∷ id ∷ (payload ++ rest)) ≡ frame m (5 + length payload)
unfolding round framed parse_frame
round_front a b c d id payload rest m len h p =
    let all = length-append payload rest in
    let fits : ltb max_message_len (1 + length payload) ≡ false = le→ltb_false _ _ h in
    let enough : ltb (length (a ∷ b ∷ c ∷ d ∷ id ∷ (payload ++ rest))) 4 ≡ false =
      le→ltb_false _ _ (omega arith) in
    let whole : ltb (length (a ∷ b ∷ c ∷ d ∷ id ∷ (payload ++ rest))) (4 + (1 + length payload))
        ≡ false =
      le→ltb_false _ _ (omega arith) in
    let more : (1 + length payload == 0) ≡ false = ≢→== _ _ (omega arith) in
    let n : 4 + (1 + length payload) - 5 ≡ length payload = omega arith in
    let total : 4 + (1 + length payload) ≡ 5 + length payload = omega arith in
    rw (enough, len, fits, whole, more, n, take-length_append payload rest, p, total)

round_frame :
    (id : ℕ) (payload rest : List ℕ) (m : Option PeerMessage)
    → 1 + length payload ≤ max_message_len
    → parse id payload ≡ ok m
    → round (be32_bytes (1 + length payload) ++ ((id ∷ payload) ++ rest))
      ≡ frame m (5 + length payload)
round_frame id payload rest m h p =
    round_front _ _ _ _ id payload rest m (be32-bytes (1 + length payload) (omega arith)) h p

-- The frame that each sender writes.
data Framed : PeerMessage → Type 0 where
  alive : Framed keep_alive
  sent :
      {m : PeerMessage} (id : ℕ) (payload : List ℕ)
      → send m ≡ be32_bytes (1 + length payload) ++ (id ∷ payload)
      → 1 + length payload ≤ max_message_len
      → parse id payload ≡ ok (some m)
      → Framed m

small : (a b : ℕ) → a ≡ b → a ≤ max_message_len → a % u32_mod ≡ b
small a b e h = omega arith

parse_piece-bytes :
    (i b : ℕ) (block : List ℕ)
    → i < u32_mod
    → b < u32_mod
    → parse 7 (be32_bytes i ++ (be32_bytes b ++ block)) ≡ ok (some (piece i b block))
unfolding parse
parse_piece-bytes i b block hi hb =
    let long : ltb (length (be32_bytes i ++ (be32_bytes b ++ block))) 8 ≡ false =
      le→ltb_false _ _ (omega arith) in
    rw (long, be32-bytes i hi, be32-bytes b hb)

send-Framed : (m : PeerMessage) → IsSendable m → Framed m
unfolding send parse
send-Framed keep_alive v = alive
send-Framed choke v = sent 0 [] refl (omega arith) refl
send-Framed unchoke v = sent 1 [] refl (omega arith) refl
send-Framed interested v = sent 2 [] refl (omega arith) refl
send-Framed not_interested v = sent 3 [] refl (omega arith) refl
send-Framed (have i) v =
    sent 4 (be32_bytes i) refl (omega arith) (ap (λ n. ok (some (have n))) (be32-bytes i v))
send-Framed (bitfield bits) v =
    sent 5 bits
      (ap (λ (n : ℕ). be32_bytes n ++ (5 ∷ bits))
        (small (1 + length bits) (1 + length bits) refl v))
      v refl
send-Framed (request i b n) v =
    sent 6 (be32_bytes i ++ (be32_bytes b ++ be32_bytes n)) refl (omega arith)
      (rw (be32-bytes i v.0, be32-bytes b v.1, be32-bytes n v.2))
send-Framed (piece i b block) v =
    sent 7 (be32_bytes i ++ (be32_bytes b ++ block))
      (ap (λ (n : ℕ). be32_bytes n ++ (7 ∷ (be32_bytes i ++ (be32_bytes b ++ block))))
        (small (9 + length block) _ (omega arith) v.2))
      (omega arith) (parse_piece-bytes i b block v.0 v.1)
send-Framed (extended id payload) v =
    sent 20 (id ∷ payload)
      (ap (λ (n : ℕ). be32_bytes n ++ (20 ∷ (id ∷ payload)))
        (small (2 + length payload) _ (omega arith) v))
      (omega arith) refl

stream_step :
    (f n : ℕ) (s rest : List ℕ) (m : PeerMessage)
    → round s ≡ frame (some m) n
    → drop n s ≡ rest
    → decode_stream (suc f) s ≡ (ok (some m), rest)
unfolding decode_stream
stream_step f n s rest m e d = rw (e, decode_stream) (ap (λ r. (ok (some m), r)) d)

round_alive : (rest : List ℕ) → round (0 ∷ 0 ∷ 0 ∷ 0 ∷ rest) ≡ frame (some keep_alive) 4
unfolding round framed parse_frame
round_alive rest =
    let long : ltb (length (0 ∷ 0 ∷ 0 ∷ 0 ∷ rest)) 4 ≡ false = le→ltb_false _ _ (omega arith) in
    rw long

drop_frame :
    (a b c d id : ℕ) (payload rest : List ℕ)
    → drop (5 + length payload) (a ∷ b ∷ c ∷ d ∷ id ∷ (payload ++ rest)) ≡ rest
drop_frame a b c d id payload rest =
    let n : 5 + length payload ≡ suc (suc (suc (suc (suc (length payload))))) = omega arith in
    rw n (drop-length_append payload rest)

-- On the stream: the message comes first, and what follows it stays.
pub decode_all-send :
    (m : PeerMessage) (rest : List ℕ)
    → IsSendable m
    → decode_all (send m ++ rest) ≡ (ok (some m), rest)
decode_all-send m rest v = by_frame m (send-Framed m v)
  where
    by_frame : (m : PeerMessage) → Framed m → decode_all (send m ++ rest) ≡ (ok (some m), rest)
    by_frame keep_alive alive =
        unfold send in stream_step _ 4 _ rest keep_alive (round_alive rest) refl
    by_frame m (sent id payload e h p) =
        subst (λ s. decode_all (s ++ rest) ≡ (ok (some m), rest)) (sym e)
          (stream_step _ (5 + length payload) _ rest m (round_frame id payload rest (some m) h p)
            (drop_frame _ _ _ _ id payload rest))

-- A decoder with its position in its buffer and nothing pending, fed a message that can be sent
-- and more bytes behind it, returns that message and keeps those bytes pending.
pub decode-send :
    (d : MessageDecoder) (m : PeerMessage) (rest : List ℕ)
    → IsValid d
    → pending d ≡ []
    → IsSendable m
    → view (decode (feed d (send m ++ rest))) ≡ (ok (some m), rest)
decode-send d m rest v e s =
    let fed = pending-feed d (send m ++ rest) v in
    (decode_refines (feed d (send m ++ rest)) fed.1).0
    ∙ ap decode_all (fed.0 ∙ ap (λ p. p ++ (send m ++ rest)) e)
    ∙ decode_all-send m rest s
