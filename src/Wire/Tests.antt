-- ===== src/Wire/Tests.antt =====
-- The decoder at concrete inputs: a `have` message, whole and in two reads, with bytes behind it.
use tortor.Prelude.{ℕ, List, [], ◌∷◌, ◌++◌, ◌≡◌, ◌≢◌, refl, none, some, arith}
use tortor.Prelude.Result.{ok, err}
use tortor.Wire.{
  MessageDecoder, PeerMessage, have, out_of_fuel, choke, empty, feed, decode, too_large,
}
use tortor.Wire.Send.{send}
use tortor.Wire.Stream.{decode_all}
use tortor.Wire.Refine.{
  IsValid, pending, view, decode_refines, decode_split, decode_final, decode-ne-out_of_fuel,
}
use tortor.Wire.Next.{next, next-send, joined, message}
use tortor.Wire.RoundTrip.{decode-send}

-- A `have`, of which the last byte is to come.
abbrev partial : MessageDecoder
partial = record { buf = 0 ∷ 0 ∷ 0 ∷ 5 ∷ 4 ∷ 0 ∷ 0 ∷ 1 ∷ []; pos = 0 }

-- A message with an unknown id, a `choke` and half a length.
abbrev behind : MessageDecoder
behind = record { buf = 0 ∷ 0 ∷ 0 ∷ 1 ∷ 99 ∷ 0 ∷ 0 ∷ 0 ∷ 1 ∷ 0 ∷ 0 ∷ 0 ∷ []; pos = 0 }

partial_waits : (decode partial).0 ≡ ok none
unfolding decode tortor.Wire.decode_loop tortor.Wire.round
partial_waits = refl

partial_joined : (decode (feed partial (2 ∷ []))).0 ≡ ok (some (have 258))
unfolding decode feed tortor.Wire.decode_loop tortor.Wire.round tortor.Wire.framed
    tortor.Wire.parse_frame tortor.Wire.parse
partial_joined = refl

behind_skips : (decode behind).0 ≡ ok (some choke)
unfolding decode tortor.Wire.decode_loop tortor.Wire.round tortor.Wire.framed
    tortor.Wire.parse_frame tortor.Wire.parse
behind_skips = refl

huge_refused : (decode (feed empty (255 ∷ 0 ∷ 0 ∷ 0 ∷ []))).0 ≡ err too_large
unfolding decode feed tortor.Wire.decode_loop tortor.Wire.round
huge_refused = refl

behind_ne_none : (decode behind).0 ≢ ok none
behind_ne_none e = cc (e, behind_skips)

decode_refines_example :
    (view (decode behind) ≡ decode_all (pending behind)) × IsValid (decode behind).1
decode_refines_example = decode_refines behind (omega arith)

decode_split_example :
    view (decode (feed (decode partial).1 (2 ∷ []))) ≡ view (decode (feed partial (2 ∷ [])))
decode_split_example = decode_split partial (2 ∷ []) (omega arith) partial_waits

decode_final_example :
    view (decode (feed behind (1 ∷ [])))
    ≡ ((decode behind).0, pending (decode behind).1 ++ (1 ∷ []))
decode_final_example = decode_final behind (1 ∷ []) (omega arith) behind_ne_none

decode-ne-out_of_fuel_example : (decode behind).0 ≢ err out_of_fuel
decode-ne-out_of_fuel_example = decode-ne-out_of_fuel behind (omega arith)

decode-send_example :
    view (decode (feed empty (send (have 258) ++ (7 ∷ [])))) ≡ (ok (some (have 258)), 7 ∷ [])
decode-send_example = decode-send empty (have 258) (7 ∷ []) (omega arith) refl (omega arith)

-- The `have` in three reads, with a byte behind it.
abbrev parts : List (List ℕ)
parts = (0 ∷ 0 ∷ []) ∷ (0 ∷ 5 ∷ 4 ∷ 0 ∷ 0 ∷ 1 ∷ []) ∷ (2 ∷ 7 ∷ []) ∷ []

joined-parts : joined parts ≡ send (have 258) ++ (7 ∷ [])
unfolding send
joined-parts = refl

next-send_example : (next empty parts).0 ≡ message (have 258)
next-send_example =
    next-send empty (have 258) (7 ∷ []) parts (omega arith) refl (omega arith)
      (omega arith, (omega arith, (omega arith, tt))) joined-parts
