-- ===== src/Wire.antt =====
-- Peer messages and the incremental decoder of src/net/wire.rs. A byte is a number below 256.
-- The asynchronous `next`, in Wire/Next, takes the reads of the stream as lists of bytes.
pub mod Send
pub mod Stream
pub mod Refine
pub mod RoundTrip
pub mod Next
mod Tests
use package.tortor.Prelude.{
  ℕ, zero, suc, ◌+◌, ◌-◌, ◌*◌, ◌^◌, Bool, not, Option, none, some, List, [], ◌∷◌, ◌++◌,
  if◌then◌else◌, ltb, leb, ◌==◌, length, drop, slice, get_or,
}
use package.tortor.Prelude.Words.{be32}
use package.tortor.Prelude.Result.{Result, ok, err}

pub data PeerMessage : Type 0 where
  keep_alive choke unchoke interested not_interested : PeerMessage
  have : ℕ → PeerMessage
  bitfield : List ℕ → PeerMessage
  -- index, begin, length
  request : ℕ → ℕ → ℕ → PeerMessage
  -- index, begin, block
  piece : ℕ → ℕ → List ℕ → PeerMessage
  -- id, payload
  extended : ℕ → List ℕ → PeerMessage

-- `out_of_fuel` is the model's own: the loop of `decode` never ends so.
pub data WireError : Type 0 where
  too_large bad_have bad_request bad_piece bad_extended out_of_fuel : WireError

abbrev pub max_message_len : ℕ
max_message_len = 1024 * 1024

abbrev pub compact_threshold : ℕ
compact_threshold = 64 * 1024

-- The closure `be32` of `parse`.
abbrev pub be32_at : List ℕ → ℕ → ℕ
be32_at payload offset =
    be32 (get_or payload offset 0) (get_or payload (offset + 1) 0) (get_or payload (offset + 2) 0)
      (get_or payload (offset + 3) 0)

abbrev parse_have : List ℕ → Result WireError (Option PeerMessage)
parse_have payload =
    if not (length payload == 4) then err bad_have else ok (some (have (be32_at payload 0)))

abbrev parse_request : List ℕ → Result WireError (Option PeerMessage)
parse_request payload =
    if not (length payload == 12)
    then err bad_request
    else ok (some (request (be32_at payload 0) (be32_at payload 4) (be32_at payload 8)))

abbrev parse_piece : List ℕ → Result WireError (Option PeerMessage)
parse_piece payload =
    if ltb (length payload) 8
    then err bad_piece
    else ok (some (piece (be32_at payload 0) (be32_at payload 4) (drop 8 payload)))

abbrev parse_extended : List ℕ → Result WireError (Option PeerMessage)
parse_extended [] = err bad_extended
parse_extended (id ∷ payload) = ok (some (extended id payload))

-- `none` is a message with an unknown id.
unfoldable pub parse : ℕ → List ℕ → Result WireError (Option PeerMessage)
parse id payload =
    if id == 0
    then ok (some choke)
    else if id == 1
    then ok (some unchoke)
    else if id == 2
    then ok (some interested)
    else if id == 3
    then ok (some not_interested)
    else if id == 4
    then parse_have payload
    else if id == 5
    then ok (some (bitfield payload))
    else if id == 6
    then parse_request payload
    else if id == 7
    then parse_piece payload
    else if id == 20
    then parse_extended payload
    else ok none

pub record MessageDecoder : Type 0 where
  pub buf : List ℕ
  pub pos : ℕ

abbrev pub empty : MessageDecoder
empty = record { buf = []; pos = 0 }

unfoldable pub feed : MessageDecoder → List ℕ → MessageDecoder
feed d bytes = record d { buf = d.buf ++ bytes }

unfoldable pub compact : MessageDecoder → MessageDecoder
compact d =
    if d.pos == length d.buf
    then record { buf = []; pos = 0 }
    else if leb compact_threshold d.pos
    then record { buf = drop d.pos d.buf; pos = 0 }
    else d

-- What a call of `decode` returns, and the decoder that it leaves.
abbrev pub Decoded : Type 0
Decoded = Result WireError (Option PeerMessage) × MessageDecoder

-- The body of a message of `len` bytes at the front of `available`.
unfoldable pub parse_frame : ℕ → List ℕ → Result WireError (Option PeerMessage)
parse_frame len available =
    if len == 0
    then ok (some keep_alive)
    else parse (get_or available 4 0) (slice 5 (4 + len) available)

-- One round of the loop on the bytes that are available.
pub data Round : Type 0 where
  wait : Round
  fail : WireError → Round
  -- the message, if its id is known, and the bytes that it takes
  frame : Option PeerMessage → ℕ → Round

unfoldable pub framed : Result WireError (Option PeerMessage) → ℕ → Round
framed (err e) n = fail e
framed (ok parsed) n = frame parsed n

unfoldable pub round : List ℕ → Round
round available =
    let len = be32_at available 0 in
    if ltb (length available) 4
    then wait
    else if ltb max_message_len len
    then fail too_large
    else if ltb (length available) (4 + len)
    then wait
    else framed (parse_frame len available) (4 + len)

unfoldable pub decode_loop : ℕ → MessageDecoder → Decoded
decode_loop zero d = (err out_of_fuel, d)
decode_loop (suc fuel) d = elim (round (drop d.pos d.buf)) [
  | wait ↦ (ok none, compact d)
  | fail e ↦ (err e, d)
  | frame (some msg) n ↦ (ok (some msg), record d { pos = d.pos + n })
  | frame none n ↦ decode_loop fuel (record d { pos = d.pos + n })
]

-- A round that goes on has consumed four bytes at least, so a round for each byte is enough.
unfoldable pub decode : MessageDecoder → Decoded
decode d = decode_loop (suc (length d.buf)) d
