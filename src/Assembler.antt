-- ===== src/Assembler.antt =====
-- The block assembler of one piece, src/core/assembler.rs. Instants and durations are numbers of
-- one unit; `now` is an argument where the code reads the clock.
pub mod Tiling
pub mod Keeps
pub mod Content
pub mod Requests
pub mod Flight
mod Tests
use package.tortor.Prelude.{
  ℕ, zero, suc, ◌+◌, ◌-◌, ◌*◌, ◌%◌, min, Bool, true, false, not, ◌&&◌, Option, none, some, List, [],
  ◌∷◌, if◌then◌else◌, ltb, leb, ◌==◌, length as list_length, replicate, overwrite, filterb, map,
}
use package.tortor.Prelude.Words.{div_ceil, u32_mod}

abbrev pub block_size : ℕ
block_size = 16 * 1024

pub data AssemblerError : Type 0 where
  exceeds_boundary unexpected_block : AssemblerError

pub data AssemblerState : Type 0 where
  in_progress : AssemblerState
  complete : List ℕ → AssemblerState
  error : AssemblerError → AssemblerState

pub data BlockClass : Type 0 where
  expected_new duplicate unexpected : BlockClass

pub record BlockRequest : Type 0 where
  pub begin : ℕ
  pub length : ℕ
  pub requested_at : Option ℕ
  pub completed : Bool

pub record PieceAssembler : Type 0 where
  pub piece_index : ℕ
  pub expected_length : ℕ
  pub buffer : List ℕ
  pub blocks : List BlockRequest
  pub received_bytes : ℕ

-- The blocks `i..i + count` of the loop of `new`.
unfoldable pub make_blocks : ℕ → ℕ → ℕ → List BlockRequest
make_blocks expected_length i zero = []
make_blocks expected_length i (suc count) =
    record {
      begin = i * block_size;
      length = min block_size (expected_length - i * block_size);
      requested_at = none;
      completed = false;
    }
    ∷ make_blocks expected_length (i + 1) count

unfoldable pub new : ℕ → ℕ → PieceAssembler
unfolding make_blocks
new piece_index expected_length =
    let num_blocks : ℕ = if expected_length == 0 then 0 else div_ceil expected_length block_size in
    record {
      piece_index = piece_index;
      expected_length = expected_length;
      buffer = replicate expected_length 0;
      blocks = make_blocks expected_length 0 num_blocks;
      received_bytes = 0;
    }

-- `now.duration_since(t)`, which is zero for a later `t`.
abbrev pub since : ℕ → ℕ → ℕ
since now t = now - t

abbrev pub in_flight : ℕ → ℕ → BlockRequest → Bool
in_flight now timeout b =
    not b.completed && (elim b.requested_at [ none ↦ false | some t ↦ leb (since now t) timeout ])

unfoldable pub in_flight_count : PieceAssembler → ℕ → ℕ → ℕ
in_flight_count a now timeout = list_length (filterb (in_flight now timeout) a.blocks)

-- Whether a block that is not complete is to be requested: `some true` is a retry.
unfoldable pub due : ℕ → ℕ → BlockRequest → Option Bool
due now timeout b = if b.completed then none else elim b.requested_at [
  | none ↦ some false
  | some t ↦ if ltb timeout (since now t) then some true else none
]

-- A block that is due ends the search, with its mark set; another one is passed over.
unfoldable pub hand_out :
    ℕ
    → BlockRequest
    → List BlockRequest
    → Option Bool
    → Option (ℕ × ℕ × Bool) × List BlockRequest
    → Option (ℕ × ℕ × Bool) × List BlockRequest
hand_out now b bs none rest = (rest.0, b ∷ rest.1)
hand_out now b bs (some retry) rest =
    (some (b.begin, b.length, retry), record b { requested_at = some now } ∷ bs)

unfoldable pub request_loop : ℕ → ℕ → List BlockRequest → Option (ℕ × ℕ × Bool) × List BlockRequest
unfolding due hand_out
request_loop now timeout [] = (none, [])
request_loop now timeout (b ∷ bs) =
    hand_out now b bs (due now timeout b) (request_loop now timeout bs)

unfoldable pub next_request : PieceAssembler → ℕ → ℕ → Option (ℕ × ℕ × Bool) × PieceAssembler
unfolding request_loop
next_request a now timeout =
    let (req, blocks) = request_loop now timeout a.blocks in (req, record a { blocks = blocks })

unfoldable pub classify_loop : ℕ → ℕ → List BlockRequest → BlockClass
classify_loop begin data_len [] = unexpected
classify_loop begin data_len (b ∷ bs) =
    let rest = classify_loop begin data_len bs in
    if b.begin == begin && b.length == data_len
    then (if b.completed then duplicate else expected_new)
    else rest

unfoldable pub classify_block : PieceAssembler → ℕ → ℕ → BlockClass
unfolding classify_loop
classify_block a begin data_len =
    if ltb a.expected_length (begin + data_len)
    then unexpected
    else classify_loop begin data_len a.blocks

unfoldable pub reset_requests : PieceAssembler → PieceAssembler
reset_requests a = record a {
  blocks = map (λ b. if b.completed then b else record b { requested_at = none }) a.blocks;
}

-- What the search of `add_block` finds: no such block, one that is complete, or the blocks with
-- the found one marked.
pub data Found : Type 0 where
  missing already : Found
  marked : List BlockRequest → Found

abbrev pub found_under : BlockRequest → Found → Found
found_under b missing = missing
found_under b already = already
found_under b (marked bs) = marked (b ∷ bs)

unfoldable pub mark_block : ℕ → ℕ → List BlockRequest → Found
mark_block begin data_len [] = missing
mark_block begin data_len (b ∷ bs) =
    let rest = found_under b (mark_block begin data_len bs) in
    if b.begin == begin && b.length == data_len
    then (if b.completed then already else marked (record b { completed = true } ∷ bs))
    else rest

-- The end of `add_block`, with the block found.
unfoldable pub store_block :
    PieceAssembler → ℕ → List ℕ → List BlockRequest → AssemblerState × PieceAssembler
store_block a begin block blocks =
    let a' : PieceAssembler = record a {
      blocks = blocks;
      buffer = overwrite begin block a.buffer;
      received_bytes = (a.received_bytes + list_length block % u32_mod) % u32_mod;
    } in
    (if a'.received_bytes == a'.expected_length then complete a'.buffer else in_progress, a')

-- What `add_block` does with the outcome of its search.
unfoldable pub on_found : PieceAssembler → ℕ → List ℕ → Found → AssemblerState × PieceAssembler
unfolding store_block
on_found a begin block missing = (error unexpected_block, a)
on_found a begin block already = (in_progress, a)
on_found a begin block (marked blocks) = store_block a begin block blocks

unfoldable pub add_block : PieceAssembler → ℕ → List ℕ → AssemblerState × PieceAssembler
unfolding mark_block on_found
add_block a begin block =
    if ltb a.expected_length (begin + list_length block)
    then (error exceeds_boundary, a)
    else on_found a begin block (mark_block begin (list_length block % u32_mod) a.blocks)
