-- ===== src/Assembler/Tests.antt =====
-- The assembler at concrete inputs: a piece of three bytes, which is one block.
use tortor.Prelude.{ℕ, ◌≡◌, refl, ap, false, some, List, [], ◌∷◌, get_or, arith}
use tortor.Assembler.{PieceAssembler, complete, new, add_block, classify_block, next_request}
use tortor.Assembler.Tiling.{IsValid, new-IsValid}
use tortor.Assembler.Keeps.{Classified, add_block-Classified}
use tortor.Assembler.Content.{PartOf, assembles, add_blocks}
use tortor.Assembler.Requests.{NextRequest, next_request-NextRequest}

abbrev three : List ℕ
three = 7 ∷ 8 ∷ 9 ∷ []

abbrev start : PieceAssembler
start = new 0 3

start-IsValid : IsValid start
start-IsValid = new-IsValid 0 3 (ground arith)

whole_completes : (add_block start 0 three).0 ≡ complete three
unfolding add_block new
whole_completes = refl

-- A peer sends one byte at the wrong place before the block.
after_stray_completes : (add_block (add_blocks start ((2, 9 ∷ []) ∷ [])) 0 three).0 ≡ complete three
unfolding add_block new
after_stray_completes = refl

request_start : (next_request start 5 1).0 ≡ some (0, 3, false)
unfolding next_request new
request_start = refl

add_block-Classified_example :
    Classified start 0 three (classify_block start 0 3) (add_block start 0 three)
add_block-Classified_example = add_block-Classified start 0 three start-IsValid

three-PartOf : PartOf three 0 three
three-PartOf i h = ap (λ n. get_or three n 0) (omega arith)

stray-PartOf : PartOf three 2 (9 ∷ [])
stray-PartOf i h = ground (arith, h)

assembles_example : three ≡ three
assembles_example =
    assembles 0 three ((2, 9 ∷ []) ∷ []) 0 three three (ground arith) (stray-PartOf, tt)
      three-PartOf after_stray_completes

next_request-NextRequest_example : NextRequest start 5 1 (next_request start 5 1)
next_request-NextRequest_example = next_request-NextRequest start 5 1
