-- ===== src/Pex/Chunks.antt =====
-- `chunks_exact` cuts a whole chunk off the front, and its fuel is enough.
use tortor.Prelude.{
  ℕ, zero, suc, ◌≤◌, ◌<◌, ◌≡◌, refl, ap, ◌∙◌, List, [], ◌∷◌, ◌++◌, if◌then◌else◌, leb, length, take,
  drop, length-append, length-drop, take_of_length, drop_of_length, le→leb, arith,
}
use tortor.Pex.{chunks_loop, chunks_exact}

pub chunks_loop_fuel :
    (f g n : ℕ) (bytes : List ℕ)
    → 0 < n
    → length bytes ≤ f
    → length bytes ≤ g
    → chunks_loop f n bytes ≡ chunks_loop g n bytes
unfolding chunks_loop
chunks_loop_fuel zero zero n bytes pos hf hg = refl
chunks_loop_fuel zero (suc g) n bytes pos hf hg = ground arith
chunks_loop_fuel (suc f) zero n bytes pos hf hg = ground arith
chunks_loop_fuel (suc f) (suc g) n bytes pos hf hg =
    ap (λ rest. if leb n (length bytes) then take n bytes ∷ rest else [])
      (chunks_loop_fuel f g n (drop n bytes) pos (omega (arith, length-drop n bytes))
        (omega (arith, length-drop n bytes)))

pub chunks_exact-append :
    (n : ℕ) (chunk rest : List ℕ)
    → 0 < n
    → length chunk ≡ n
    → chunks_exact n (chunk ++ rest) ≡ chunk ∷ chunks_exact n rest
unfolding chunks_exact
chunks_exact-append n chunk rest pos e =
    let total = length-append chunk rest in
    let more = length (chunk ++ rest) in
    chunks_loop_fuel more (suc more) n (chunk ++ rest) pos (omega arith) (omega arith)
    ∙ rw (
      chunks_loop,
      le→leb n (length (chunk ++ rest)) (omega arith),
      take_of_length n chunk rest e,
      drop_of_length n chunk rest e,
      chunks_loop_fuel more (length rest) n rest pos (omega arith) (omega arith),
    )
