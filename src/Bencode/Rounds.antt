-- ===== src/Bencode/Rounds.antt =====
-- The rounds of the loop of `check_bencode_depth` in src/core/bencode.rs.
use tortor.Prelude.{
  ℕ, zero, suc, ◌+◌, ◌-◌, ◌≤◌, ◌<◌, ◌≡◌, refl, inl, inr, List, [], ◌∷◌, if◌then◌else◌, ltb,
  Bool-cases, length, drop, arith,
}
use tortor.Prelude.Result.{ok, err}
use tortor.Bencode.{too_deep, out_of_fuel, max_bencode_depth}
use tortor.Bencode.Parse.{Token, opens, closes, skips, unknown_byte, token, depth_loop}

token-skips : (b n : ℕ) (bs : List ℕ) → token b bs ≡ skips n → 0 < n
unfolding token
token-skips b n bs e = ground (arith, e)

length-drop_le : (n : ℕ) (bs : List ℕ) → length (drop n bs) ≤ length bs
length-drop_le zero bs = omega arith
length-drop_le (suc n) [] = omega arith
length-drop_le (suc n) (b ∷ bs) = omega (arith, length-drop_le n bs)

-- Whatever the bytes are, a round for each is enough.
depth_loop-ne-out_of_fuel :
    (fuel depth : ℕ) (bytes : List ℕ)
    → length bytes ≤ fuel
    → depth_loop fuel depth bytes ≡ err out_of_fuel
    → ⊥
unfolding depth_loop
depth_loop-ne-out_of_fuel zero depth [] enough e = cc e
depth_loop-ne-out_of_fuel zero depth (b ∷ bs) enough e = omega arith
depth_loop-ne-out_of_fuel (suc fuel) depth [] enough e = cc e
depth_loop-ne-out_of_fuel (suc fuel) depth (b ∷ bs) enough e =
    by_token (token b bs) refl e (λ d. depth_loop-ne-out_of_fuel fuel d bs (omega arith))
      (λ n le.
        depth_loop-ne-out_of_fuel fuel depth (drop n bs) (omega (arith, length-drop_le n bs)))
  where
    by_token :
        (t : Token)
        → token b bs ≡ t
        → (elim t [
          | opens ↦
              if ltb max_bencode_depth (depth + 1)
              then err too_deep
              else depth_loop fuel (depth + 1) bs
          | closes ↦ depth_loop fuel (depth - 1) bs
          | skips n ↦ depth_loop fuel depth (drop n (b ∷ bs))
          | unknown_byte ↦ ok tt
        ])
          ≡ err out_of_fuel
        → ((d : ℕ) → depth_loop fuel d bs ≡ err out_of_fuel → ⊥)
        → ((n : ℕ) → 0 < suc n → depth_loop fuel depth (drop n bs) ≡ err out_of_fuel → ⊥)
        → ⊥
    by_token opens t e inner skipped = elim (Bool-cases (ltb max_bencode_depth (depth + 1))) [
      | inl over ↦ let e' = simp over at e in cc e'
      | inr fine ↦ inner (depth + 1) (simp fine at e)
    ]
    by_token closes t e inner skipped = inner (depth - 1) e
    by_token (skips zero) t e inner skipped = omega (arith, token-skips b 0 bs t)
    by_token (skips (suc n)) t e inner skipped = skipped n (omega arith) e
    by_token unknown_byte t e inner skipped = cc e
