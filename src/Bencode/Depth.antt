-- ===== src/Bencode/Depth.antt =====
-- `check_bencode_depth` of src/core/bencode.rs against the grammar of bencode.
use tortor.Prelude.{
  ℕ, zero, suc, ◌+◌, ◌-◌, ◌*◌, ◌≤◌, ◌<◌, ◌≡◌, ◌⊎◌, refl, ap, ◌∙◌, inl, inr, min, max, true, false,
  List, [], ◌∷◌, ◌++◌, if◌then◌else◌, ltb, leb, ◌==◌, Bool-cases, length, drop, take, All,
  append_assoc, append-nil, length-append, take-length_append, drop_of_length, arith,
}
use mathlib.Core.Path.{subst}
use tortor.Prelude.Words.{u64_mod}
use tortor.Prelude.Result.{Result, ok, err}
use tortor.Bencode.{
  BencodeError, too_deep, max_bencode_depth, is_digit, digit_run, integer_run, digits_value,
}
use tortor.Bencode.Parse.{
  Token, opens, skips, token, saturating_digits, depth_loop, check_bencode_depth,
}

-- A sequence of bencoded values, whose lists and dictionaries nest `depth` deep.
pub data Values : ℕ → List ℕ → Type 0 where
  nothing : Values 0 []
  integer :
      (depth : ℕ) (digits rest : List ℕ)
      → All (λ b. (b == 101) ≡ false) digits
      → Values depth rest
      → Values depth (105 ∷ (digits ++ (101 ∷ rest)))
  byte_string :
      (depth digit : ℕ) (digits string rest : List ℕ)
      → All (λ b. is_digit b ≡ true) (digit ∷ digits)
      → digits_value 0 (digit ∷ digits) ≡ length string
      → length string < u64_mod
      → Values depth rest
      → Values depth (digit ∷ (digits ++ (58 ∷ (string ++ rest))))
  nested :
      (outer inner after : ℕ) (items rest : List ℕ)
      → (outer ≡ 108) ⊎ (outer ≡ 100)
      → Values inner items
      → Values after rest
      → Values (max (inner + 1) after) (outer ∷ (items ++ (101 ∷ rest)))

-- With fuel for each byte, the loop at this depth returns `r`.
abbrev pub Loops : ℕ → List ℕ → Result BencodeError Unit → Type 0
Loops depth bytes r = (fuel : ℕ) → length bytes ≤ fuel → depth_loop fuel depth bytes ≡ r

token_goes_on :
    (depth b n : ℕ) (bs rest : List ℕ) (r : Result BencodeError Unit)
    → token b bs ≡ skips n
    → drop n (b ∷ bs) ≡ rest
    → length rest ≤ length bs
    → Loops depth rest r
    → Loops depth (b ∷ bs) r
unfolding depth_loop
token_goes_on depth b n bs rest r t d less h zero enough = absurd (omega arith)
token_goes_on depth b n bs rest r t d less h (suc fuel) enough =
    let next : depth_loop fuel depth (drop n (b ∷ bs)) ≡ r =
      ap (depth_loop fuel depth) d ∙ h fuel (omega arith) in
    ground (arith, t, next)

opens_goes_on :
    (depth b : ℕ) (bs : List ℕ) (r : Result BencodeError Unit)
    → token b bs ≡ opens
    → depth < max_bencode_depth
    → Loops (depth + 1) bs r
    → Loops depth (b ∷ bs) r
unfolding depth_loop
opens_goes_on depth b bs r t less h zero enough = absurd (omega arith)
opens_goes_on depth b bs r t less h (suc fuel) enough =
    let fine : ltb max_bencode_depth (depth + 1) ≡ false = ground (arith, less) in
    let next = h fuel (omega arith) in ground (arith, t, fine, next)

opens_too_deep :
    (depth b : ℕ) (bs : List ℕ)
    → token b bs ≡ opens
    → max_bencode_depth ≤ depth
    → Loops depth (b ∷ bs) (err too_deep)
unfolding depth_loop
opens_too_deep depth b bs t deep zero enough = absurd (omega arith)
opens_too_deep depth b bs t deep (suc fuel) enough =
    let over : ltb max_bencode_depth (depth + 1) ≡ true = ground (arith, deep) in
    ground (arith, t, over)

closes_goes_on :
    (depth : ℕ) (bs : List ℕ) (r : Result BencodeError Unit)
    → Loops depth bs r
    → Loops (depth + 1) (101 ∷ bs) r
unfolding depth_loop token
closes_goes_on depth bs r h zero enough = absurd (omega arith)
closes_goes_on depth bs r h (suc fuel) enough =
    let back : depth + 1 - 1 ≡ depth = omega arith in simp back (h fuel (omega arith))

integer_run-digits :
    (ds rest : List ℕ)
    → All (λ b. (b == 101) ≡ false) ds
    → integer_run (ds ++ (101 ∷ rest)) ≡ length ds
unfolding integer_run
integer_run-digits [] rest a = refl
integer_run-digits (d ∷ ds) rest (e, a) = rw e (ap suc (integer_run-digits ds rest a))

digit_run-digits :
    (ds rest : List ℕ) → All (λ b. is_digit b ≡ true) ds → digit_run (ds ++ (58 ∷ rest)) ≡ length ds
unfolding digit_run
digit_run-digits [] rest a = refl
digit_run-digits (d ∷ ds) rest (e, a) = rw e (ap suc (digit_run-digits ds rest a))

digits_value-grows : (acc : ℕ) (ds : List ℕ) → acc ≤ digits_value acc ds
digits_value-grows acc [] = omega arith
digits_value-grows acc (d ∷ ds) = omega (arith, digits_value-grows (acc * 10 + (d - 48)) ds)

-- A length below 2^64 is read as it is.
saturating_digits-small :
    (ds : List ℕ) (acc : ℕ)
    → digits_value acc ds < u64_mod
    → saturating_digits acc ds ≡ digits_value acc ds
saturating_digits-small [] acc h = refl
saturating_digits-small (d ∷ ds) acc h =
    let grows = digits_value-grows (acc * 10 + (d - 48)) ds in
    let same : min (min (acc * 10) (u64_mod - 1) + (d - 48)) (u64_mod - 1) ≡ acc * 10 + (d - 48) =
      omega (arith, grows, h) in
    ap (λ a. saturating_digits a ds) same ∙ saturating_digits-small ds (acc * 10 + (d - 48)) h

drop-behind :
    (n c : ℕ) (ds s rest : List ℕ)
    → n ≡ length ds + 1 + length s
    → drop n (ds ++ (c ∷ (s ++ rest))) ≡ rest
drop-behind zero c ds s rest e = absurd (omega arith)
drop-behind (suc n) c [] s rest e = drop_of_length n s rest (omega arith)
drop-behind (suc n) c (d ∷ ds) s rest e = drop-behind n c ds s rest (omega arith)

opens-token : (b : ℕ) (bs : List ℕ) → (b ≡ 108) ⊎ (b ≡ 100) → token b bs ≡ opens
unfolding token
opens-token b bs (inl e) = rw e refl
opens-token b bs (inr e) = rw e refl

integer-Loops :
    (depth : ℕ) (ds rest : List ℕ) (r : Result BencodeError Unit)
    → All (λ b. (b == 101) ≡ false) ds
    → Loops depth rest r
    → Loops depth (105 ∷ (ds ++ (101 ∷ rest))) r
integer-Loops depth ds rest r a h =
    token_goes_on depth 105 (length (105 ∷ ds) + 1) (ds ++ (101 ∷ rest)) rest r
      (unfold token in ap (λ n. skips (n + 1)) (integer_run-digits (105 ∷ ds) rest (refl, a)))
      (drop-behind (length (105 ∷ ds) + 1) 101 (105 ∷ ds) [] rest (omega arith))
      (omega (arith, length-append ds (101 ∷ rest))) h

not_a_letter :
    (b : ℕ)
    → is_digit b ≡ true
    → ((b == 108) ≡ false) × ((b == 100) ≡ false) × ((b == 101) ≡ false) × ((b == 105) ≡ false)
not_a_letter b e = (ground (arith, e), ground (arith, e), ground (arith, e), ground (arith, e))

-- What a digit at the front of these bytes skips.
abbrev read_length : ℕ → List ℕ → Token
read_length d bs =
    skips (digit_run (d ∷ bs) + 1 + saturating_digits 0 (take (digit_run (d ∷ bs)) (d ∷ bs)))

digits-token :
    (d : ℕ) (ds rest : List ℕ) (len : ℕ)
    → All (λ b. is_digit b ≡ true) (d ∷ ds)
    → digits_value 0 (d ∷ ds) ≡ len
    → len < u64_mod
    → token d (ds ++ (58 ∷ rest)) ≡ skips (length (d ∷ ds) + 1 + len)
unfolding token
digits-token d ds rest len a e small =
    let run = digit_run-digits (d ∷ ds) rest a in
    let no = not_a_letter d a.0 in
    let read : saturating_digits 0 (d ∷ ds) ≡ len =
      saturating_digits-small (d ∷ ds) 0 (omega (arith, e, small)) ∙ e in
    let letters : token d (ds ++ (58 ∷ rest)) ≡ read_length d (ds ++ (58 ∷ rest)) =
      simp (no.0, no.1, no.2, no.3, a.0) refl in
    letters
    ∙ ap (λ n. skips (n + 1 + saturating_digits 0 (take n (d ∷ (ds ++ (58 ∷ rest)))))) run
    ∙ ap (λ xs. skips (length (d ∷ ds) + 1 + saturating_digits 0 xs))
        (take-length_append (d ∷ ds) (58 ∷ rest))
    ∙ ap (λ n. skips (length (d ∷ ds) + 1 + n)) read

string-Loops :
    (depth d : ℕ) (ds s rest : List ℕ) (r : Result BencodeError Unit)
    → All (λ b. is_digit b ≡ true) (d ∷ ds)
    → digits_value 0 (d ∷ ds) ≡ length s
    → length s < u64_mod
    → Loops depth rest r
    → Loops depth (d ∷ (ds ++ (58 ∷ (s ++ rest)))) r
string-Loops depth d ds s rest r a e small h =
    token_goes_on depth d (length (d ∷ ds) + 1 + length s) (ds ++ (58 ∷ (s ++ rest))) rest r
      (digits-token d ds (s ++ rest) (length s) a e small)
      (drop-behind (length (d ∷ ds) + 1 + length s) 58 (d ∷ ds) s rest refl)
      (omega (arith, length-append ds (58 ∷ (s ++ rest)), length-append s rest)) h

shallow-Loops :
    {d : ℕ} {bs : List ℕ}
    → Values d bs
    → (depth : ℕ) (tail : List ℕ) (r : Result BencodeError Unit) → depth + d ≤ max_bencode_depth
    → Loops depth tail r
    → Loops depth (bs ++ tail) r
shallow-Loops nothing depth tail r small h = h
shallow-Loops (integer d ds rest a v) depth tail r small h =
    rw (append_assoc ds (101 ∷ rest) tail)
      (integer-Loops depth ds (rest ++ tail) r a (shallow-Loops v depth tail r small h))
shallow-Loops (byte_string d c ds s rest a e less v) depth tail r small h =
    rw (append_assoc ds (58 ∷ (s ++ rest)) tail, append_assoc s rest tail)
      (string-Loops depth c ds s (rest ++ tail) r a e less (shallow-Loops v depth tail r small h))
shallow-Loops (nested outer inner after items rest o v w) depth tail r small h =
    rw (append_assoc items (101 ∷ rest) tail) (
      opens_goes_on depth outer (items ++ (101 ∷ (rest ++ tail))) r (opens-token outer _ o)
        (omega (arith, small))
        (shallow-Loops v (depth + 1) (101 ∷ (rest ++ tail)) r (omega (arith, small)) (
          closes_goes_on depth (rest ++ tail) r
            (shallow-Loops w depth tail r (omega (arith, small)) h))))

deep-Loops :
    {d : ℕ} {bs : List ℕ}
    → Values d bs
    → (depth : ℕ) (tail : List ℕ) → depth ≤ max_bencode_depth
    → max_bencode_depth < depth + d
    → Loops depth (bs ++ tail) (err too_deep)
deep-Loops nothing depth tail at deep = absurd (omega (arith, at, deep))
deep-Loops (integer d ds rest a v) depth tail at deep =
    rw (append_assoc ds (101 ∷ rest) tail)
      (integer-Loops depth ds (rest ++ tail) _ a (deep-Loops v depth tail at deep))
deep-Loops (byte_string d c ds s rest a e less v) depth tail at deep =
    rw (append_assoc ds (58 ∷ (s ++ rest)) tail, append_assoc s rest tail)
      (string-Loops depth c ds s (rest ++ tail) _ a e less (deep-Loops v depth tail at deep))
deep-Loops (nested outer inner after items rest o v w) depth tail at deep =
    rw (append_assoc items (101 ∷ rest) tail) (elim (Bool-cases (ltb depth max_bencode_depth)) [
      | inr at_most ↦ opens_too_deep depth outer _ (opens-token outer _ o) (ground (arith, at_most))
      | inl room ↦
          opens_goes_on depth outer (items ++ (101 ∷ (rest ++ tail))) _ (opens-token outer _ o)
            (ground (arith, room))
            (elim (Bool-cases (leb (depth + 1 + inner) max_bencode_depth)) [
              | inr inner_deep ↦
                  deep-Loops v (depth + 1) (101 ∷ (rest ++ tail)) (ground (arith, room))
                    (ground (arith, inner_deep))
              | inl fine ↦
                  shallow-Loops v (depth + 1) (101 ∷ (rest ++ tail)) _ (ground (arith, fine)) (
                    closes_goes_on depth (rest ++ tail) _
                      (deep-Loops w depth tail at (ground (arith, fine, deep))))
            ])
    ])

done_at_end : Loops 0 [] (ok tt)
unfolding depth_loop
done_at_end zero enough = refl
done_at_end (suc fuel) enough = refl

Values-Loops :
    {d : ℕ} {bytes : List ℕ}
    → Values d bytes
    → Loops 0 bytes (if leb d 64 then ok tt else err too_deep)
Values-Loops {d} {bytes} v =
    subst (λ bs. Loops 0 bs (if leb d 64 then ok tt else err too_deep)) (append-nil bytes)
      (elim (Bool-cases (leb d 64)) [
        | inl small ↦ rw small (shallow-Loops v 0 [] (ok tt) (ground (arith, small)) done_at_end)
        | inr deep ↦ rw deep (deep-Loops v 0 [] (omega arith) (ground (arith, deep)))
      ])

-- On a sequence of bencoded values, the depth check accepts those that nest at most 64 deep and
-- refuses the others as too deep; its loop says the same with any number of rounds from that of the
-- bytes on, and so does not run out of them.
pub check_bencode_depth-Values :
    {d : ℕ} {bytes : List ℕ}
    → Values d bytes
    → (check_bencode_depth bytes ≡ (if leb d 64 then ok tt else err too_deep))
      × Loops 0 bytes (if leb d 64 then ok tt else err too_deep)
unfolding check_bencode_depth
check_bencode_depth-Values {d} {bytes} v =
    let loops = Values-Loops v in (loops (length bytes) (omega arith), loops)
