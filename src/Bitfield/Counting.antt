-- ===== src/Bitfield/Counting.antt =====
-- `count` is the number of indices that `iter_ones` yields.
use tortor.Prelude.{
  ℕ, zero, suc, ◌+◌, ◌-◌, ◌*◌, ◌/◌, ◌%◌, ◌≤◌, ◌<◌, ◌≡◌, refl, sym, ap, ◌∙◌, Bool, false, List, [],
  ◌∷◌, if◌then◌else◌, length, All, arith,
}
use tortor.Prelude.Bits.{bits_below, count_ones_lem}
use tortor.Prelude.Sets.{filter_range}
use tortor.Bitfield.{Bitfield, bit, has, count, iter_ones, sum_ones}
use tortor.Bitfield.Valid.{IsByte, IsValid}

-- How many `i` of `start..start + n` pass.
passing : ℕ → ℕ → (ℕ → Bool) → ℕ
passing start zero p = 0
passing start (suc n) p = (if p start then 1 else 0) + passing (suc start) n p

length-filter_range :
    (start n : ℕ) (p : ℕ → Bool) → length (filter_range start n p) ≡ passing start n p
unfolding filter_range passing
length-filter_range start zero p = refl
length-filter_range start (suc n) p = ground (arith, length-filter_range (suc start) n p)

passing-ext :
    (start n : ℕ) (p q : ℕ → Bool)
    → ((i : ℕ) → start ≤ i → i < start + n → p i ≡ q i)
    → passing start n p ≡ passing start n q
unfolding passing
passing-ext start zero p q f = refl
passing-ext start (suc n) p q f = rw (f start (omega arith) (omega arith)) (
    ap (λ t. (if q start then 1 else 0) + t)
      (passing-ext (suc start) n p q (λ i lo hi. f i (omega arith) (omega arith))))

passing-add :
    (start m n : ℕ) (p : ℕ → Bool)
    → passing start (m + n) p ≡ passing start m p + passing (start + m) n p
unfolding passing
passing-add start zero n p =
    let e : 0 + n ≡ n = omega arith in
    let e' : start + 0 ≡ start = omega arith in rw (e, e') (omega arith)
passing-add start (suc m) n p =
    let e : suc m + n ≡ suc (m + n) = omega arith in
    let e' : start + suc m ≡ suc start + m = omega arith in
    rw (e, e') (omega (arith, passing-add (suc start) m n p))

passing-none :
    (start n : ℕ) (p : ℕ → Bool)
    → ((i : ℕ) → start ≤ i → i < start + n → p i ≡ false)
    → passing start n p ≡ 0
unfolding passing
passing-none start zero p f = refl
passing-none start (suc n) p f =
    rw (f start (omega arith) (omega arith))
      (omega (arith, passing-none (suc start) n p (λ i lo hi. f i (omega arith) (omega arith))))

passing_shift :
    (start n : ℕ) (b : ℕ) (bs : List ℕ)
    → passing (start + 8) n (bit (b ∷ bs)) ≡ passing start n (bit bs)
unfolding passing
passing_shift start zero b bs = refl
passing_shift start (suc n) b bs =
    let q : (start + 8) / 8 ≡ suc (start / 8) = omega arith in
    let r : (start + 8) % 8 ≡ start % 8 = omega arith in
    let e : suc (start + 8) ≡ suc start + 8 = omega arith in
    rw (q, r, e) (omega (arith, passing_shift (suc start) n b bs))

passing_byte : (b : ℕ) (bs : List ℕ) → passing 0 8 (bit (b ∷ bs)) ≡ bits_below 8 b
unfolding passing
passing_byte b bs = omega arith

passing_bytes :
    (bytes : List ℕ) → All IsByte bytes → passing 0 (length bytes * 8) (bit bytes) ≡ sum_ones bytes
unfolding passing
passing_bytes [] a = refl
passing_bytes (b ∷ bs) a =
    let e : suc (length bs) * 8 ≡ 8 + length bs * 8 = omega arith in
    rw e (
      passing-add 0 8 (length bs * 8) (bit (b ∷ bs))
      ∙ omega (
        arith,
        passing_byte b bs,
        passing_shift 0 (length bs * 8) b bs,
        passing_bytes bs a.1,
        count_ones_lem b a.0,
      ))

-- On a well-formed field the population count is the number of pieces that it holds: no spare bit
-- is counted.
pub count-iter_ones : (f : Bitfield) → IsValid f → count f ≡ length (iter_ones f)
unfolding count iter_ones
count-iter_ones f v =
    let size = v.size in
    let whole : length f.bytes * 8 ≡ f.len + (length f.bytes * 8 - f.len) = omega arith in
    let split = passing-add 0 f.len (length f.bytes * 8 - f.len) (bit f.bytes) in
    let tail =
      passing-none (0 + f.len) (length f.bytes * 8 - f.len) (bit f.bytes)
        (λ i lo hi. v.spare i (omega arith) (omega arith)) in
    let head = passing-ext 0 f.len (has f) (bit f.bytes) (λ i lo hi. unfold has in ground arith) in
    sym (passing_bytes f.bytes v.are_bytes)
    ∙ ap (λ n. passing 0 n (bit f.bytes)) whole
    ∙ omega (arith, split, tail, head, length-filter_range 0 f.len (has f))
