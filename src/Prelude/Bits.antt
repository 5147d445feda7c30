-- ===== src/Prelude/Bits.antt =====
-- Bits of a byte in wire order (bit 0 is the most significant one), checked over all bytes by
-- evaluation.
use Prim.Native.Nat.{ℕ, zero, suc, ◌+◌, ◌-◌, ◌/◌, ◌%◌, ◌^◌, ◌≤◌, ◌<◌, bit_and, bit_or}
use mathlib.Core.Path.{◌≡◌, refl}
use mathlib.Core.Logic.{inl, inr}
use mathlib.Core.Bool.{Bool, true, false, not, ◌&&◌, ◌||◌}
use native.Mathlib.Omega.{arith}
use tortor.Prelude.Tests.{if◌then◌else◌, ltb, ◌==◌, ==→≡, ltb→lt, Bool-cases}

-- `byte & (0x80 >> k) != 0`
unfoldable pub test_bit : ℕ → ℕ → Bool
test_bit b k = not (bit_and b (0x80 / 2 ^ k) == 0)

-- `byte | (0x80 >> k)`
unfoldable pub set_bit : ℕ → ℕ → ℕ
set_bit b k = bit_or b (0x80 / 2 ^ k)

-- `u8::count_ones`
unfoldable pub count_ones : ℕ → ℕ
count_ones b =
    b % 2 + b / 2 % 2 + b / 4 % 2 + b / 8 % 2 + b / 16 % 2 + b / 32 % 2 + b / 64 % 2 + b / 128 % 2

-- The number of `k < n` with bit `k` set.
abbrev pub bits_below : ℕ → ℕ → ℕ
bits_below zero b = 0
bits_below (suc n) b = bits_below n b + (if test_bit b n then 1 else 0)

-- A table: the test at every number below the bound, the largest one first.
all_below : ℕ → (ℕ → Bool) → Bool
all_below zero test = true
all_below (suc k) test = all_below k test && test k

all_below_sound :
    (k : ℕ) (test : ℕ → Bool) (i : ℕ) → all_below k test ≡ true → i < k → test i ≡ true
unfolding all_below
all_below_sound zero test i table in_range = absurd (omega arith)
all_below_sound (suc k) test i table in_range = elim (Bool-cases (i == k)) [
  | inl last ↦ let e : i ≡ k = ==→≡ i k last in rw e (ground (arith, table))
  | inr other ↦ all_below_sound k test i (ground (arith, table)) (ground (arith, other))
]

all_below_complete :
    (k : ℕ) (test : ℕ → Bool) → ((i : ℕ) → i < k → test i ≡ true) → all_below k test ≡ true
unfolding all_below
all_below_complete zero test every = refl
all_below_complete (suc k) test every =
    rw (all_below_complete k test (λ i h. every i (omega arith)), every k (omega arith))

iffb : Bool → Bool → Bool
iffb true b = b
iffb false b = not b

iffb→≡ : (a b : Bool) → iffb a b ≡ true → a ≡ b
unfolding iffb
iffb→≡ a b h = ground arith

bits_ok : ℕ → ℕ → ℕ → Bool
unfolding iffb test_bit set_bit
bits_ok b k j = iffb (test_bit (set_bit b k) j) (k == j || test_bit b j)

set_table : all_below 256 (λ b. all_below 8 (λ k. all_below 8 (λ j. bits_ok b k j))) ≡ true
unfolding all_below bits_ok
set_table = refl

pub test_bit-set_bit :
    (b k j : ℕ) → b < 256 → k < 8 → j < 8 → test_bit (set_bit b k) j ≡ (k == j || test_bit b j)
unfolding bits_ok
test_bit-set_bit b k j hb hk hj = iffb→≡ _ _ (
    all_below_sound 8 (bits_ok b k) j
      (all_below_sound 8 (λ k. all_below 8 (bits_ok b k)) k (all_below_sound 256 _ b set_table hb)
        hk)
      hj)

set_bit_table : all_below 256 (λ b. all_below 8 (λ k. ltb (set_bit b k) 256)) ≡ true
unfolding all_below set_bit
set_bit_table = refl

pub set_bit_lt : (b k : ℕ) → b < 256 → k < 8 → set_bit b k < 256
set_bit_lt b k hb hk =
    ltb→lt _ _ (all_below_sound 8 _ k (all_below_sound 256 _ b set_bit_table hb) hk)

count_table : all_below 256 (λ b. count_ones b == bits_below 8 b) ≡ true
unfolding all_below count_ones test_bit
count_table = refl

-- The population count is the number of bits that the tests find set.
pub count_ones_lem : (b : ℕ) → b < 256 → count_ones b ≡ bits_below 8 b
count_ones_lem b hb = ==→≡ _ _ (all_below_sound 256 _ b count_table hb)

pub test_bit-zero : (k : ℕ) → k < 8 → test_bit 0 k ≡ false
test_bit-zero k h = iffb→≡ _ _ (all_below_sound 8 (λ k. iffb (test_bit 0 k) false) k zero_table h)
  where
    zero_table : all_below 8 (λ k. iffb (test_bit 0 k) false) ≡ true
    zero_table = unfold all_below iffb test_bit in refl

-- The low `spare` bits of `b` are those of wire positions `8 - spare` to `7`.
low_clear : ℕ → ℕ → Bool
low_clear b spare = all_below 8 (λ k. ltb k (8 - spare) || not (test_bit b k))

spare_table :
    all_below 256 (λ b. all_below 8 (λ s. iffb (bit_and b (2 ^ s - 1) == 0) (low_clear b s))) ≡ true
unfolding all_below low_clear test_bit iffb
spare_table = refl

-- `byte & ((1 << spare) - 1) == 0` says that no wire bit from `8 - spare` on is set.
pub spare_clear :
    (b s k : ℕ)
    → b < 256
    → s < 8
    → bit_and b (2 ^ s - 1) ≡ 0
    → k < 8
    → 8 - s ≤ k
    → test_bit b k ≡ false
unfolding low_clear
spare_clear b s k hb hs e hk hle =
    let row = all_below_sound 8 _ s (all_below_sound 256 _ b spare_table hb) hs in
    let whole = iffb→≡ _ _ row in
    let here =
      all_below_sound 8 (λ k. ltb k (8 - s) || not (test_bit b k)) k (ground (arith, whole)) hk in
    ground arith

-- And the other way round.
pub clear_spare :
    (b s : ℕ)
    → b < 256
    → s < 8
    → ((k : ℕ) → k < 8 → 8 - s ≤ k → test_bit b k ≡ false)
    → bit_and b (2 ^ s - 1) ≡ 0
unfolding low_clear
clear_spare b s hb hs clear =
    let row = all_below_sound 8 _ s (all_below_sound 256 _ b spare_table hb) hs in
    let whole = iffb→≡ _ _ row in
    let every =
      all_below_complete 8 (λ k. ltb k (8 - s) || not (test_bit b k))
        (λ k h. elim (Bool-cases (ltb k (8 - s))) [
          | inl low ↦ rw low
          | inr high ↦ rw (high, clear k h (ground arith))
        ]) in
    ground (arith, whole, every)
