-- ===== src/Flags/Bits.antt =====
-- The binary digits of `bit_and`, `bit_or` and the 32-bit complement, at every position.
use Prim.Native.Nat.{bit_and, bit_or, digits, bit_and-bitwise, bit_or-bitwise}
use native.Mathlib.Nat.{pow-suc}
use rservr.Base.{
  ℕ, zero, suc, ◌+◌, ◌-◌, ◌*◌, ◌/◌, ◌%◌, ◌^◌, ◌≤◌, ◌<◌, min, max, ◌≡◌, refl, ◌∙◌, arith,
}

-- The digit of `a` at position `i`.
unfoldable pub bit : ℕ → ℕ → ℕ
bit a zero = a % 2
bit a (suc i) = bit (a / 2) i

pub bit-le-one : (a i : ℕ) → bit a i ≤ 1
unfolding bit
bit-le-one a zero = omega arith
bit-le-one a (suc i) = bit-le-one (a / 2) i

pub bit-zero : (i : ℕ) → bit 0 i ≡ 0
unfolding bit
bit-zero zero = refl
bit-zero (suc i) = bit-zero i

bit-digits-min : (n a b i : ℕ) → a ≤ n → bit (digits (λ d. 0) min n a b) i ≡ min (bit a i) (bit b i)
unfolding bit
bit-digits-min zero zero b i h = omega (arith, bit-zero i)
bit-digits-min zero (suc a) b i h = absurd (omega arith)
bit-digits-min (suc n) zero b i h = omega (arith, bit-zero i)
bit-digits-min (suc n) (suc a) b zero h = omega arith
bit-digits-min (suc n) (suc a) b (suc i) h =
    let rest = digits (λ d. 0) min n (suc a / 2) (b / 2) in
    let half : (rest * 2 + min (suc a % 2) (b % 2)) / 2 ≡ rest = omega arith in
    ap_bit half i ∙ bit-digits-min n (suc a / 2) (b / 2) i (omega arith)
  where
    ap_bit : {m k : ℕ} → m ≡ k → (j : ℕ) → bit m j ≡ bit k j
    ap_bit e j = rw e

bit-digits-max : (n a b i : ℕ) → a ≤ n → bit (digits (λ d. d) max n a b) i ≡ max (bit a i) (bit b i)
unfolding bit
bit-digits-max zero zero b i h = omega (arith, bit-zero i)
bit-digits-max zero (suc a) b i h = absurd (omega arith)
bit-digits-max (suc n) zero b i h = omega (arith, bit-zero i)
bit-digits-max (suc n) (suc a) b zero h = omega arith
bit-digits-max (suc n) (suc a) b (suc i) h =
    let rest = digits (λ d. d) max n (suc a / 2) (b / 2) in
    let half : (rest * 2 + max (suc a % 2) (b % 2)) / 2 ≡ rest = omega arith in
    ap_bit half i ∙ bit-digits-max n (suc a / 2) (b / 2) i (omega arith)
  where
    ap_bit : {m k : ℕ} → m ≡ k → (j : ℕ) → bit m j ≡ bit k j
    ap_bit e j = rw e

pub bit-bit_and : (a b i : ℕ) → bit (bit_and a b) i ≡ min (bit a i) (bit b i)
bit-bit_and a b i = rw bit_and-bitwise (bit-digits-min a a b i (omega arith))

pub bit-bit_or : (a b i : ℕ) → bit (bit_or a b) i ≡ max (bit a i) (bit b i)
bit-bit_or a b i = rw bit_or-bitwise (bit-digits-max a a b i (omega arith))

-- The complement within w digits turns every one of them.
pub bit-complement : (w a i : ℕ) → i < w → a < 2 ^ w → bit (2 ^ w - 1 - a) i ≡ 1 - bit a i
unfolding bit
bit-complement zero a i h small = absurd (omega arith)
bit-complement (suc w) a zero h small = omega (arith, pow-suc 2 w)
bit-complement (suc w) a (suc i) h small =
    ap_bit (omega (arith, pow-suc 2 w)) i
    ∙ bit-complement w (a / 2) i (omega arith) (omega (arith, pow-suc 2 w))
  where
    ap_bit : {m k : ℕ} → m ≡ k → (j : ℕ) → bit m j ≡ bit k j
    ap_bit e j = rw e

-- A number whose digits are all zero is zero.
pub zero_of_bits : (w a : ℕ) → a < 2 ^ w → ((i : ℕ) → i < w → bit a i ≡ 0) → a ≡ 0
unfolding bit
zero_of_bits zero a small h = omega arith
zero_of_bits (suc w) a small h = omega (
  arith,
  pow-suc 2 w,
  h 0 (omega arith),
  zero_of_bits w (a / 2) (omega (arith, pow-suc 2 w)) (λ i lt. h (suc i) (omega arith)),
)

bit_and_le_digits : (n a b : ℕ) → a ≤ n → digits (λ d. 0) min n a b ≤ a
bit_and_le_digits zero a b h = omega arith
bit_and_le_digits (suc n) zero b h = omega arith
bit_and_le_digits (suc n) (suc a) b h =
    omega (arith, bit_and_le_digits n (suc a / 2) (b / 2) (omega arith))

pub bit_and-le_left : (a b : ℕ) → bit_and a b ≤ a
bit_and-le_left a b = rw bit_and-bitwise (bit_and_le_digits a a b (omega arith))
