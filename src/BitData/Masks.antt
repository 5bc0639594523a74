-- ===== src/BitData/Masks.antt =====
-- Setting the bits that were found gives the mask back.
use rservr.Base.{
  ℕ, zero, suc, ◌+◌, ◌/◌, ◌^◌, ◌≤◌, ◌<◌, max, ◌≡◌, ◌∙◌, ap, inl, inr, List, [], ◌∷◌, ◌==◌, leb, ltb,
  if◌then◌else◌, Bool-cases, arith,
}
use native.Mathlib.Nat.{pow-suc}
use rservr.Flags.Bits.{bit, bit-le-one, bit-zero, bit-bit_or}
use rservr.BitData.{bits_of_set, set_bit, find_set_bits}
use rservr.BitData.Positions.{positions, bit-pow, find_set_bits-positions}

unfoldable pub set_all : ℕ → List ℕ → ℕ
set_all mask [] = mask
set_all mask (p ∷ l) = set_all (set_bit mask p) l

-- Numbers with the same digits are the same.
bits_ext : (n a b : ℕ) → a ≤ n → b ≤ n → ((j : ℕ) → bit a j ≡ bit b j) → a ≡ b
unfolding bit
bits_ext zero a b ha hb same = omega arith
bits_ext (suc n) a b ha hb same =
    omega
      (arith, same 0, bits_ext n (a / 2) (b / 2) (omega arith) (omega arith) (λ j. same (suc j)))

bit_high : (w a j : ℕ) → a < 2 ^ w → w ≤ j → bit a j ≡ 0
unfolding bit
bit_high zero a j small h = ap (λ m. bit m j) (omega arith) ∙ bit-zero j
bit_high (suc w) a zero small h = absurd (omega arith)
bit_high (suc w) a (suc j) small h = bit_high w (a / 2) j (omega (arith, pow-suc 2 w)) (omega arith)

bit-set_bit : (mask p j : ℕ) → p < 64 → bit (set_bit mask p) j ≡ (if j == p then 1 else bit mask j)
unfolding set_bit
bit-set_bit mask p j small =
    bit-bit_or mask (if leb bits_of_set p then 0 else 2 ^ p) j
    ∙ ground (arith, bit-pow p j, bit-le-one mask j, small)

bit-set_all :
    (mask e n i j : ℕ)
    → i + n ≤ 64
    → bit (set_all e (positions mask n i)) j ≡ (
        if leb i j
        then (if ltb j (i + n) then max (bit e j) (bit mask j) else bit e j)
        else bit e j)
unfolding set_all positions
bit-set_all mask e zero i j room = ground arith
bit-set_all mask e (suc n) i j room = elim (Bool-cases (bit mask i == 1)) [
  | inl one ↦ rw one (
      bit-set_all mask (set_bit e i) n (i + 1) j (omega arith)
      ∙ ground (
        arith,
        one,
        bit-set_bit e i j (omega arith),
        bit-le-one e j,
        bit-le-one mask j,
        ap (bit mask),
      ))
  | inr clear ↦ rw clear (
      bit-set_all mask e n (i + 1) j (omega arith)
      ∙ ground (arith, clear, bit-le-one e j, bit-le-one mask i, bit-le-one mask j, ap (bit mask)))
]

-- The bits that are found in a mask of 64 bits, set one after the other, give the mask.
pub set_all-find_set_bits : (mask : ℕ) → mask < 2 ^ 64 → set_all 0 (find_set_bits mask []) ≡ mask
set_all-find_set_bits mask small =
    ap (set_all 0) (find_set_bits-positions mask [])
    ∙ bits_ext (set_all 0 (positions mask 64 0) + mask) _ _ (omega arith) (omega arith) (λ j.
      bit-set_all mask 0 64 0 j (omega arith)
      ∙ ground (arith, bit-zero j, bit-le-one mask j, bit_high 64 mask j small))
