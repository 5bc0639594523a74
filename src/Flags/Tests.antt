-- ===== src/Flags/Tests.antt =====
-- The tests on masks, read bit by bit.
use rservr.Base.{ℕ, ◌-◌, ◌^◌, ◌<◌, min, ◌≡◌, ◌↔◌, ◌==◌, ==_iff, true, not, ◌||◌, arith, refl}
use native.Mathlib.Decide.{dec_lt}
use rservr.Flags.Bits.{
  bit, bit-le-one, bit-zero, bit-bit_and, bit-bit_or, bit-complement, zero_of_bits, bit_and-le_left,
}
use rservr.Flags.{◌&◌, ◌\/◌, bit_not, check_all, check_none, check_any}

-- Every bit of the second mask is a bit of the first.
abbrev pub Covers : ℕ → ℕ → Type 0
Covers check req = (i : ℕ) → i < 32 → bit req i ≡ 1 → bit check i ≡ 1

-- No bit stands in both masks.
abbrev pub Disjoint : ℕ → ℕ → Type 0
Disjoint check req = (i : ℕ) → i < 32 → bit req i ≡ 1 → bit check i ≡ 0

bit-rest :
    (check req i : ℕ)
    → i < 32
    → check < 2 ^ 32
    → bit (bit_not (check & req) & req) i ≡ min (1 - min (bit check i) (bit req i)) (bit req i)
bit-rest check req i h small = omega (
  arith,
  bit-bit_and (bit_not (check & req)) req i,
  bit-complement 32 (check & req) i h (omega (arith, bit_and-le_left check req)),
  bit-bit_and check req i,
)

bit_of_zero : (i n : ℕ) → n ≡ 0 → bit n i ≡ 0
bit_of_zero i n e = rw e (bit-zero i)

rest_iff : (check req : ℕ) → check < 2 ^ 32 → (bit_not (check & req) & req ≡ 0) ↔ Covers check req
rest_iff check req small = (to, from)
  where
    rest : ℕ
    rest = bit_not (check & req) & req

    to : rest ≡ 0 → Covers check req
    to e i h r =
        omega (arith, bit-rest check req i h small, bit-le-one check i, bit_of_zero i rest e)

    from : Covers check req → rest ≡ 0
    from covers =
        zero_of_bits 32 rest (omega (arith, bit_and-le_left (bit_not (check & req)) req))
          λ i h. absorbed i h (bit-rest check req i h small) (covers i h)
      where
        absorbed :
            (i : ℕ)
            → i < 32
            → bit rest i ≡ min (1 - min (bit check i) (bit req i)) (bit req i)
            → (bit req i ≡ 1 → bit check i ≡ 1)
            → bit rest i ≡ 0
        absorbed i h e c = elim (dec_lt 0 (bit req i)) [
          | yes p ↦ omega (arith, c (omega (arith, bit-le-one req i)), bit-le-one req i)
          | no p ↦ omega arith
        ]

-- For a mask of 32 bits, `check_all` accepts exactly the requirements whose bits all stand in it.
pub check_all_iff :
    (check req : ℕ) → check < 2 ^ 32 → (check_all check req ≡ true) ↔ Covers check req
unfolding check_all
check_all_iff check req small =
    let zero_test = ==_iff (bit_not (check & req) & req) 0 in
    let bits = rest_iff check req small in
    (λ h. bits.0 (zero_test.0 h), λ c. zero_test.1 (bits.1 c))

-- For a mask of 32 bits, `check_none` accepts exactly the masks that share no bit with it.
check_none_iff :
    (check req : ℕ) → check < 2 ^ 32 → (check_none check req ≡ true) ↔ Disjoint check req
unfolding check_none
check_none_iff check req small = (to, from)
  where
    to : ((check & req) == 0) ≡ true → Disjoint check req
    to e i h r = omega (
      arith,
      bit-bit_and check req i,
      bit_of_zero i (check & req) ((==_iff (check & req) 0).0 e),
      bit-le-one check i,
    )

    shared : (i : ℕ) → (bit req i ≡ 1 → bit check i ≡ 0) → bit (check & req) i ≡ 0
    shared i d = elim (dec_lt 0 (bit req i)) [
      | yes p ↦ omega (arith, bit-bit_and check req i, d (omega (arith, bit-le-one req i)))
      | no p ↦ omega (arith, bit-bit_and check req i)
    ]

    from : Disjoint check req → ((check & req) == 0) ≡ true
    from d = (==_iff (check & req) 0).1 (
        zero_of_bits 32 (check & req) (omega (arith, bit_and-le_left check req))
          λ i h. shared i (d i h))

-- `check_any` is the denial of `check_none`, but for the empty requirement, which passes both.
pub check_any-check_none :
    (check req : ℕ) → check_any check req ≡ (not (check_none check req) || (req == 0))
unfolding check_any check_none
check_any-check_none check req = refl

-- Among masks of 32 bits, what one mask covers, every mask that covers it covers too.
check_all_trans :
    (a b req : ℕ)
    → a < 2 ^ 32
    → b < 2 ^ 32
    → check_all a b ≡ true
    → check_all b req ≡ true
    → check_all a req ≡ true
check_all_trans a b req sa sb ab br =
    (check_all_iff a req sa).1
      λ i h r. (check_all_iff a b sa).0 ab i h ((check_all_iff b req sb).0 br i h r)

-- Of two masks of 32 bits, one restricted to the other covers no more than either of them does.
check_all-and :
    (a b req : ℕ)
    → a < 2 ^ 32
    → b < 2 ^ 32
    → check_all (a & b) req ≡ true
    → (check_all a req ≡ true) × (check_all b req ≡ true)
check_all-and a b req sa sb h = (
  (check_all_iff a req sa).1 λ i lt r. omega (arith, both i lt r, bit-le-one a i),
  (check_all_iff b req sb).1 λ i lt r. omega (arith, both i lt r, bit-le-one b i),
)
  where
    both : (i : ℕ) → i < 32 → bit req i ≡ 1 → min (bit a i) (bit b i) ≡ 1
    both i lt r = omega (
      arith,
      (check_all_iff (a & b) req (omega (arith, bit_and-le_left a b))).0 h i lt r,
      bit-bit_and a b i,
    )

-- What shares a bit with a mask shares one with a larger mask.
any_of_or : (check req more : ℕ) → check < 2 ^ 32 → (check & (req \/ more)) ≡ 0 → (check & req) ≡ 0
any_of_or check req more small e =
    zero_of_bits 32 (check & req) (omega (arith, bit_and-le_left check req)) λ i h. omega (
      arith,
      bit-bit_and check req i,
      bit-bit_and check (req \/ more) i,
      bit-bit_or req more i,
      bit_of_zero i (check & (req \/ more)) e,
      bit-le-one check i,
      bit-le-one req i,
      bit-le-one more i,
    )

pub check_any_or :
    (check req more : ℕ)
    → check < 2 ^ 32
    → 0 < req
    → check_any check req ≡ true
    → check_any check (req \/ more) ≡ true
unfolding check_any
check_any_or check req more small some_bit h = ground (arith, any_of_or check req more small)
