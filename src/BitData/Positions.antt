-- ===== src/BitData/Positions.antt =====
-- `find_set_bits` finds the positions of a mask, lowest first.
use native.Mathlib.Nat.{pow-suc, pow-le-pow_right}
use native.Mathlib.Decide.{ℕ_discrete}
use mathlib.Core.List.{append-nil, append_assoc}
use rservr.Base.{
  ℕ, zero, suc, ◌+◌, ◌-◌, ◌/◌, ◌%◌, ◌^◌, ◌≤◌, ◌<◌, min, ◌≡◌, ◌≢◌, ◌∙◌, sym, refl, ap, inl, inr,
  List, [], ◌∷◌, ◌++◌, false, none, some, ◌==◌, ==_iff, leb, if◌then◌else◌, length, Bool-cases,
  Option-cases, if-cases, if-false, arith,
}
use rservr.Flags.Bits.{bit, bit-le-one, bit-zero, bit-bit_and, bit-complement}
use rservr.BitData.{bits_of_set, next_bit, find_next_bit, unset_bit, set_bits_loop, find_set_bits}

-- The positions of the bits of a mask from `i` on, over `n` places.
unfoldable pub positions : ℕ → ℕ → ℕ → List ℕ
positions mask zero i = []
positions mask (suc n) i =
    if bit mask i == 1 then i ∷ positions mask n (i + 1) else positions mask n (i + 1)

pub bit-pow : (b j : ℕ) → bit (2 ^ b) j ≡ (if j == b then 1 else 0)
unfolding bit
bit-pow zero zero = refl
bit-pow zero (suc j) = bit-zero j ∙ ground arith
bit-pow (suc b) zero =
    let even : 2 ^ suc b % 2 ≡ 0 = omega (arith, pow-suc 2 b) in ground (arith, even)
bit-pow (suc b) (suc j) =
    ap (λ m. bit m j) (omega (arith, pow-suc 2 b)) ∙ (bit-pow b j ∙ ground arith)

small_pow : (b : ℕ) → b < 64 → 2 ^ b < 2 ^ 64
small_pow b h =
    let under : 2 ^ b ≤ 2 ^ 63 = pow-le-pow_right (omega arith) {j = 63} (omega (arith, h)) in
    omega (arith, under)

bit-unset_bit :
    (mask b j : ℕ) → b < 64 → j < 64 → bit (unset_bit mask b) j ≡ (if j == b then 0 else bit mask j)
unfolding unset_bit
bit-unset_bit mask b j small here =
    if-cases (λ r. bit r j ≡ (if j == b then 0 else bit mask j)) (leb bits_of_set b) _ _
      (λ e. absurd (ground arith))
      (λ e.
        bit-bit_and mask (2 ^ 64 - 1 - 2 ^ b) j
        ∙ (ap (min (bit mask j))
              (bit-complement 64 (2 ^ b) j here (small_pow b small) ∙ ap (λ n. 1 - n) (bit-pow b j))
            ∙ ground (arith, bit-le-one mask j)))

positions_cong :
    (mask other n i : ℕ)
    → ((j : ℕ) → i ≤ j → j < i + n → bit mask j ≡ bit other j)
    → positions mask n i ≡ positions other n i
unfolding positions
positions_cong mask other zero i same = refl
positions_cong mask other (suc n) i same = ground (
  arith,
  same i (omega arith) (omega arith),
  positions_cong mask other n (i + 1)
      (λ j above below. same j (omega (arith, above)) (omega (arith, below))),
)

positions_none :
    (mask n i : ℕ) → ((j : ℕ) → i ≤ j → j < i + n → bit mask j ≡ 0) → positions mask n i ≡ []
unfolding positions
positions_none mask zero i same = refl
positions_none mask (suc n) i same = ground (
  arith,
  same i (omega arith) (omega arith),
  positions_none mask n (i + 1)
      (λ j above below. same j (omega (arith, above)) (omega (arith, below))),
)

unset_others : (mask p j : ℕ) → p < 64 → j ≢ p → j < 64 → bit mask j ≡ bit (unset_bit mask p) j
unset_others mask p j small ne here = ground (arith, bit-unset_bit mask p j small here, ne)

-- The lowest bit comes first.
positions_first :
    (mask p n i : ℕ)
    → i ≤ p
    → p < i + n
    → i + n ≤ 64
    → bit mask p ≡ 1
    → ((j : ℕ) → i ≤ j → j < p → bit mask j ≡ 0)
    → positions mask n i ≡ p ∷ positions (unset_bit mask p) n i
unfolding positions
positions_first mask p zero i above below room here lower = absurd (omega arith)
positions_first mask p (suc n) i above below room here lower = elim (ℕ_discrete i p) [
  | yes e ↦ ground (
    arith,
    ap (bit mask) e,
    bit-unset_bit mask p i (omega arith) (omega arith),
    positions_cong mask (unset_bit mask p) n (i + 1) (λ j over under.
        unset_others mask p j (omega arith) (λ same. omega (arith, same, over, e))
          (omega (arith, under))),
    e,
  )
  | no ne ↦ ground (
    arith,
    lower i (omega arith) (omega (arith, ne)),
    unset_others mask p i (omega arith) ne (omega arith),
    positions_first mask p n (i + 1) (omega (arith, ne)) (omega arith) (omega arith) here
        (λ j over under. lower j (omega (arith, over)) under),
  )
]

-- What the search for a bit finds.
next_bit-some :
    (fuel k mask p : ℕ)
    → next_bit fuel k mask ≡ some p
    → (q : ℕ) × (p ≡ k + q) × (q < fuel) × (bit mask q ≡ 1) × ((j : ℕ) → j < q → bit mask j ≡ 0)
unfolding next_bit bit
next_bit-some zero k mask p h = cc
next_bit-some (suc fuel) k mask p h = elim (Bool-cases (mask % 2 == 1)) [
  | inl odd ↦ (
    0,
    ground (arith, h, odd),
    omega arith,
    ground (arith, odd),
    (λ j lt. absurd (omega (arith, lt))),
  )
  | inr even ↦
      let (q, is_p, small, here, lower) =
        next_bit-some fuel (k + 1) (mask / 2) p (ground (arith, h, even)) in
      (suc q, omega (arith, is_p), omega (arith, small), here, below q even lower)
]
  where
    below :
        (q : ℕ)
        → (mask % 2 == 1) ≡ false
        → ((j : ℕ) → j < q → bit (mask / 2) j ≡ 0)
        → (j : ℕ) → j < suc q
        → bit mask j ≡ 0
    below q even lower zero lt = ground (arith, even)
    below q even lower (suc j) lt = lower j (omega (arith, lt))

next_bit-none :
    (fuel k mask : ℕ) → next_bit fuel k mask ≡ none → (j : ℕ) → j < fuel → bit mask j ≡ 0
unfolding next_bit bit
next_bit-none zero k mask h j lt = absurd (omega (arith, lt))
next_bit-none (suc fuel) k mask h j lt = elim (Bool-cases (mask % 2 == 1)) [
  | inl odd ↦ absurd (ground (arith, h, odd))
  | inr even ↦ below j even (next_bit-none fuel (k + 1) (mask / 2) (ground (arith, h, even))) lt
]
  where
    below :
        (j : ℕ)
        → (mask % 2 == 1) ≡ false
        → ((j : ℕ) → j < fuel → bit (mask / 2) j ≡ 0)
        → j < suc fuel
        → bit mask j ≡ 0
    below zero even lower lt = ground (arith, even)
    below (suc j) even lower lt = lower j (omega (arith, lt))

length-positions : (mask n i : ℕ) → length (positions mask n i) ≤ n
unfolding positions
length-positions mask zero i = omega arith
length-positions mask (suc n) i = ground (arith, length-positions mask n (i + 1))

-- What one round of the loop finds.
found_none : (mask : ℕ) → find_next_bit mask ≡ none → positions mask 64 0 ≡ []
unfolding find_next_bit
found_none mask h = elim (Bool-cases (mask == 0)) [
  | inl e ↦
      positions_none mask 64 0
        (λ j above below. ap (λ m. bit m j) ((==_iff mask 0).0 e) ∙ bit-zero j)
  | inr e ↦ positions_none mask 64 0 (λ j above below.
      next_bit-none 64 0 mask (sym (if-false (mask == 0) none (next_bit 64 0 mask) e) ∙ h) j
        (omega (arith, below)))
]

found_some :
    (mask p : ℕ)
    → find_next_bit mask ≡ some p
    → positions mask 64 0 ≡ p ∷ positions (unset_bit mask p) 64 0
unfolding find_next_bit
found_some mask p h = elim (Bool-cases (mask == 0)) [
  | inl e ↦ absurd (ground (arith, h, e))
  | inr e ↦
      let (q, is_p, small, here, lower) =
        next_bit-some 64 0 mask p (sym (if-false (mask == 0) none (next_bit 64 0 mask) e) ∙ h) in
      let same : p ≡ q = omega (arith, is_p) in
      positions_first mask p 64 0 (omega arith) (omega (arith, same, small)) (omega arith)
        (ap (bit mask) same ∙ here) (λ j above below. lower j (omega (arith, below, same)))
]

loop_finds :
    (fuel mask : ℕ) (found : List ℕ)
    → length (positions mask 64 0) < fuel
    → set_bits_loop fuel mask found ≡ found ++ positions mask 64 0
unfolding set_bits_loop
loop_finds zero mask found room = absurd (omega arith)
loop_finds (suc fuel) mask found room = elim (Option-cases (find_next_bit mask)) [
  | inl e ↦
      rw (e, set_bits_loop)
        (sym (append-nil found) ∙ ap (λ l. found ++ l) (sym (found_none mask e)))
  | inr (p, e) ↦
      let first = found_some mask p e in
      rw (e, set_bits_loop)
        (loop_finds fuel (unset_bit mask p) (found ++ (p ∷ []))
            (omega (arith, ap length first, room))
          ∙ (append_assoc found (p ∷ []) (positions (unset_bit mask p) 64 0)
              ∙ ap (λ l. found ++ l) (sym first)))
]

-- The loop that takes the lowest bit, sets it to 0 and starts again ends after 65 rounds at most,
-- with the numbers of all bits of the mask, lowest first, added to the list.
pub find_set_bits-positions :
    (mask : ℕ) (found : List ℕ) → find_set_bits mask found ≡ found ++ positions mask 64 0
unfolding find_set_bits
find_set_bits-positions mask found =
    loop_finds 65 mask found (omega (arith, length-positions mask 64 0))
