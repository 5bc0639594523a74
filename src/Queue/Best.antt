-- ===== src/Queue/Best.antt =====
-- The inner loop of `sift_down` (libs/server/local-include/execute-queue.hpp) finds a child that
-- goes before all of its siblings.
use rservr.Base.{
  ℕ, zero, suc, ◌+◌, ◌<◌, ◌≤◌, ◌≡◌, inl, inr, List, Bool, true, false, Option, none, some, length,
  arith, ltb, Bool-cases, if-cases, subst,
}
use native.Mathlib.Decide.{dec_lt}
use rservr.Queue.{compares, best_child, greatest_child}

module _ {A : Type 0} (before : A → A → Bool) (l : List A) (k : ℕ) where
  -- The element at one position does not go after the one at another.
  abbrev pub InOrder : ℕ → ℕ → Type 0
  InOrder i j = compares before l i j ≡ true

  -- What is known of the children from `first` on, before `child`.
  abbrev pub Scanned : ℕ → ℕ → Option ℕ → Type 0
  Scanned first child none = (j : ℕ) → first ≤ j → j < child → j < length l → InOrder k j
  Scanned first child (some best) =
      (first ≤ best)
      × (best < child)
      × (best < length l)
      × InOrder best k
      × ((j : ℕ) → first ≤ j → j < child → j < length l → InOrder best j)

  module _
      (total : (i j : ℕ)
        → i < length l
        → j < length l
        → compares before l i j ≡ false
        → InOrder j i)
      (trans : (i j m : ℕ) → InOrder i j → InOrder j m → InOrder i m) (inside : k < length l) where
    same_place : (i : ℕ) → i < length l → InOrder i i
    same_place i h = elim (Bool-cases (compares before l i i)) [
      | inl e ↦ e
      | inr e ↦ total i i h h e
    ]

    -- One position more.
    extend :
        (x first child : ℕ)
        → ((j : ℕ) → first ≤ j → j < child → j < length l → InOrder x j)
        → InOrder x child
        → (j : ℕ) → first ≤ j
        → j < child + 1
        → j < length l
        → InOrder x j
    extend x first child so_far last j from lt in_l = elim (dec_lt j child) [
      | yes p ↦ so_far j from p in_l
      | no p ↦ subst (InOrder x) (omega arith) last
    ]

    extends_scan :
        (first child : ℕ) (greatest : Option ℕ)
        → first ≤ child
        → child < length l
        → Scanned first child greatest
        → Scanned first (child + 1) (best_child before l k child greatest)
    unfolding best_child
    extends_scan first child none from here so_far = elim (Bool-cases (compares before l child k)) [
      | inl e ↦ rw e (
        from,
        omega arith,
        here,
        e,
        extend child first child (λ j f lt in_l. trans child k j e (so_far j f lt in_l))
            (same_place child here),
      )
      | inr e ↦ rw e (extend k first child so_far (total child k here inside e))
    ]
    extends_scan first child (some best) from here (f1, lt, best_in, best_k, so_far) =
        elim (Bool-cases (compares before l child best)) [
          | inl e ↦ rw e (
            from,
            omega arith,
            here,
            trans child best k e best_k,
            extend child first child (λ j f lt in_l. trans child best j e (so_far j f lt in_l))
                (same_place child here),
          )
          | inr e ↦ rw e (
            f1,
            omega (arith, lt),
            best_in,
            best_k,
            extend best first child so_far (total child best here best_in e),
          )
        ]

    -- Beyond the end of the array nothing is left to scan.
    ends_scan :
        (first child more : ℕ) (greatest : Option ℕ)
        → length l ≤ child
        → child ≤ more
        → Scanned first child greatest
        → Scanned first more greatest
    ends_scan first child more none end later so_far =
        λ j f lt in_l. so_far j f (omega (arith, in_l, end)) in_l
    ends_scan first child more (some best) end later (f1, lt, best_in, best_k, so_far) = (
      f1,
      omega (arith, lt, later),
      best_in,
      best_k,
      λ j f lt2 in_l. so_far j f (omega (arith, in_l, end)) in_l,
    )

    pub greatest_child_scans :
        (first rounds child : ℕ) (greatest : Option ℕ)
        → first ≤ child
        → Scanned first child greatest
        → Scanned first (child + rounds) (greatest_child before l k rounds child greatest)
    unfolding greatest_child
    greatest_child_scans first zero child greatest from so_far =
        subst (λ n. Scanned first n greatest) (omega arith) so_far
    greatest_child_scans first (suc rounds) child greatest from so_far =
        if-cases (λ o. Scanned first (child + suc rounds) o) (ltb child (length l)) _ _
          (λ e.
            let next = best_child before l k child greatest in
            let shift : child + 1 + rounds ≡ child + suc rounds = omega arith in
            subst (λ n. Scanned first n (greatest_child before l k rounds (child + 1) next)) shift
              (greatest_child_scans first rounds (child + 1) (best_child before l k child greatest)
                (omega (arith, from))
                (extends_scan first child greatest from (ground arith) so_far)))
          (λ e.
            ends_scan first child (child + suc rounds) greatest (ground arith) (omega arith) so_far)
