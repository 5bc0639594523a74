-- ===== src/Queue/Down.antt =====
-- `sift_down` (libs/server/local-include/execute-queue.hpp) repairs a heap from above.
use native.Mathlib.Decide.{ℕ_discrete}
use rservr.Base.{
  ℕ, zero, suc, ◌+◌, ◌-◌, ◌*◌, ◌/◌, ◌<◌, ◌≤◌, ◌≡◌, ◌≢◌, ◌∙◌, sym, refl, ap, subst, inl, inr, List,
  Bool, true, false, none, some, length, count, arith, ltb, Bool-cases, Option-cases, if-true,
  if-false,
}
use rservr.Queue.{order, get_element, switch_elements, compares, greatest_child, sift_down}
use rservr.Queue.Arrays.{some_inj, get_in, in_of_get, get-switch, count-switch}
use rservr.Queue.Best.{Scanned, greatest_child_scans}
use rservr.Queue.Up.{IsHeap, IsBridged, IsTotal, IsTransitive, compares_at}

module _ {A : Type 0} (before : A → A → Bool) where
  -- In order but for the children of one position.
  abbrev pub IsHeapAbove : ℕ → List A → Type 0
  IsHeapAbove k l =
      (i : ℕ) (a b : A)
      → 0 < i
      → (i - 1) / order ≢ k
      → get_element l ((i - 1) / order) ≡ some a
      → get_element l i ≡ some b
      → before a b ≡ true

  module _ (l moved : List A) (k child : ℕ) (c p : A) (positive : 0 < child)
      (is_child : (child - 1) / order ≡ k) (at_k : get_element l k ≡ some p)
      (at_child : get_element l child ≡ some c) (best : before c p ≡ true)
      (siblings : (i : ℕ) (b : A)
        → 0 < i
        → (i - 1) / order ≡ k
        → get_element l i ≡ some b
        → before c b ≡ true)
      (heap : IsHeapAbove k l) (bridged : IsBridged before k l)
      (now_k : get_element moved k ≡ some c) (now_child : get_element moved child ≡ some p)
      (now_others : (i : ℕ) → i ≢ k → i ≢ child → get_element moved i ≡ get_element l i) where
    under_k :
        (i : ℕ) (b : A)
        → 0 < i
        → (i - 1) / order ≡ k
        → get_element moved i ≡ some b
        → before c b ≡ true
    under_k i b pos q here = elim (ℕ_discrete i child) [
      | yes r ↦
          subst (λ x. before c x ≡ true)
            (some_inj p b (sym now_child ∙ (ap (get_element moved) (sym r) ∙ here))) best
      | no r ↦ siblings i b pos q (sym (now_others i (omega (arith, pos, q)) r) ∙ here)
    ]

    over_k :
        (i : ℕ) (a b : A)
        → 0 < i
        → (i - 1) / order ≢ k
        → get_element l ((i - 1) / order) ≡ some a
        → get_element moved i ≡ some b
        → before a b ≡ true
    over_k i a b pos q parent here = elim (ℕ_discrete i k) [
      | yes r ↦
          subst (λ x. before a x ≡ true)
            (some_inj c b (sym now_k ∙ (ap (get_element moved) (sym r) ∙ here)))
            (bridged child a c (omega (arith, pos, r)) positive is_child
              (ap (λ n. get_element l ((n - 1) / order)) (sym r) ∙ parent) at_child)
      | no r ↦
          heap i a b pos q parent
            (sym (now_others i r (λ e. q (ap (λ n. (n - 1) / order) e ∙ is_child))) ∙ here)
    ]

    moved_above : IsHeapAbove child moved
    moved_above i a b pos q parent here = elim (ℕ_discrete ((i - 1) / order) k) [
      | yes r ↦
          subst (λ x. before x b ≡ true)
            (some_inj c a (sym now_k ∙ (ap (get_element moved) (sym r) ∙ parent)))
            (under_k i b pos r here)
      | no r ↦ over_k i a b pos r (sym (now_others ((i - 1) / order) r q) ∙ parent) here
    ]

    moved-IsBridged : IsBridged before child moved
    moved-IsBridged i a b pos_child pos q parent here =
        subst (λ x. before x b ≡ true)
          (some_inj c a (sym now_k ∙ (ap (get_element moved) (sym is_child) ∙ parent)))
          (heap i c b pos (omega (arith, q, is_child, positive)) (ap (get_element l) q ∙ at_child) (
            sym (now_others i (omega (arith, q, is_child, positive, pos)) (omega (arith, q, pos)))
            ∙ here))

  module _ (total : IsTotal before) (trans : IsTransitive before) where
    whole :
        (l : List A) (k : ℕ)
        → IsHeapAbove k l
        → ((i : ℕ) (a b : A)
            → 0 < i
            → (i - 1) / order ≡ k
            → get_element l k ≡ some a
            → get_element l i ≡ some b
            → before a b ≡ true)
        → IsHeap before l
    whole l k heap children i a b pos parent here = elim (ℕ_discrete ((i - 1) / order) k) [
      | yes q ↦ children i a b pos q (ap (get_element l) (sym q) ∙ parent) here
      | no q ↦ heap i a b pos q parent here
    ]

    -- Comparisons of positions are those of the elements.
    of_order :
        (l : List A) (i j : ℕ) (a b : A)
        → get_element l i ≡ some a
        → get_element l j ≡ some b
        → compares before l i j ≡ true
        → before a b ≡ true
    of_order l i j a b h k o = sym (compares_at before total trans l i j a b h k) ∙ o

    place_total :
        (l : List A) (i j : ℕ)
        → i < length l
        → j < length l
        → compares before l i j ≡ false
        → compares before l j i ≡ true
    place_total l i j hi hj wrong =
        let (a, at_i) = get_in l i hi in
        let (b, at_j) = get_in l j hj in
        compares_at before total trans l j i b a at_j at_i
        ∙ total a b (sym (compares_at before total trans l i j a b at_i at_j) ∙ wrong)

    held :
        (l : List A) (i j : ℕ)
        → compares before l i j ≡ true
        → (a b : A) × (get_element l i ≡ some a) × (get_element l j ≡ some b) × (before a b ≡ true)
    unfolding compares
    held l i j h = elim (Option-cases (get_element l i)) [
      | inl e ↦ absurd (cc (rw (e, compares) at h))
      | inr (a, e) ↦ elim (Option-cases (get_element l j)) [
        | inl f ↦ absurd (cc (rw (e, f, compares) at h))
        | inr (b, f) ↦ (a, b, e, f, sym (compares_at before total trans l i j a b e f) ∙ h)
      ]
    ]

    place_trans :
        (l : List A) (i j m : ℕ)
        → compares before l i j ≡ true
        → compares before l j m ≡ true
        → compares before l i m ≡ true
    place_trans l i j m h k =
        let (a, b, at_i, at_j, ab) = held l i j h in
        let (b2, c, at_j2, at_m, bc) = held l j m k in
        compares_at before total trans l i m a c at_i at_m
        ∙ trans a b c ab (subst (λ x. before x c ≡ true) (some_inj b2 b (sym at_j2 ∙ at_j)) bc)

    sift_down_end :
        (fuel k : ℕ) (l : List A)
        → ltb k (length l - 1) ≡ false
        → sift_down before (suc fuel) k l ≡ l
    unfolding sift_down
    sift_down_end fuel k l h = if-false _ _ _ h

    sift_down_stop :
        (fuel k : ℕ) (l : List A)
        → ltb k (length l - 1) ≡ true
        → greatest_child before l k order (k * order + 1) none ≡ none
        → sift_down before (suc fuel) k l ≡ l
    unfolding sift_down
    sift_down_stop fuel k l h e = if-true _ _ _ h ∙ rw e

    sift_down_step :
        (fuel k child : ℕ) (l : List A)
        → ltb k (length l - 1) ≡ true
        → greatest_child before l k order (k * order + 1) none ≡ some child
        → sift_down before (suc fuel) k l ≡ sift_down before fuel child (switch_elements l child k)
    unfolding sift_down
    sift_down_step fuel k child l h e = if-true _ _ _ h ∙ rw e

    no_children :
        (l : List A) (k : ℕ)
        → k < length l
        → ltb k (length l - 1) ≡ false
        → IsHeapAbove k l
        → IsHeap before l
    no_children l k inside end heap =
        whole l k heap (λ i a b pos q parent here.
          absurd (omega (arith, in_of_get l i b here, pos, q, last end)))
      where
        last : ltb k (length l - 1) ≡ false → length l ≤ k + 1
        last h = ground arith

    -- Sifting down repairs a heap whose order fails below one position at most.
    pub sift_down_repairs :
        (fuel k : ℕ) (l : List A)
        → length l ≤ k + fuel
        → k < length l
        → IsHeapAbove k l
        → IsBridged before k l
        → IsHeap before (sift_down before fuel k l)
          × ((q : A → Bool) → count q (sift_down before fuel k l) ≡ count q l)
    sift_down_repairs zero k l h inside heap bridged = absurd (omega arith)
    sift_down_repairs (suc fuel) k l h inside heap bridged =
        elim (Bool-cases (ltb k (length l - 1))) [
          | inr end ↦ rw (sift_down_end fuel k l end) (no_children l k inside end heap, (λ q. refl))
          | inl goes ↦
              let first : ℕ = k * order + 1 in
              let scanned =
                greatest_child_scans before l k (place_total l) (place_trans l) inside first order
                  first none (omega arith) (λ j from lt. absurd (omega arith)) in
              elim (Option-cases (greatest_child before l k order first none)) [
                | inl e ↦
                    let all : Scanned before l k first (first + order) none =
                      subst (Scanned before l k first (first + order)) e scanned in
                    rw (sift_down_stop fuel k l goes e) (
                      whole l k heap (λ i a b pos q parent here. of_order l k i a b parent here (
                          all i (omega (arith, q, pos)) (omega (arith, q, pos))
                            (in_of_get l i b here))),
                      (λ q. refl),
                    )
                | inr (child, e) ↦
                    let found : Scanned before l k first (first + order) (some child) =
                      subst (Scanned before l k first (first + order)) e scanned in
                    let (from, lt, child_in, best, all) = found in
                    let (p, at_k) = get_in l k inside in
                    let (c, at_child) = get_in l child child_in in
                    let is_child : (child - 1) / order ≡ k = omega (arith, from, lt) in
                    let positive : 0 < child = omega (arith, from) in
                    let ne : child ≢ k = λ r. omega (arith, r, from) in
                    let moved = switch_elements l child k in
                    let (now_child, now_k, others, size) =
                      get-switch l child k c p ne at_child at_k in
                    let better = of_order l child k c p at_child at_k best in
                    let flipped : (i : ℕ)
                        → i ≢ k
                        → i ≢ child
                        → get_element moved i ≡ get_element l i =
                      λ i r t. others i t r in
                    let siblings : (i : ℕ) (b : A)
                        → 0 < i
                        → (i - 1) / order ≡ k
                        → get_element l i ≡ some b
                        → before c b ≡ true =
                      λ i b pos q here. of_order l child i c b at_child here (
                        all i (omega (arith, q, pos)) (omega (arith, q, pos))
                          (in_of_get l i b here)) in
                    let (repaired, same) =
                      sift_down_repairs fuel child moved (omega (arith, h, from, size))
                        (omega (arith, size, child_in))
                        (moved_above l moved k child c p positive is_child at_k at_child better
                          siblings heap bridged now_k now_child flipped)
                        (moved-IsBridged l moved k child c p positive is_child at_k at_child better
                          siblings heap bridged now_k now_child flipped) in
                    rw (sift_down_step fuel k child l goes e)
                      (repaired, (λ q. same q ∙ count-switch q l child k c p ne at_child at_k))
              ]
        ]
