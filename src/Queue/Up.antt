-- ===== src/Queue/Up.antt =====
-- `sift_up` and `insert_command` (libs/server/local-include/execute-queue.hpp) keep a heap.
use native.Mathlib.Decide.{ℕ_discrete}
use rservr.Base.{
  ℕ, zero, suc, ◌+◌, ◌-◌, ◌/◌, ◌<◌, ◌≤◌, ◌≡◌, ◌≢◌, ◌∙◌, sym, refl, ap, subst, inl, inr, List, [],
  ◌∷◌, ◌++◌, Bool, true, false, some, if◌then◌else◌, length, count, count-append_one, length-append,
  arith, ◌==◌, Bool-cases, if-false,
}
use rservr.Queue.{order, get_element, switch_elements, compares, sift_up, insert_command}
use rservr.Queue.Arrays.{some_inj, get_in, in_of_get, get-switch, count-switch, get-append_left}

module _ {A : Type 0} (before : A → A → Bool) where
  -- No element goes strictly before its parent.
  abbrev pub IsHeap : List A → Type 0
  IsHeap l =
      (i : ℕ) (a b : A)
      → 0 < i
      → get_element l ((i - 1) / order) ≡ some a
      → get_element l i ≡ some b
      → before a b ≡ true

  -- The same for all positions but one.
  abbrev IsHeapBut : ℕ → List A → Type 0
  IsHeapBut k l =
      (i : ℕ) (a b : A)
      → 0 < i
      → i ≢ k
      → get_element l ((i - 1) / order) ≡ some a
      → get_element l i ≡ some b
      → before a b ≡ true

  -- The parent of that position and its children are in order.
  abbrev pub IsBridged : ℕ → List A → Type 0
  IsBridged k l =
      (i : ℕ) (a b : A)
      → 0 < k
      → 0 < i
      → (i - 1) / order ≡ k
      → get_element l ((k - 1) / order) ≡ some a
      → get_element l i ≡ some b
      → before a b ≡ true

  abbrev pub IsTotal : Type 0
  IsTotal = (a b : A) → before a b ≡ false → before b a ≡ true

  abbrev pub IsTransitive : Type 0
  IsTransitive = (a b c : A) → before a b ≡ true → before b c ≡ true → before a c ≡ true

  module _ (total : IsTotal) (trans : IsTransitive) where
    module _ (l moved : List A) (k above : ℕ) (c p : A) (positive : 0 < k)
        (is_above : (k - 1) / order ≡ above) (at_k : get_element l k ≡ some c)
        (at_above : get_element l above ≡ some p) (wrong : before p c ≡ false)
        (heap : IsHeapBut k l) (bridged : IsBridged k l) (now_k : get_element moved k ≡ some p)
        (now_above : get_element moved above ≡ some c)
        (now_others : (i : ℕ) → i ≢ k → i ≢ above → get_element moved i ≡ get_element l i) where
      -- The order of an element other than the two with its parent, by what the parent is.
      below :
          (i : ℕ) (a b : A)
          → 0 < i
          → i ≢ k
          → get_element moved ((i - 1) / order) ≡ some a
          → get_element l i ≡ some b
          → before a b ≡ true
      below i a b pos ne parent here = elim (ℕ_discrete ((i - 1) / order) k) [
        | yes q ↦
            let is_p = some_inj p a (sym now_k ∙ (ap (get_element moved) (sym q) ∙ parent)) in
            subst (λ x. before x b ≡ true) is_p
              (bridged i p b positive pos q (ap (get_element l) is_above ∙ at_above) here)
        | no q ↦ elim (ℕ_discrete ((i - 1) / order) above) [
          | yes r ↦
              let is_c = some_inj c a (sym now_above ∙ (ap (get_element moved) (sym r) ∙ parent)) in
              subst (λ x. before x b ≡ true) is_c
                (trans c p b (total p c wrong)
                  (heap i p b pos ne (ap (get_element l) r ∙ at_above) here))
          | no r ↦ heap i a b pos ne (sym (now_others ((i - 1) / order) q r) ∙ parent) here
        ]
      ]

      moved_heap : IsHeapBut above moved
      moved_heap i a b pos ne parent here = elim (ℕ_discrete i k) [
        | yes q ↦
            let is_b = some_inj p b (sym now_k ∙ (ap (get_element moved) (sym q) ∙ here)) in
            let is_a = some_inj c a (
              sym now_above
              ∙ (ap (get_element moved) (sym is_above ∙ ap (λ n. (n - 1) / order) (sym q))
                  ∙ parent)) in
            subst (λ x. before x b ≡ true) is_a
              (subst (λ x. before c x ≡ true) is_b (total p c wrong))
        | no q ↦ below i a b pos q parent (sym (now_others i q ne) ∙ here)
      ]

      moved-IsBridged : IsBridged above moved
      moved-IsBridged i a b pos_above pos q parent here =
          let up = (above - 1) / order in
          let same_up : get_element l up ≡ some a =
            sym (now_others up (omega (arith, is_above, positive)) (omega (arith, pos_above)))
            ∙ parent in
          let over_p =
            heap above a p pos_above (omega (arith, is_above, positive)) same_up at_above in
          elim (ℕ_discrete i k) [
            | yes r ↦
                let is_b = some_inj p b (sym now_k ∙ (ap (get_element moved) (sym r) ∙ here)) in
                subst (λ x. before a x ≡ true) is_b over_p
            | no r ↦ trans a p b over_p (
                heap i p b pos r (ap (get_element l) q ∙ at_above)
                  (sym (now_others i r (omega (arith, q, pos))) ∙ here))
          ]

    pub compares_at :
        (l : List A) (i j : ℕ) (a b : A)
        → get_element l i ≡ some a
        → get_element l j ≡ some b
        → compares before l i j ≡ before a b
    unfolding compares
    compares_at l i j a b h k = rw (h, k)

    sift_up_step :
        (fuel k : ℕ) (l : List A)
        → 0 < k
        → compares before l ((k - 1) / order) k ≡ false
        → sift_up before (suc fuel) k l
          ≡ sift_up before fuel ((k - 1) / order) (switch_elements l k ((k - 1) / order))
    unfolding sift_up
    sift_up_step fuel k l pos wrong = rw wrong (if-false (k == 0) _ _ (ground arith))

    sift_up_stop :
        (fuel k : ℕ) (l : List A)
        → 0 < k
        → compares before l ((k - 1) / order) k ≡ true
        → sift_up before (suc fuel) k l ≡ l
    unfolding sift_up
    sift_up_stop fuel k l pos right = rw right (if-false (k == 0) _ _ (ground arith))

    sift_up_top : (fuel : ℕ) (l : List A) → sift_up before (suc fuel) 0 l ≡ l
    unfolding sift_up
    sift_up_top fuel l = refl

    whole :
        (l : List A) (k : ℕ)
        → IsHeapBut k l
        → ((a b : A)
            → 0 < k
            → get_element l ((k - 1) / order) ≡ some a
            → get_element l k ≡ some b
            → before a b ≡ true)
        → IsHeap l
    whole l k heap here i a b pos parent at_i = elim (ℕ_discrete i k) [
      | yes q ↦
          here a b (omega (arith, pos, q))
            (ap (λ n. get_element l ((n - 1) / order)) (sym q) ∙ parent)
            (ap (get_element l) (sym q) ∙ at_i)
      | no q ↦ heap i a b pos q parent at_i
    ]

    -- Sifting up repairs a heap whose order fails at one position at most.
    sift_up_repairs :
        (fuel k : ℕ) (l : List A)
        → k < fuel
        → k < length l
        → IsHeapBut k l
        → IsBridged k l
        → IsHeap (sift_up before fuel k l)
          × ((q : A → Bool) → count q (sift_up before fuel k l) ≡ count q l)
    sift_up_repairs zero k l h inside heap bridged = absurd (omega arith)
    sift_up_repairs (suc fuel) zero l h inside heap bridged =
        rw (sift_up_top fuel l)
          (whole l 0 heap (λ a b none_above. absurd (omega arith)), (λ q. refl))
    sift_up_repairs (suc fuel) (suc m) l h inside heap bridged =
        let k : ℕ = suc m in
        let above : ℕ = (k - 1) / order in
        let (c, at_k) = get_in l k inside in
        let (p, at_above) = get_in l above (omega (arith, inside)) in
        let order_at = compares_at l above k p c at_above at_k in
        elim (Bool-cases (before p c)) [
          | inl right ↦ rw (sift_up_stop fuel k l (omega arith) (order_at ∙ right)) (
            whole l k heap (λ a b pos ha hb.
                subst (λ x. before x b ≡ true) (some_inj p a (sym at_above ∙ ha))
                  (subst (λ x. before p x ≡ true) (some_inj c b (sym at_k ∙ hb)) right)),
            (λ q. refl),
          )
          | inr wrong ↦
              let moved = switch_elements l k above in
              let ne : k ≢ above = λ e. omega (arith, e) in
              let (now_k, now_above, others, size) = get-switch l k above c p ne at_k at_above in
              let (repaired, same) =
                sift_up_repairs fuel above moved (omega (arith, h)) (omega (arith, size, inside))
                  (moved_heap l moved k above c p (omega arith) refl at_k at_above wrong heap
                    bridged now_k now_above others)
                  (moved-IsBridged l moved k above c p (omega arith) refl at_k at_above wrong heap
                    bridged now_k now_above others) in
              rw (sift_up_step fuel k l (omega arith) (order_at ∙ wrong))
                (repaired, (λ q. same q ∙ count-switch q l k above c p ne at_k at_above))
        ]

    -- Inserting a command into a heap gives a heap that holds the same commands and the new one,
    -- if the comparison is total and transitive.
    pub insert_command-IsHeap :
        (a : A) (l : List A)
        → IsHeap l
        → IsHeap (insert_command before a l)
          × ((q : A → Bool)
              → count q (insert_command before a l) ≡ count q l + (if q a then 1 else 0))
    unfolding insert_command
    insert_command-IsHeap a l heap =
        let longer : List A = l ++ (a ∷ []) in
        let size = length-append l (a ∷ []) in
        let inside : (i : ℕ) (b : A) → get_element longer i ≡ some b → i ≤ length l =
          λ i b h. omega (arith, in_of_get longer i b h, size) in
        let (repaired, same) =
          sift_up_repairs (suc (length l)) (length l) longer (omega arith) (omega (arith, size))
            (λ i x y pos ne parent here.
              heap i x y pos
                (sym (
                    get-append_left l (a ∷ []) ((i - 1) / order)
                      (omega (arith, inside i y here, ne, pos)))
                  ∙ parent)
                (sym (get-append_left l (a ∷ []) i (omega (arith, inside i y here, ne))) ∙ here))
            (λ i x y pos_k pos q parent here. absurd (omega (arith, inside i y here, q, pos))) in
        (repaired, (λ q. same q ∙ count-append_one q l a))
