-- ===== src/Queue/Lengths.antt =====
-- How many commands wait, and which after an insertion, whatever the comparison.
use rservr.Base.{
  ℕ, zero, suc, ◌+◌, ◌-◌, ◌*◌, ◌/◌, ◌≤◌, ◌≡◌, ◌∙◌, refl, ap, inl, inr, List, [], ◌∷◌, ◌++◌, Bool,
  not, Option, none, some, ltb, ◌==◌, if-cases, Option-cases, length, length-append, arith, count,
  count-append_one, if◌then◌else◌, ◌≢◌, ◌⊎◌,
}
use rservr.Queue.{
  order, get_element, set_element, exchange, switch_elements, compares, sift_up, greatest_child,
  sift_down, insert_command, without_last, settle_top, transfer_top_command, take_commands,
}
use rservr.Queue.Arrays.{length-set, count-switch}
use rservr.Queue.Top.{length-without_last}

module _ {A : Type 0} where
  length-exchange : (l : List A) (i j : ℕ) (a b : Option A) → length (exchange l i j a b) ≡ length l
  unfolding exchange
  length-exchange l i j (some a) (some b) = length-set (set_element l j a) i b ∙ length-set l j a
  length-exchange l i j (some a) none = refl
  length-exchange l i j none b = refl

  length-switch_elements : (l : List A) (i j : ℕ) → length (switch_elements l i j) ≡ length l
  unfolding switch_elements
  length-switch_elements l i j = length-exchange l i j (get_element l i) (get_element l j)

  exchange-none : (l : List A) (i j : ℕ) (a : Option A) → exchange l i j a none ≡ l
  unfolding exchange
  exchange-none l i j none = refl
  exchange-none l i j (some a) = refl

  switch_elements-none :
      (l : List A) (i j : ℕ)
      → (get_element l i ≡ none) ⊎ (get_element l j ≡ none)
      → switch_elements l i j ≡ l
  unfolding switch_elements exchange
  switch_elements-none l i j (inl e) = ap (λ o. exchange l i j o (get_element l j)) e
  switch_elements-none l i j (inr e) =
      ap (exchange l i j (get_element l i)) e ∙ exchange-none l i j (get_element l i)

  count-switch_elements :
      (q : A → Bool) (l : List A) (i j : ℕ) → i ≢ j → count q (switch_elements l i j) ≡ count q l
  count-switch_elements q l i j ne = elim (Option-cases (get_element l i)) [
    | inl e ↦ ap (count q) (switch_elements-none l i j (inl e))
    | inr (a, e) ↦ elim (Option-cases (get_element l j)) [
      | inl f ↦ ap (count q) (switch_elements-none l i j (inr f))
      | inr (b, f) ↦ count-switch q l i j a b ne e f
    ]
  ]

  module _ (before : A → A → Bool) where
    count-sift_up :
        (q : A → Bool) (fuel current : ℕ) (l : List A)
        → count q (sift_up before fuel current l) ≡ count q l
    unfolding sift_up
    count-sift_up q zero current l = refl
    count-sift_up q (suc fuel) current l =
        let parent = (current - 1) / order in
        if-cases (λ (r : List A). count q r ≡ count q l) (current == 0) _ _ (λ e. refl)
          (λ e.
            if-cases (λ (r : List A). count q r ≡ count q l)
              (not (compares before l parent current)) _ _
              (λ f.
                count-sift_up q fuel parent (switch_elements l current parent)
                ∙ count-switch_elements q l current parent (λ same. ground (arith, e, same)))
              (λ f. refl))

    pub count-insert_command :
        (q : A → Bool) (a : A) (l : List A)
        → count q (insert_command before a l) ≡ count q l + (if q a then 1 else 0)
    unfolding insert_command
    count-insert_command q a l =
        count-sift_up q (suc (length l)) (length l) (l ++ (a ∷ [])) ∙ count-append_one q l a

    length-sift_up :
        (fuel current : ℕ) (l : List A) → length (sift_up before fuel current l) ≡ length l
    unfolding sift_up
    length-sift_up zero current l = refl
    length-sift_up (suc fuel) current l =
        let parent = (current - 1) / order in
        if-cases (λ (r : List A). length r ≡ length l) (current == 0) _ _ (λ e. refl)
          (λ e.
            if-cases (λ (r : List A). length r ≡ length l) (not (compares before l parent current))
              _ _
              (λ f.
                length-sift_up fuel parent (switch_elements l current parent)
                ∙ length-switch_elements l current parent)
              (λ f. refl))

    length-down :
        (fuel current : ℕ) (l : List A) (o : Option ℕ)
        → ((child : ℕ) (k : List A) → length (sift_down before fuel child k) ≡ length k)
        → length (elim o as (λ x. List A) [
          | none ↦ l
          | some child ↦ sift_down before fuel child (switch_elements l child current)
        ])
          ≡ length l
    length-down fuel current l none smaller = refl
    length-down fuel current l (some child) smaller =
        smaller child (switch_elements l child current) ∙ length-switch_elements l child current

    length-sift_down :
        (fuel current : ℕ) (l : List A) → length (sift_down before fuel current l) ≡ length l
    unfolding sift_down
    length-sift_down zero current l = refl
    length-sift_down (suc fuel) current l =
        if-cases (λ (r : List A). length r ≡ length l) (ltb current (length l - 1)) _ _
          (λ e.
            length-down fuel current l
              (greatest_child before l current order (current * order + 1) none)
              (λ child k. length-sift_down fuel child k))
          (λ e. refl)

    pub length-insert_command :
        (a : A) (l : List A) → length (insert_command before a l) ≡ length l + 1
    unfolding insert_command
    length-insert_command a l =
        length-sift_up (suc (length l)) (length l) (l ++ (a ∷ [])) ∙ length-append l (a ∷ [])

    length-settle_top : (l : List A) → length (settle_top before l) ≡ length l
    unfolding settle_top
    length-settle_top l =
        if-cases (λ (r : List A). length r ≡ length l) (ltb 1 (length l)) _ _
          (λ e. length-sift_down (length l) 0 l) (λ e. refl)

    length-take_top :
        (l : List A) (top : A) (left : List A)
        → transfer_top_command before l ≡ some (top, left)
        → length left ≤ length l
    unfolding transfer_top_command
    length-take_top [] top left h = cc
    length-take_top (x ∷ rest) top left h =
        let shown : settle_top before (without_last (switch_elements (x ∷ rest) 0 (length rest)))
            ≡ left =
          ap (λ (o : Option (A × List A)). elim o [ none ↦ left | some r ↦ r.1 ]) h in
        omega (
          arith,
          ap length shown,
          length-settle_top (without_last (switch_elements (x ∷ rest) 0 (length rest))),
          length-without_last (switch_elements (x ∷ rest) 0 (length rest)),
          length-switch_elements (x ∷ rest) 0 (length rest),
        )

    pub length-take_commands :
        (size : ℕ) (l cache : List A) → length (take_commands before size l cache).0 ≤ length l
    unfolding take_commands
    length-take_commands zero l cache = omega arith
    length-take_commands (suc size) l cache = elim (Option-cases (transfer_top_command before l)) [
      | inl e ↦ rw (e, take_commands) (omega arith)
      | inr (r, e) ↦
          rw (e, take_commands)
            (omega (
              arith,
              length-take_top l r.0 r.1 e,
              length-take_commands size r.1 (cache ++ (r.0 ∷ [])),
            ))
    ]
