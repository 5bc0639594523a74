-- ===== src/Queue/Top.antt =====
-- `transfer_top_command` (libs/server/local-include/execute-queue.hpp) takes a command that no
-- other one goes before.
use rservr.Base.{
  ℕ, zero, suc, ◌+◌, ◌-◌, ◌/◌, ◌<◌, ◌≤◌, ◌≡◌, ◌≢◌, ◌∙◌, sym, refl, ap, subst, inl, inr, List, [],
  ◌∷◌, Bool, true, false, some, if◌then◌else◌, length, count, arith, ltb, Bool-cases, if-cases,
}
use rservr.Queue.{
  order, get_element, set_element, exchange, switch_elements, without_last, settle_top,
  transfer_top_command,
}
use rservr.Queue.Arrays.{some_inj, get_in, in_of_get, get-switch, count-switch}
use rservr.Queue.Up.{IsHeap, IsTotal, IsTransitive}
use rservr.Queue.Down.{IsHeapAbove, sift_down_repairs}

module _ {A : Type 0} where
  pub length-without_last : (l : List A) → length (without_last l) ≡ length l - 1
  unfolding without_last
  length-without_last [] = refl
  length-without_last (x ∷ []) = refl
  length-without_last (x ∷ y ∷ l) = omega (arith, length-without_last (y ∷ l))

  get-without_last :
      (l : List A) (i : ℕ) → suc i < length l → get_element (without_last l) i ≡ get_element l i
  unfolding without_last get_element
  get-without_last [] i h = refl
  get-without_last (x ∷ []) i h = absurd (omega arith)
  get-without_last (x ∷ y ∷ l) zero h = refl
  get-without_last (x ∷ y ∷ l) (suc i) h = get-without_last (y ∷ l) i (omega (arith, h))

  count-without_last :
      (q : A → Bool) (l : List A) (n : ℕ) (t : A)
      → length l ≡ suc n
      → get_element l n ≡ some t
      → count q (without_last l) + (if q t then 1 else 0) ≡ count q l
  unfolding without_last get_element count
  count-without_last q [] n t size h = absurd (omega arith)
  count-without_last q (x ∷ []) zero t size h = rw (some_inj x t h) (omega arith)
  count-without_last q (x ∷ []) (suc n) t size h = absurd (omega arith)
  count-without_last q (x ∷ y ∷ l) zero t size h = absurd (omega arith)
  count-without_last q (x ∷ y ∷ l) (suc n) t size h =
      omega (arith, count-without_last q (y ∷ l) n t (omega (arith, size)) h)

  module _ (before : A → A → Bool) (total : IsTotal before) (trans : IsTransitive before) where
    itself : (a : A) → before a a ≡ true
    itself a = elim (Bool-cases (before a a)) [ inl e ↦ e | inr e ↦ total a a e ]

    -- Nothing in a heap goes strictly before its first element.
    first_least :
        (fuel i : ℕ) (l : List A) (top x : A)
        → i < fuel
        → IsHeap before l
        → get_element l 0 ≡ some top
        → get_element l i ≡ some x
        → before top x ≡ true
    first_least zero i l top x h heap first here = absurd (omega arith)
    first_least (suc fuel) zero l top x h heap first here =
        subst (λ y. before top y ≡ true) (some_inj top x (sym first ∙ here)) (itself top)
    first_least (suc fuel) (suc i) l top x h heap first here =
        let (a, parent) = get_in l (i / order) (omega (arith, in_of_get l (suc i) x here)) in
        trans top a x (first_least fuel (i / order) l top a (omega (arith, h)) heap first parent) (
          heap (suc i) a x (omega arith) (ap (λ n. get_element l (n / order)) (less i) ∙ parent)
            here)
      where
        less : (n : ℕ) → suc n - 1 ≡ n
        less n = omega arith

    settles :
        (w : List A)
        → IsHeapAbove before 0 w
        → IsHeap before (settle_top before w)
          × ((q : A → Bool) → count q (settle_top before w) ≡ count q w)
    unfolding settle_top
    settles w above =
        if-cases (λ r. IsHeap before r × ((q : A → Bool) → count q r ≡ count q w))
          (ltb 1 (length w)) _ _
          (λ e.
            sift_down_repairs before total trans (length w) 0 w (omega arith) (ground arith) above
              (λ i a b pos. absurd (omega arith)))
          (λ e. ((λ i a b pos parent here. absurd (short i b pos here (small e))), (λ q. refl)))
      where
        small : ltb 1 (length w) ≡ false → length w ≤ 1
        small e = ground arith

        short : (i : ℕ) (b : A) → 0 < i → get_element w i ≡ some b → length w ≤ 1 → ⊥
        short i b pos here le = omega (arith, in_of_get w i b here, le, pos)

    get-first : (top : A) (rest : List A) → get_element (top ∷ rest) 0 ≡ some top
    unfolding get_element
    get-first top rest = refl

    -- What the last command in the top place leaves.
    shortened_many :
        (top : A) (rest : List A) (n : ℕ)
        → 0 < n
        → n ≡ length rest
        → IsHeap before (top ∷ rest)
        → let w = without_last (switch_elements (top ∷ rest) 0 n) in
          IsHeapAbove before 0 w
          × ((q : A → Bool) → count q w + (if q top then 1 else 0) ≡ count q (top ∷ rest))
    shortened_many top rest n positive is_n heap =
        let l = top ∷ rest in
        let first = get-first top rest in
        let ne : 0 ≢ n = λ e. omega (arith, e) in
        let (z, at_n) = get_in l n (omega arith) in
        let (now_0, now_n, others, size) = get-switch l 0 n top z ne first at_n in
        let moved = switch_elements l 0 n in
        let w = without_last moved in
        let kept : (i : ℕ) → 0 < i → i < length w → get_element w i ≡ get_element l i = λ i pos h.
          get-without_last moved i (omega (arith, length-without_last moved, h, size))
          ∙ others i (λ e. omega (arith, e, pos))
              (λ e. omega (arith, e, h, length-without_last moved, size, is_n)) in
        (
          (λ i a b pos ne_0 parent here.
              heap i a b pos
                (sym (
                    kept ((i - 1) / order) (omega (arith, ne_0))
                      (in_of_get w ((i - 1) / order) a parent))
                  ∙ parent)
                (sym (kept i pos (in_of_get w i b here)) ∙ here)),
          (λ q.
              count-without_last q moved n top (omega (arith, size, is_n)) now_n
              ∙ count-switch q l 0 n top z ne first at_n),
        )

    alone :
        (top : A)
        → let w = without_last (switch_elements (top ∷ []) 0 0) in
          IsHeapAbove before 0 w
          × ((q : A → Bool) → count q w + (if q top then 1 else 0) ≡ count q (top ∷ []))
    unfolding switch_elements exchange set_element get_element without_last count
    alone top = ((λ i a b pos ne_0 parent here. cc), (λ q. omega arith))

    shortened :
        (top : A) (rest : List A)
        → IsHeap before (top ∷ rest)
        → let w = without_last (switch_elements (top ∷ rest) 0 (length rest)) in
          IsHeapAbove before 0 w
          × ((q : A → Bool) → count q w + (if q top then 1 else 0) ≡ count q (top ∷ rest))
    shortened top [] heap = alone top
    shortened top (y ∷ r) heap = shortened_many top (y ∷ r) (suc (length r)) (omega arith) refl heap

    -- Taking the top command of a heap, for a comparison that is total and transitive: it is one
    -- that no command of the heap goes strictly before, and what is left is a heap that holds
    -- exactly the other commands.
    pub transfer_top_command-IsHeap :
        (top : A) (rest : List A)
        → IsHeap before (top ∷ rest)
        → (left : List A) × (transfer_top_command before (top ∷ rest) ≡ some (top, left))
          × IsHeap before left
          × ((q : A → Bool) → count q left + (if q top then 1 else 0) ≡ count q (top ∷ rest))
          × ((i : ℕ) (x : A) → get_element (top ∷ rest) i ≡ some x → before top x ≡ true)
    unfolding transfer_top_command get_element
    transfer_top_command-IsHeap top rest heap =
        let w = without_last (switch_elements (top ∷ rest) 0 (length rest)) in
        let (above, contents) = shortened top rest heap in
        let (settled, same) = settles w above in
        (
          settle_top before w,
          refl,
          settled,
          (λ q. omega (arith, same q, contents q)),
          (λ i x here. first_least (suc i) i (top ∷ rest) top x (omega arith) heap refl here),
        )
