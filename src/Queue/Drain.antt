-- ===== src/Queue/Drain.antt =====
-- The loop of `server_execute_next` (libs/server/execute-thread.cpp) moves commands in order.
use mathlib.Core.List.{append-nil, append_assoc}
use rservr.Base.{
  ℕ, zero, suc, ◌+◌, ◌-◌, ◌≡◌, ◌∙◌, sym, refl, ap, List, [], ◌∷◌, ◌++◌, Bool, true, false, not,
  none, some, length, count, arith,
}
use rservr.Queue.{get_element, transfer_top_command, take_commands}
use rservr.Queue.Up.{IsHeap, IsTotal, IsTransitive}
use rservr.Queue.Top.{transfer_top_command-IsHeap}

module _ {A : Type 0} where
  count-append : (q : A → Bool) (l m : List A) → count q (l ++ m) ≡ count q l + count q m
  unfolding count
  count-append q [] m = omega arith
  count-append q (x ∷ l) m = omega (arith, count-append q l m)

  none_counted :
      (q : A → Bool) (l : List A)
      → ((i : ℕ) (x : A) → get_element l i ≡ some x → q x ≡ false)
      → count q l ≡ 0
  unfolding count get_element
  none_counted q [] h = refl
  none_counted q (x ∷ l) h =
      rw (h 0 x refl) (omega (arith, none_counted q l (λ i y e. h (suc i) y e)))

  count_everything : (l : List A) → count (λ x. true) l ≡ length l
  unfolding count
  count_everything [] = refl
  count_everything (x ∷ l) = omega (arith, count_everything l)

  module _ (before : A → A → Bool) where
    -- Each element goes before all that follow it and all that are left.
    unfoldable pub IsOrdered : List A → List A → Type 0
    IsOrdered [] left = Unit
    IsOrdered (t ∷ ts) left = (count (λ x. not (before t x)) (ts ++ left) ≡ 0) × IsOrdered ts left

    transfer_nothing : transfer_top_command before [] ≡ none
    unfolding transfer_top_command
    transfer_nothing = refl

    next_stops :
        (size : ℕ) (l cache : List A)
        → transfer_top_command before l ≡ none
        → take_commands before (suc size) l cache ≡ (l, cache)
    unfolding take_commands
    next_stops size l cache h = rw (h, take_commands) refl

    next_moves :
        (size : ℕ) (l cache : List A) (top : A) (queue : List A)
        → transfer_top_command before l ≡ some (top, queue)
        → take_commands before (suc size) l cache
          ≡ take_commands before size queue (cache ++ (top ∷ []))
    unfolding take_commands
    next_moves size l cache top queue h = rw (h, take_commands) refl

    next_zero : (l cache : List A) → take_commands before zero l cache ≡ (l, cache)
    unfolding take_commands
    next_zero l cache = refl

    module _ (total : IsTotal before) (trans : IsTransitive before) where
      -- Moving commands from a heap, for a comparison that is total and transitive: the cache gets
      -- as many as asked for or all there are, each goes before all moved after it and all that
      -- stay, what stays is a heap, and each command is in one of the two.
      pub take_commands-IsHeap :
          (size : ℕ) (l cache : List A)
          → IsHeap before l
          → (moved : List A) × (left : List A) × (take_commands before size l cache
              ≡ (left, cache ++ moved))
            × IsOrdered moved left
            × IsHeap before left
            × ((q : A → Bool) → count q moved + count q left ≡ count q l)
            × (length moved + (length l - size) ≡ length l)
      unfolding IsOrdered count
      take_commands-IsHeap zero l cache heap = (
        [],
        l,
        next_zero l cache ∙ ap (λ c. (l, c)) (sym (append-nil cache)),
        tt,
        heap,
        (λ q. omega arith),
        omega arith,
      )
      take_commands-IsHeap (suc size) [] cache heap = (
        [],
        [],
        next_stops size [] cache transfer_nothing ∙ ap (λ c. ([], c)) (sym (append-nil cache)),
        tt,
        heap,
        (λ q. omega arith),
        omega arith,
      )
      take_commands-IsHeap (suc size) (top ∷ rest) cache heap =
          let (queue, took, settled, same, least) =
            transfer_top_command-IsHeap before total trans top rest heap in
          let (moved, left, runs, ordered, still, contents, size_moved) =
            take_commands-IsHeap size queue (cache ++ (top ∷ [])) settled in
          let later : A → Bool = λ x. not (before top x) in
          let none_before =
            none_counted later (top ∷ rest) (λ i x here. rw (least i x here) refl) in
          (
            top ∷ moved,
            left,
            next_moves size (top ∷ rest) cache top queue took
                ∙ (runs ∙ ap (λ c. (left, c)) (append_assoc cache (top ∷ []) moved)),
            (
              omega (arith, count-append later moved left, contents later, same later, none_before),
              ordered,
            ),
            still,
            (λ q. omega (arith, contents q, same q)),
            omega (
              arith,
              size_moved,
              same (λ x. true),
              count_everything queue,
              count_everything (top ∷ rest),
            ),
          )
