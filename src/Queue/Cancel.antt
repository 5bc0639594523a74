-- ===== src/Queue/Cancel.antt =====
-- `remove_commands` (libs/server/local-include/execute-queue.hpp) leaves the heap in order.
use rservr.Base.{
  ℕ, zero, suc, ◌-◌, ◌/◌, ◌≡◌, ◌≢◌, ◌∙◌, sym, refl, ap, subst, List, [], ◌∷◌, Bool, true, Option,
  none, some, arith, ◌==◌, if-cases, if◌then◌else◌,
}
use rservr.Queue.{order, get_element, cancel, remove_commands}
use rservr.Queue.Arrays.{some_inj}
use rservr.Queue.Up.{IsHeap}

module _ {A : Type 0} (handle : ℕ) where
  cancelled :
      (e : ℕ × A) → ((cancel handle e).1 ≡ e.1) × (handle ≢ 0 → (cancel handle e).0 ≢ handle)
  unfolding cancel
  cancelled (key, command) =
      if-cases (λ (r : ℕ × A). (r.1 ≡ command) × (handle ≢ 0 → r.0 ≢ handle)) (key == handle) _ _
        (λ e. (refl, (λ real same. real (sym same)))) (λ e. (refl, (λ real same. ground arith)))

  -- Where an element of the new array comes from.
  comes_from :
      (l : List (ℕ × A)) (i : ℕ) (x : ℕ × A)
      → get_element (remove_commands handle l) i ≡ some x
      → (e : ℕ × A) × (get_element l i ≡ some e) × (cancel handle e ≡ x)
  unfolding remove_commands get_element
  comes_from [] i x h = cc
  comes_from (e ∷ l) zero x h = (e, refl, some_inj (cancel handle e) x h)
  comes_from (e ∷ l) (suc i) x h = comes_from l i x h

  -- The element at a place, if there is one, with the handle 0 in place of the cancelled one.
  abbrev pub without_handle : Option (ℕ × A) → Option (ℕ × A)
  without_handle none = none
  without_handle (some e) = some ((if e.0 == handle then 0 else e.0), e.1)

  pub get_element-remove_commands :
      (l : List (ℕ × A)) (i : ℕ)
      → get_element (remove_commands handle l) i ≡ without_handle (get_element l i)
  unfolding remove_commands get_element cancel
  get_element-remove_commands [] i = refl
  get_element-remove_commands (e ∷ l) zero = ground arith
  get_element-remove_commands (e ∷ l) (suc i) = get_element-remove_commands l i

  -- Cancelling the commands of a client, whose handle is not 0, where the order reads commands only:
  -- a heap is still a heap; each place of the array holds the command that it held, under the handle 0
  -- if it was the client's, and under its own handle otherwise; and no waiting command has the
  -- client's handle any more.
  pub remove_commands-IsHeap :
      (before : A → A → Bool) (l : List (ℕ × A))
      → handle ≢ 0
      → IsHeap (λ x y. before x.1 y.1) l
      → IsHeap (λ x y. before x.1 y.1) (remove_commands handle l)
        × ((i : ℕ) → get_element (remove_commands handle l) i ≡ without_handle (get_element l i))
        × ((i : ℕ) (x : ℕ × A) → get_element (remove_commands handle l) i ≡ some x → x.0 ≢ handle)
  remove_commands-IsHeap before l real heap = (
    (λ i x y pos parent here.
        let (d, d_there, is_x) = comes_from l ((i - 1) / order) x parent in
        let (e, e_there, is_y) = comes_from l i y here in
        subst (λ v. before v y.1 ≡ true) (sym ((cancelled d).0) ∙ ap (λ r. r.1) is_x)
          (subst (λ v. before d.1 v ≡ true) (sym ((cancelled e).0) ∙ ap (λ r. r.1) is_y)
            (heap i d e pos d_there e_there))),
    get_element-remove_commands l,
    (λ i x here same.
        let (e, there, is_x) = comes_from l i x here in
        (cancelled e).1 real (ap (λ r. r.0) is_x ∙ same)),
  )
