-- ===== src/Tests/Waiting.antt =====
-- The heap of waiting commands, with numbers for commands: a smaller one goes first.
use rservr.Base.{
  ap, ℕ, ◌+◌, ◌-◌, ◌≢◌, ◌++◌, length, ◌<◌, ◌≡◌, refl, List, [], ◌∷◌, Bool, true, some,
  if◌then◌else◌, count, arith, leb, zero, suc,
}
use rservr.Queue.{
  get_element, set_element, switch_elements, compares, sift_up, best_child, greatest_child,
  sift_down, insert_command, without_last, settle_top, transfer_top_command, take_commands,
  remove_commands,
}
use rservr.Queue.Drain.{IsOrdered, take_commands-IsHeap}
use rservr.Queue.Cancel.{without_handle, remove_commands-IsHeap}
use rservr.Queue.Arrays.{some_inj}
use rservr.Queue.Up.{IsHeap, IsTotal, IsTransitive, insert_command-IsHeap}
use rservr.Queue.Top.{transfer_top_command-IsHeap}

abbrev many : List ℕ
many = 2 ∷ 9 ∷ 4 ∷ 2 ∷ 8 ∷ 7 ∷ 3 ∷ 5 ∷ 6 ∷ []

insert_command_test : insert_command leb 1 many ≡ 1 ∷ 2 ∷ 4 ∷ 2 ∷ 8 ∷ 7 ∷ 3 ∷ 5 ∷ 6 ∷ 9 ∷ []
unfolding insert_command sift_up compares get_element switch_elements set_element
insert_command_test = refl

transfer_top_command_test :
    transfer_top_command leb many ≡ some (2, 2 ∷ 9 ∷ 4 ∷ 6 ∷ 8 ∷ 7 ∷ 3 ∷ 5 ∷ [])
unfolding transfer_top_command settle_top without_last switch_elements get_element set_element
    sift_down greatest_child best_child compares
transfer_top_command_test = refl

leb-IsTotal : IsTotal leb
leb-IsTotal a b h = ground arith

leb-IsTransitive : IsTransitive leb
leb-IsTransitive a b c h k = ground arith

in_order : (n a b : ℕ) → some 2 ≡ some a → some n ≡ some b → 2 < n → leb a b ≡ true
in_order n a b parent here more =
    let is_a = some_inj 2 a parent in let is_b = some_inj n b here in ground arith

abbrev three : List ℕ
three = 2 ∷ 9 ∷ 4 ∷ []

three-IsHeap : IsHeap leb three
unfolding get_element
three-IsHeap zero a b positive parent here = absurd (omega arith)
three-IsHeap (suc zero) a b positive parent here = in_order 9 a b parent here (omega arith)
three-IsHeap (suc (suc zero)) a b positive parent here = in_order 4 a b parent here (omega arith)
three-IsHeap (suc (suc (suc i))) a b positive parent here = cc

insert_command-IsHeap_example :
    IsHeap leb (insert_command leb 1 three)
    × ((q : ℕ → Bool)
        → count q (insert_command leb 1 three) ≡ count q three + (if q 1 then 1 else 0))
insert_command-IsHeap_example =
    insert_command-IsHeap leb leb-IsTotal leb-IsTransitive 1 three three-IsHeap

transfer_top_command-IsHeap_example :
    (left : List ℕ) × (transfer_top_command leb three ≡ some (2, left))
    × IsHeap leb left
    × ((q : ℕ → Bool) → count q left + (if q 2 then 1 else 0) ≡ count q three)
    × ((i : ℕ) (x : ℕ) → get_element three i ≡ some x → leb 2 x ≡ true)
transfer_top_command-IsHeap_example =
    transfer_top_command-IsHeap leb leb-IsTotal leb-IsTransitive 2 (9 ∷ 4 ∷ []) three-IsHeap

take_commands-IsHeap_example :
    (moved : List ℕ) × (left : List ℕ) × (take_commands leb 2 three (1 ∷ [])
      ≡ (left, (1 ∷ []) ++ moved))
    × IsOrdered leb moved left
    × IsHeap leb left
    × ((q : ℕ → Bool) → count q moved + count q left ≡ count q three)
    × (length moved + (length three - 2) ≡ length three)
take_commands-IsHeap_example =
    take_commands-IsHeap leb leb-IsTotal leb-IsTransitive 2 three (1 ∷ []) three-IsHeap

abbrev owned : List (ℕ × ℕ)
owned = (7, 2) ∷ (3, 9) ∷ (7, 4) ∷ []

owned-IsHeap : IsHeap (λ x y. leb x.1 y.1) owned
unfolding get_element
owned-IsHeap zero x y positive parent here = absurd (omega arith)
owned-IsHeap (suc zero) x y positive parent here =
    in_order 9 x.1 y.1 (ap (λ e. some e.1) (some_inj (7, 2) x parent))
      (ap (λ e. some e.1) (some_inj (3, 9) y here)) (omega arith)
owned-IsHeap (suc (suc zero)) x y positive parent here =
    in_order 4 x.1 y.1 (ap (λ e. some e.1) (some_inj (7, 2) x parent))
      (ap (λ e. some e.1) (some_inj (7, 4) y here)) (omega arith)
owned-IsHeap (suc (suc (suc i))) x y positive parent here = cc

remove_commands-IsHeap_example :
    IsHeap (λ x y. leb x.1 y.1) (remove_commands 7 owned)
    × ((i : ℕ) → get_element (remove_commands 7 owned) i ≡ without_handle 7 (get_element owned i))
    × ((i : ℕ) (x : ℕ × ℕ) → get_element (remove_commands 7 owned) i ≡ some x → x.0 ≢ 7)
remove_commands-IsHeap_example =
    remove_commands-IsHeap 7 leb owned (λ e. omega (arith, e)) owned-IsHeap
