-- ===== src/Queue.antt =====
-- libs/server/local-include/execute-queue.hpp: the commands that wait, in an array that is a heap
-- of order 8 (PARAM_EXECUTE_HEAP_ORDER). `before` is the comparison that the callers pass. The
-- signed positions of the code are never negative.
pub mod Arrays
pub mod Up
pub mod Best
pub mod Down
pub mod Top
pub mod Drain
pub mod Cancel
pub mod Lengths
use rservr.Base.{
  ℕ, zero, suc, ◌+◌, ◌-◌, ◌*◌, ◌/◌, List, [], ◌∷◌, ◌++◌, Bool, true, false, not, Option, none, some,
  ◌==◌, ltb, leb, if◌then◌else◌, length,
}

abbrev pub order : ℕ
order = 8

module _ {A : Type 0} where
  unfoldable pub get_element : List A → ℕ → Option A
  get_element [] i = none
  get_element (x ∷ l) zero = some x
  get_element (x ∷ l) (suc i) = get_element l i

  -- Out of range nothing is written.
  unfoldable pub set_element : List A → ℕ → A → List A
  set_element [] i a = []
  set_element (x ∷ l) zero a = a ∷ l
  set_element (x ∷ l) (suc i) a = x ∷ set_element l i a

  unfoldable pub exchange : List A → ℕ → ℕ → Option A → Option A → List A
  exchange l i j (some a) (some b) = set_element (set_element l j a) i b
  exchange l i j (some a) none = l
  exchange l i j none b = l

  unfoldable pub switch_elements : List A → ℕ → ℕ → List A
  unfolding exchange
  switch_elements l i j = exchange l i j (get_element l i) (get_element l j)

  both : (A → A → Bool) → Option A → Option A → Bool
  both before (some a) (some b) = before a b
  both before (some a) none = false
  both before none b = false

  -- The comparison of the elements at two positions.
  unfoldable pub compares : (A → A → Bool) → List A → ℕ → ℕ → Bool
  unfolding both
  compares before l i j = both before (get_element l i) (get_element l j)

  -- The loop of `sift_up`: no round is needed at the top.
  unfoldable pub sift_up : (A → A → Bool) → ℕ → ℕ → List A → List A
  sift_up before zero current l = l
  sift_up before (suc fuel) current l =
      let parent = (current - 1) / order in
      let more = sift_up before fuel parent (switch_elements l current parent) in
      if current == 0 then l else if not (compares before l parent current) then more else l

  -- One round of the inner loop of `sift_down`: the best child so far, if one goes before the
  -- element.
  unfoldable pub best_child : (A → A → Bool) → List A → ℕ → ℕ → Option ℕ → Option ℕ
  best_child before l current child none =
      if compares before l child current then some child else none
  best_child before l current child (some best) =
      if compares before l child best then some child else some best

  unfoldable pub greatest_child : (A → A → Bool) → List A → ℕ → ℕ → ℕ → Option ℕ → Option ℕ
  greatest_child before l current zero child greatest = greatest
  greatest_child before l current (suc rounds) child greatest =
      let more =
        greatest_child before l current rounds (child + 1)
          (best_child before l current child greatest) in
      if ltb child (length l) then more else greatest

  unfoldable pub sift_down : (A → A → Bool) → ℕ → ℕ → List A → List A
  sift_down before zero current l = l
  sift_down before (suc fuel) current l =
      let best = greatest_child before l current order (current * order + 1) none in
      let down : Option ℕ → List A = λ o. elim o [
        | none ↦ l
        | some child ↦ sift_down before fuel child (switch_elements l child current)
      ] in
      if ltb current (length l - 1) then down best else l

  unfoldable pub insert_command : (A → A → Bool) → A → List A → List A
  insert_command before a l = sift_up before (suc (length l)) (length l) (l ++ (a ∷ []))

  unfoldable pub without_last : List A → List A
  without_last [] = []
  without_last (x ∷ []) = []
  without_last (x ∷ y ∷ l) = x ∷ without_last (y ∷ l)

  unfoldable pub settle_top : (A → A → Bool) → List A → List A
  settle_top before l = if ltb 1 (length l) then sift_down before (length l) 0 l else l

  -- The first element goes to the caller, and the last one takes its place (`p_heap_element_to`).
  unfoldable pub transfer_top_command : (A → A → Bool) → List A → Option (A × List A)
  transfer_top_command before [] = none
  transfer_top_command before (top ∷ rest) =
      some (top, settle_top before (without_last (switch_elements (top ∷ rest) 0 (length rest))))

  -- `remove_top_command`: the top command is dropped.
  unfoldable pub remove_top_command : (A → A → Bool) → List A → Bool × List A
  remove_top_command before [] = (false, [])
  remove_top_command before (top ∷ rest) =
      let l = top ∷ rest in
      let switched = if ltb 1 (length l) then switch_elements l 0 (length l - 1) else l in
      (true, settle_top before (without_last switched))

  -- The loop of `server_execute_next`: at most so many commands move to the end of the cache.
  unfoldable pub take_commands : (A → A → Bool) → ℕ → List A → List A → List A × List A
  take_commands before zero l cache = (l, cache)
  take_commands before (suc size) l cache = elim (transfer_top_command before l) [
    | none ↦ (l, cache)
    | some (top, left) ↦ take_commands before size left (cache ++ (top ∷ []))
  ]

  -- Whether anything waits in the cache, with the queue and the cache.
  server_execute_next : (A → A → Bool) → (ℕ → ℕ) → List A → List A → Bool × List A × List A
  server_execute_next before calculate_execution l cache =
      let (left, moved) = take_commands before (calculate_execution (length l)) l cache in
      if length l == 0 then (false, l, cache) else (not (length moved == 0), left, moved)

  -- A cancelled command keeps its place and loses its handle.
  unfoldable pub cancel : ℕ → ℕ × A → ℕ × A
  cancel handle (key, command) = if key == handle then (0, command) else (key, command)

  unfoldable pub remove_commands : ℕ → List (ℕ × A) → List (ℕ × A)
  remove_commands handle [] = []
  remove_commands handle (e ∷ l) = cancel handle e ∷ remove_commands handle l
