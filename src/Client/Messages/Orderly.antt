-- ===== src/Client/Messages/Orderly.antt =====
-- The invariant of the queue of messages while it runs, over each change of the list of messages
-- (libs/client/api-message-queue.cpp).
use rservr.Base.{
  ℕ, zero, suc, ◌+◌, ◌-◌, ◌%◌, ◌≡◌, ◌≤◌, ◌<◌, inl, inr, List, [], ◌∷◌, ◌++◌, Bool, true, false,
  Option, some, ◌==◌, if◌then◌else◌, is_empty, length, length-append, drop_where, arith,
  Option-cases, if-cases,
}
use rservr.Client.Messages.{
  Message, Messages, Machine, Info, Incoming, message_queue_pause, message_queue_unpause,
  message_queue_timed_pause, may_restore, auto_pause_check, auto_unpause_check,
}
use rservr.Client.Messages.Keeping.{
  is_full, new_message, add_new_message, remove_at, remove_current_message, removed_at,
  remove_message, position_of, has_message_handle, clear_messages, find_non_respond,
  remove_responses, find_by_reference, set_message_queue_limit, take_first, rotated,
  rotate_response,
}

-- It is paused only while more messages wait than the share at which it restores.
abbrev pub IsAwake : Machine → Messages → Type 0
IsAwake out m = m.paused ≡ true → may_restore out m ≡ false

-- The limit is kept.
abbrev pub IsWithin : Messages → Type 0
IsWithin m = 0 < m.max_size → length m.messages ≤ m.max_size

-- The current message is one of those that wait, or the index is 0.
abbrev pub IsPlaced : Messages → Type 0
IsPlaced m = 0 < m.index → m.index < length m.messages

pub record IsKept (m : Messages) : Type 0 where
  pub runs : m.running ≡ true
  pub within : IsWithin m
  pub placed : IsPlaced m

-- It is as it should be, and awake under a condition.
pub record IsOrderly (P : Type 0) (out : Machine) (m : Messages) : Type 0 where
  pub runs : m.running ≡ true
  pub awake : P → IsAwake out m
  pub within : IsWithin m
  pub placed : IsPlaced m

-- The container leaves its index at an element, or at 0.
abbrev pub IsIndexed : Machine → Type 0
IsIndexed out =
    (size index position : ℕ)
    → (0 < index → index < size)
    → position < size
    → 0 < out.index_after size index position
    → out.index_after size index position < size - 1

unpaused :
    {P : Type 0} (out : Machine) (m : Messages)
    → m.running ≡ true
    → IsWithin m
    → IsPlaced m
    → IsOrderly P out (auto_unpause_check out m)
unfolding auto_unpause_check message_queue_unpause may_restore
unpaused out m runs within placed = ground arith

checked :
    {P : Type 0} (out : Machine) (m : Messages)
    → m.running ≡ true
    → IsWithin m
    → IsPlaced m
    → IsOrderly P out (auto_pause_check out m)
unfolding auto_pause_check message_queue_unpause may_restore message_queue_timed_pause
    message_queue_pause
checked out m runs within placed = ground arith

pub length-remove_at :
    (l : List Message) (i : ℕ) → i < length l → length (remove_at l i) + 1 ≡ length l
unfolding remove_at
length-remove_at [] i h = absurd (omega arith)
length-remove_at (x ∷ l) zero h = omega arith
length-remove_at (x ∷ l) (suc i) h = omega (arith, length-remove_at l i (omega (arith, h)))

length-remove_at_le : (l : List Message) (i : ℕ) → length (remove_at l i) ≤ length l
unfolding remove_at
length-remove_at_le [] i = omega arith
length-remove_at_le (x ∷ l) zero = omega arith
length-remove_at_le (x ∷ l) (suc i) = omega (arith, length-remove_at_le l i)

length-drop_where : (p : Message → Bool) (l : List Message) → length (drop_where p l) ≤ length l
unfolding drop_where
length-drop_where p [] = omega arith
length-drop_where p (x ∷ l) = ground (arith, length-drop_where p l)

length-take_first : (n : ℕ) (l : List Message) → length (take_first n l) ≤ n
unfolding take_first
length-take_first zero l = omega arith
length-take_first (suc n) [] = omega arith
length-take_first (suc n) (x ∷ l) = omega (arith, length-take_first n l)

pub position_of-lt :
    (p : Message → Bool) (l : List Message) (i : ℕ) → position_of p l ≡ some i → i < length l
unfolding position_of
position_of-lt p [] i h = cc
position_of-lt p (x ∷ l) i h = elim (Option-cases (position_of p l)) [
  | inl e ↦ ground (arith, e)
  | inr (j, e) ↦ ground (arith, e, position_of-lt p l j e)
]

in_range : (i n : ℕ) → 0 < (if n == 0 then 0 else i % n) → (if n == 0 then 0 else i % n) < n
in_range i n h = grind arith

-- The same messages, with the index at another place.
moved :
    {P : Type 0} (out : Machine) (m : Messages) (i : ℕ)
    → IsOrderly P out m
    → (0 < i → i < length m.messages)
    → IsOrderly P out (record m { index = i })
unfolding may_restore
moved out m i orderly placed = record {
  runs = orderly.runs;
  awake = orderly.awake;
  within = orderly.within;
  placed = placed;
}

module _ {P : Type 0} (out : Machine) (m : Messages) (orderly : IsOrderly P out m) where
  pub arrives-IsOrderly :
      (info : Info) (type : ℕ) (incoming : Incoming)
      → IsOrderly P out (add_new_message out info type incoming m).1
  unfolding add_new_message may_restore
  arrives-IsOrderly info type incoming =
      let fuller = record m { messages = m.messages ++ (new_message info type incoming ∷ []) } in
      let longer = length-append m.messages (new_message info type incoming ∷ []) in
      if-cases (λ (r : Bool × Messages). IsOrderly P out r.1) (is_full m) _ _
        (λ e. record {
          runs = orderly.runs;
          awake = orderly.awake;
          within = orderly.within;
          placed = λ h. absurd (omega (arith, h));
        })
        (λ e.
          checked out fuller orderly.runs (λ h. ground (arith, longer, e, orderly.within))
            (λ h. ground (arith, longer, orderly.placed)))

  -- Taking a message wakes the queue whatever had paused it.
  pub taken-IsOrderly : IsOrderly Unit out (remove_current_message out m).1
  unfolding remove_current_message
  taken-IsOrderly =
      unpaused out (record m { messages = remove_at m.messages m.index; index = 0 }) orderly.runs
        (λ h. omega (arith, length-remove_at_le m.messages m.index, orderly.within h))
        (λ h. absurd (omega (arith, h)))

  pub takes-IsOrderly : IsOrderly P out (remove_current_message out m).1
  takes-IsOrderly =
      let end = taken-IsOrderly in
      record {
        runs = end.runs;
        awake = λ p. end.awake tt;
        within = end.within;
        placed = end.placed;
      }

  pub clears-IsOrderly : IsOrderly P out (clear_messages out m)
  unfolding clear_messages
  clears-IsOrderly =
      unpaused out (record m { messages = drop_where find_non_respond m.messages; index = 0 })
        orderly.runs
        (λ h. omega (arith, length-drop_where find_non_respond m.messages, orderly.within h))
        (λ h. absurd (omega (arith, h)))

  pub forgets-IsOrderly : (reference : ℕ) → IsOrderly P out (remove_responses out reference m).1
  unfolding remove_responses
  forgets-IsOrderly reference =
      if-cases (λ (r : Bool × Messages). IsOrderly P out r.1) (reference == 0) _ _ (λ e. orderly)
        (λ e.
          unpaused out
            (record m { messages = drop_where (find_by_reference reference) m.messages; index = 0 })
            orderly.runs
            (λ h.
              omega (
                arith,
                length-drop_where (find_by_reference reference) m.messages,
                orderly.within h,
              ))
            (λ h. absurd (omega (arith, h))))

  pub limits-IsOrderly : (limit : ℕ) → IsOrderly P out (set_message_queue_limit out limit m)
  unfolding set_message_queue_limit
  limits-IsOrderly limit =
      let cut = if limit == 0 then m.messages else take_first limit m.messages in
      checked out
        (record m {
          messages = cut;
          index = if length cut == 0 then 0 else m.index % length cut;
          max_size = limit;
        })
        orderly.runs (λ h. ground (arith, length-take_first limit m.messages))
        (λ h. in_range m.index (length cut) h)

  pub rotates-IsOrderly : (reference : ℕ) → IsOrderly P out (rotate_response reference m).1
  unfolding rotate_response rotated may_restore
  rotates-IsOrderly reference =
      if-cases (λ (r : Option Message × Messages). IsOrderly P out r.1) (is_empty m.messages) _ _
        (λ e. orderly)
        (λ e. elim (Option-cases (position_of (find_by_reference reference) m.messages)) [
          | inl f ↦ rw (f, rotated) (moved out m 0 orderly (λ h. absurd (omega (arith, h))))
          | inr (i, f) ↦
              rw (f, rotated)
                (moved out m i orderly
                  (λ h. position_of-lt (find_by_reference reference) m.messages i f))
        ])

  pub removes-IsOrderly :
      IsIndexed out → (handle : ℕ) → IsOrderly P out (remove_message out handle m).1
  unfolding remove_message removed_at
  removes-IsOrderly indexed handle =
      if-cases (λ (r : Bool × Messages). IsOrderly P out r.1) (handle == 0) _ _ (λ e. orderly)
        (λ e. elim (Option-cases (position_of (has_message_handle handle) m.messages)) [
          | inl f ↦ rw (f, removed_at) orderly
          | inr (i, f) ↦
              let there = position_of-lt (has_message_handle handle) m.messages i f in
              let shorter = length-remove_at m.messages i there in
              rw (f, removed_at)
                (unpaused out
                  (record m {
                    messages = remove_at m.messages i;
                    index = out.index_after (length m.messages) m.index i;
                  })
                  orderly.runs (λ h. omega (arith, shorter, orderly.within h))
                  (λ h.
                    omega (
                      arith,
                      shorter,
                      indexed (length m.messages) m.index i orderly.placed there h,
                    )))
        ])
