-- ===== src/Client/Status.antt =====
-- libs/client/api-command-queue.cpp: what became of the commands that a client sent. Each sent
-- command has a reference number; under it stand the events that were reported and the functors
-- that wait for more. A functor is a number, and `answers` what it returns; of the entries with one
-- key `f_remove_duplicates` keeps the first.
pub mod Events
pub mod History
pub mod References
pub mod Sent
pub mod Waiting
use rservr.Base.{
  ℕ, zero, suc, ◌+◌, ◌-◌, ◌*◌, ◌%◌, ◌^◌, List, [], ◌∷◌, ◌++◌, Bool, true, false, not, ◌&&◌, ◌||◌,
  Option, none, some, Text, is_empty, ◌==◌, ltb, if◌then◌else◌, find, drop_where, update_first,
}
use rservr.Flags.{
  ◌\/◌, check_any, event_none, event_unavailable, event_no_connection, event_unsent,
  event_no_success,
}
use rservr.Client.Commands.{Prepared, Sender, transmit_command}

-- `command_status`
pub record Status : Type 0 where
  pub local_callbacks : List ℕ
  pub local_status : ℕ

-- What a functor answers to a reference, an event and the events so far.
abbrev pub Answers : Type 0
Answers = ℕ → ℕ → ℕ → ℕ → Bool

abbrev pub Statuses : Type 0
Statuses = List (ℕ × Status)

unfoldable pub find_by_key : ℕ → ℕ × Status → Bool
find_by_key reference (key, status) = key == reference

abbrev pub new_status : Status
new_status = record { local_callbacks = []; local_status = event_none }

-- The loop of `command_status::update_status`: the functors that stay, and whether the last one
-- was removed.
unfoldable pub call_functors : Answers → ℕ → ℕ → ℕ → List ℕ → List ℕ → Bool → List ℕ × Bool
call_functors answers reference event status kept [] removed = (kept, removed)
call_functors answers reference event status kept (f ∷ rest) removed =
    let done = answers f reference event status in
    call_functors answers reference event status (if done then kept else kept ++ (f ∷ [])) rest
      (removed || done && is_empty (kept ++ rest))

-- `command_status::update_status`
unfoldable pub update_one : Answers → ℕ → ℕ → Status → Bool × Status
unfolding call_functors
update_one answers reference event s =
    let (kept, removed) =
      call_functors answers reference event s.local_status [] s.local_callbacks false in
    (removed, record { local_callbacks = kept; local_status = s.local_status \/ event })

-- Only the first entry of the key leaves.
unfoldable pub remove_single : ℕ → Statuses → Statuses
unfolding find_by_key
remove_single reference [] = []
remove_single reference (e ∷ l) =
    if find_by_key reference e then l else e ∷ remove_single reference l

update_found : Answers → ℕ → ℕ → Option (ℕ × Status) → Statuses → Bool × Statuses
unfolding update_one remove_single find_by_key
update_found answers reference event none l = (false, l)
update_found answers reference event (some (key, s)) l =
    let (removed, left) = update_one answers reference event s in
    (
      true,
      if removed
          then remove_single reference l
          else update_first (find_by_key reference) (λ e. (key, left)) l,
    )

unfoldable pub update_status : Answers → ℕ → ℕ → Statuses → Bool × Statuses
unfolding update_found
update_status answers reference event l =
    update_found answers reference event (find (find_by_key reference) l) l

-- `f_remove_duplicates` by key.
unfoldable pub unique_keys : Statuses → Statuses
unique_keys [] = []
unique_keys (e ∷ l) = e ∷ drop_where (find_by_key e.0) (unique_keys l)

unfoldable pub register_reference : ℕ → Statuses → Statuses
unfolding unique_keys
register_reference reference l = unique_keys (l ++ ((reference, new_status) ∷ []))

unfoldable pub deregister_reference : ℕ → Statuses → Statuses
deregister_reference reference l = drop_where (find_by_key reference) l

-- `register_functors`
with_functors : List ℕ → ℕ × Status → ℕ × Status
with_functors functors (key, s) =
    (key, record s { local_callbacks = s.local_callbacks ++ functors })

registered : ℕ → List ℕ → Option (ℕ × Status) → Statuses → Bool × Statuses
unfolding with_functors
registered reference functors none l = (false, l)
registered reference functors (some e) l =
    (true, update_first (find_by_key reference) (λ x. with_functors functors e) l)

unfoldable pub register_functor : ℕ → List ℕ → Statuses → Bool × Statuses
unfolding registered
register_functor reference functors l =
    registered reference functors (find (find_by_key reference) l) l

status_of : Option (ℕ × Status) → ℕ
status_of none = event_unavailable
status_of (some (key, s)) = s.local_status

-- `retrieve_status`, `find_command_status`
unfoldable pub find_command_status : ℕ → Statuses → ℕ
unfolding status_of
find_command_status reference l = status_of (find (find_by_key reference) l)

unfoldable pub new_status_functors : ℕ → List ℕ → Statuses → Bool × Statuses
new_status_functors reference functors l =
    if is_empty functors then (false, l) else register_functor reference functors l

-- The prepared commands, the statuses, and the next reference number, in 32 bits.
pub record Sending : Type 0 where
  pub prepared : List Prepared
  pub statuses : Statuses
  pub next_reference : ℕ
  pub standby_reset : Bool

-- What the process and its message queue answer.
pub record Conditions : Type 0 where
  pub su_violation : Bool
  pub message_queue_status : Bool
  pub sender : Sender
  pub answers : Answers

-- `manual_message_number`
unfoldable pub manual_message_number : Sending → ℕ × Sending
manual_message_number st =
    (st.next_reference, record st { next_reference = (st.next_reference + 1) % 2 ^ 32 })

-- What both kinds of sending test first.
unfoldable pub may_send : Conditions → ℕ → Bool
may_send out handle = not (handle == 0) && not out.su_violation && out.message_queue_status

unfoldable pub send_command_no_status : Conditions → ℕ → Sending → ℕ × Sending
unfolding may_send manual_message_number
send_command_no_status out handle st =
    let (reference, numbered) = manual_message_number st in
    let (sent, left, given) = transmit_command out.sender handle reference true numbered.prepared in
    if not (may_send out handle)
    then (0, st)
    else if reference == 0
    then (0, numbered)
    else (if sent then reference else 0, record numbered { prepared = left; standby_reset = true })

-- The entry that is made before the command is sent.
unfoldable pub enter_reference : ℕ → List ℕ → Statuses → Statuses
unfolding register_reference register_functor
enter_reference reference functors l =
    let entered = register_reference reference l in
    if is_empty functors then entered else (register_functor reference functors entered).1

-- A command that was not sent is reported as such to its functors, and its entry is removed.
unfoldable pub withdraw : Answers → ℕ → Statuses → Statuses
unfolding update_status deregister_reference
withdraw answers reference l =
    deregister_reference reference (update_status answers reference event_unsent l).1

unfoldable pub send_command_functors : Conditions → ℕ → List ℕ → Sending → ℕ × Sending
unfolding may_send manual_message_number enter_reference withdraw
send_command_functors out handle functors st =
    let (reference, numbered) = manual_message_number st in
    let (sent, left, given) =
      transmit_command out.sender handle reference false numbered.prepared in
    let entered = enter_reference reference functors numbered.statuses in
    let tried = record numbered { prepared = left; standby_reset = true } in
    if not (may_send out handle)
    then (0, st)
    else if reference == 0
    then (0, numbered)
    else if not sent
    then (0, record tried { statuses = withdraw out.answers reference entered })
    else (reference, record tried { statuses = entered })

-- What one cycle of waiting finds: the status of the command, whether the message queue runs, and
-- whether the callback ends the wait. Within a cycle these do not change.
pub record Cycle : Type 0 where
  pub status : ℕ
  pub running : Bool
  pub cancelled : Bool

-- The loop of `cancelable_wait_command_event`, with times in whole units: the number of cycles that
-- were slept through, and the status that was seen last.
unfoldable pub wait_cycles : (ℕ → Cycle) → ℕ → ℕ → ℕ → ℕ → ℕ → ℕ → ℕ × ℕ
wait_cycles sees mask elapse limit zero i current = (i, current)
wait_cycles sees mask elapse limit (suc fuel) i current =
    let here = sees i in
    let more = wait_cycles sees mask elapse limit fuel (i + 1) here.status in
    if not (ltb (i * elapse) limit)
    then (i, current)
    else if check_any here.status (mask \/ event_no_success) || not here.running || here.cancelled
    then (i, here.status)
    else more

-- The answer after the loop: one more look if the message queue has ended.
unfoldable pub wait_answer : (ℕ → Cycle) → ℕ → ℕ → ℕ → ℕ × ℕ → ℕ
wait_answer sees mask elapse limit (i, current) =
    let running = (sees i).running in
    let last =
      if not running && not (check_any current mask) then (sees (i + 1)).status else current in
    if check_any last mask
    then last
    else if not running
    then event_no_connection
    else if not (ltb (i * elapse) limit)
    then event_unavailable
    else last

-- Enough rounds for every limit.
unfoldable pub cancelable_wait_command_event : Bool → Bool → (ℕ → Cycle) → ℕ → ℕ → ℕ → ℕ → ℕ
unfolding wait_cycles wait_answer
cancelable_wait_command_event in_queue paused sees reference mask elapse limit =
    if reference == 0
    then event_unsent
    else if in_queue
    then event_unavailable
    else if paused
    then event_unavailable
    else wait_answer sees mask elapse limit
        (wait_cycles sees mask elapse limit (suc limit) 0 event_unavailable)
