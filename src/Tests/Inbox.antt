-- ===== src/Tests/Inbox.antt =====
-- Messages that wait for a client, and commands that it receives.
use rservr.Base.{
  any, List, ℕ, ◌+◌, ◌-◌, ◌≡◌, refl, [], ◌∷◌, Bool, true, false, none, some, leb, if◌then◌else◌,
  find, count, arith,
}
use rservr.Flags.{check_all, command_request, command_response, command_remote, event_complete}
use rservr.Client.Commands.{
  Prepared, Sender, find_command_handle, addressed, may_transmit, transmit_command,
}
use rservr.Client.Commands.Finding.{view}
use rservr.Client.Messages.{text, Message, Messages, Machine, Info, Incoming}
use rservr.Client.Messages.Keeping.{
  new_message, message_from, remove_current_message, find_by_reference, check_responses,
  rotate_response, validate_message, copy_response, answer_to, has_message_handle,
}
use rservr.Client.Messages.Blocking.{at_start}
use rservr.Client.Messages.Orderly.{IsKept, IsAwake, IsIndexed}
use rservr.Client.Messages.Uses.{may_pause, run_use, run_uses, run_uses-IsOrderly}
use rservr.Client.Messages.Uses
use rservr.Client.Messages.Order.{reads, passes, fifo, fifo_reads, passes_refines}
use rservr.Client.Messages.Order
use rservr.Client.Messages.Responses.{rotate_response-takes}
use rservr.Client.Receiving.{
  Local, Around, info_of, register_remote, update_local_command_status,
  update_remote_command_status,
}
use rservr.Client.Receiving.Remote.{is_passed, IsDeclined, IsPassed, register_remote_cases}
use rservr.Client.Receiving.Replies.{HasReached, response_returns}
use rservr.Tests.{ada, bob, lamp}
use rservr.Tests.Prepared.{asks, two_prepared, ada_sends, asked, asks_there, asked_sent}
use rservr.Tests.Statuses.{on_complete, two_statuses, two_statuses-HasDistinctKeys}

-- An index past the removed element moves back, and wraps at the end.
abbrev follows : ℕ → ℕ → ℕ → ℕ
follows size index position =
    let moved = if leb index position then index else index - 1 in
    if leb (size - 1) moved then 0 else moved

abbrev machine : Machine
machine = record { index_after = follows; can_pause = true; can_start_thread = true; unit = 100 }

machine-IsIndexed : IsIndexed machine
machine-IsIndexed size index position inside there positive = ground (arith, inside, positive)

abbrev note : Incoming
note = record { response = 0; content = text lamp }

abbrev request_info : Info
request_info = info_of lamp 50 asked

abbrev response_info : Info
response_info = record request_info {
  address = 51;
  target_reference = 5;
  remote_reference = 0;
  creator_pid = 77;
}

abbrev first_request : Message
first_request = new_message request_info command_request note

abbrev first_response : Message
first_response = new_message response_info command_response note

-- Two of three places are taken.
abbrev inbox : Messages
inbox = record {
  messages = first_request ∷ first_response ∷ [];
  index = 0;
  max_size = 3;
  running = true;
  paused = true;
  timeout = false;
  auto_pause_threshold = 60;
  auto_pause_restore = 40;
  auto_pause_timeout = 0;
}

inbox-IsKept : IsKept inbox
inbox-IsKept = record {
  runs = refl;
  within = λ h. omega arith;
  placed = λ h. absurd (omega (arith, h));
}

abbrev used : List Uses.Use
used =
    Uses.arrives request_info 1 note
    ∷ Uses.pauses
    ∷ Uses.rotates 5
    ∷ Uses.removes 50
    ∷ Uses.timed_pauses 9
    ∷ Uses.begins_timeout
    ∷ Uses.limits 1
    ∷ []

run_uses-IsOrderly_example :
    IsKept (run_uses machine used inbox)
    × (IsAwake machine inbox
        → any may_pause used ≡ false
        → IsAwake machine (run_uses machine used inbox))
    × IsAwake machine (run_use machine Uses.takes (run_uses machine used inbox))
run_uses-IsOrderly_example = run_uses-IsOrderly machine used inbox machine-IsIndexed inbox-IsKept

passes_refines_example :
    (reads machine (Order.arrives request_info 1 note ∷ Order.takes ∷ []) inbox
      ≡ fifo_reads 3
          (Order.arrives request_info 1 note ∷ Order.takes ∷ [])
          (first_request ∷ first_response ∷ []))
    × ((passes machine (Order.arrives request_info 1 note ∷ Order.takes ∷ []) inbox).messages
        ≡ fifo 3
            (Order.arrives request_info 1 note ∷ Order.takes ∷ [])
            (first_request ∷ first_response ∷ []))
passes_refines_example =
    passes_refines machine (Order.arrives request_info 1 note ∷ Order.takes ∷ []) inbox refl

response_waits : check_responses 5 inbox ≡ 1
unfolding check_responses find_by_reference count new_message message_from info_of
response_waits = refl

rotate_response-takes_example :
    (x : Message) × ((rotate_response 5 inbox).0 ≡ some x)
    × (find_by_reference 5 x ≡ true)
    × (find (find_by_reference 5) inbox.messages ≡ some x)
    × ((q : Message → Bool)
        → count q (remove_current_message machine (rotate_response 5 inbox).1).1.messages
            + (if q x then 1 else 0)
          ≡ count q inbox.messages)
    × (check_responses 5 (remove_current_message machine (rotate_response 5 inbox).1).1 + 1
        ≡ check_responses 5 inbox)
rotate_response-takes_example =
    rotate_response-takes machine 5 inbox (omega (arith, response_waits))

abbrev around : Around
around = record { getpid = 77; answers = on_complete; machine = machine; command_ready = λ c. true }

abbrev local : Local
local = record {
  prepared = two_prepared;
  statuses = two_statuses;
  messages = inbox;
  blocking = record at_start { block_remote_flag = false };
  isolated = false;
  client_type = 0;
  client_name = ada;
  server_name = bob;
}

nothing_there : view two_prepared 12 ≡ none
unfolding find find_command_handle
nothing_there = refl

register_remote_cases_example :
    let r = register_remote around command_remote 12 request_info (some asks) local in
    (is_passed around command_remote (some asks) local ≡ false → IsDeclined local r)
    × (is_passed around command_remote (some asks) local ≡ true
        → IsPassed command_remote request_info (some asks) 12 local r)
register_remote_cases_example =
    register_remote_cases around command_remote 12 request_info (some asks) local nothing_there
      (omega arith)

-- The answerer prepares the response that `copy_response` describes.
abbrev blank : Prepared
blank = record asks { handle = 20; execute_type = command_response }

abbrev answer : Prepared
answer = (copy_response 50 inbox blank).1

abbrev lamp_sends : Sender
lamp_sends = record ada_sends { entity_name = lamp }

abbrev answered : Prepared
answered = addressed lamp_sends 1 false answer

answer_there : view (answer ∷ []) 20 ≡ some answer
unfolding find find_command_handle copy_response answer_to validate_message has_message_handle
    new_message message_from info_of
answer_there = refl

answer_sent : (transmit_command lamp_sends 20 1 false (answer ∷ [])).2 ≡ some answered
unfolding transmit_command may_transmit check_all find find_command_handle copy_response answer_to
    validate_message has_message_handle new_message message_from info_of
answer_sent = refl

request_kept :
    validate_message 50 inbox ≡ some (new_message (info_of lamp 50 asked) command_request note)
unfolding validate_message find has_message_handle new_message message_from info_of
request_kept = refl

is_response : check_all command_response command_response ≡ true
unfolding check_all
is_response = refl

response_returns_example :
    ((copy_response 50 inbox blank).1.target_entity ≡ asked.orig_entity)
    × HasReached around event_complete local 5
        (update_local_command_status around command_response
          (info_of lamp 52 answered)
          event_complete
          local).1
    × HasReached around event_complete local 5
        (update_remote_command_status around command_response
          (info_of lamp 52 answered)
          event_complete
          local).1
response_returns_example =
    response_returns around command_response event_complete local ada_sends lamp_sends 10 50 20 5 1
      50 52 false false lamp lamp two_prepared (answer ∷ []) asks asked blank answer answered inbox
      note two_statuses-HasDistinctKeys is_response (omega arith) asks_there refl refl asked_sent
      request_kept answer_there refl refl refl answer_sent
