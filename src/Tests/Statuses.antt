-- ===== src/Tests/Statuses.antt =====
-- Sent commands and the events that are reported for them. Functor 1 waits for completion.
use rservr.Base.{
  ℕ, zero, suc, any, find, ◌≡◌, ◌<◌, refl, [], ◌∷◌, true, false, none, some, if◌then◌else◌, ltb,
  arith,
}
use rservr.Flags.{check_any, event_complete, event_received_client, event_unavailable, event_error}
use rservr.Client.Status.{
  Status, Statuses, Answers, Sending, Conditions, Cycle, find_by_key, update_status,
  find_command_status, send_command_functors, wait_cycles, cancelable_wait_command_event,
}
use rservr.Client.Status.Events.{entry, HasDistinctKeys}
use rservr.Client.Status.History.{
  report_all, remaining, all_left, accumulate, find_command_status-report_all,
}
use rservr.Client.Status.Sent.{IsNumbered, IsSent, send_command_functors-IsSent}
use rservr.Client.Status.Waiting.{
  IsOver, IsQuiet, wait_cycles_ends, cancelable_wait_command_event_reports,
}
use rservr.Tests.Prepared.{two_prepared, ada_sends}

abbrev pub on_complete : Answers
on_complete = λ f reference event status. check_any event event_complete

abbrev pub waits_for_five : Status
waits_for_five = record { local_callbacks = 1 ∷ []; local_status = 0 }

abbrev pub two_statuses : Statuses
two_statuses = (4, record { local_callbacks = []; local_status = 0 }) ∷ (5, waits_for_five) ∷ []

pub two_statuses-HasDistinctKeys : HasDistinctKeys two_statuses
unfolding any find_by_key
two_statuses-HasDistinctKeys = (refl, (refl, tt))

five_there : entry two_statuses 5 ≡ some (5, waits_for_five)
unfolding find find_by_key
five_there = refl

update_status_test :
    (update_status on_complete 5 event_complete two_statuses).1
    ≡ (4, record { local_callbacks = []; local_status = 0 }) ∷ []
unfolding update_status find find_by_key check_any
update_status_test = refl

find_command_status-report_all_example :
    let events = event_received_client ∷ event_error ∷ [] in
    let gone = all_left on_complete 5 waits_for_five events in
    let left : Status = record {
      local_callbacks = remaining on_complete 5 0 (1 ∷ []) events;
      local_status = accumulate 0 events;
    } in
    (entry (report_all on_complete 5 events two_statuses) 5
      ≡ (if gone then none else some (5, left)))
    × (find_command_status 5 (report_all on_complete 5 events two_statuses)
        ≡ (if gone then event_unavailable else accumulate 0 events))
find_command_status-report_all_example =
    find_command_status-report_all on_complete 5 (event_received_client ∷ event_error ∷ [])
      two_statuses waits_for_five two_statuses-HasDistinctKeys five_there

abbrev may_go : Conditions
may_go = record {
  su_violation = false;
  message_queue_status = true;
  sender = ada_sends;
  answers = on_complete;
}

abbrev before_six : Sending
before_six = record {
  prepared = two_prepared;
  statuses = two_statuses;
  next_reference = 6;
  standby_reset = false;
}

two_statuses-IsNumbered : IsNumbered two_statuses 6
two_statuses-IsNumbered = record {
  distinct = two_statuses-HasDistinctKeys;
  below = omega arith;
  positive = omega arith;
}

send_command_functors-IsSent_example :
    IsSent may_go 10 before_six (2 ∷ []) (send_command_functors may_go 10 (2 ∷ []) before_six)
send_command_functors-IsSent_example =
    send_command_functors-IsSent may_go 10 (2 ∷ []) before_six two_statuses-IsNumbered (omega arith)

-- It is received in the second cycle, and complete in the fourth.
abbrev slow : ℕ → Cycle
slow i = record {
  status = if ltb i 1 then 0 else if ltb i 3 then event_received_client else event_complete;
  running = true;
  cancelled = false;
}

slow-IsQuiet : (j : ℕ) → j < 3 → IsQuiet slow event_complete 10 100 (slow j)
unfolding check_any
slow-IsQuiet zero lt = refl
slow-IsQuiet (suc zero) lt = refl
slow-IsQuiet (suc (suc zero)) lt = refl
slow-IsQuiet (suc (suc (suc j))) lt = absurd (omega arith)

slow_found : check_any (slow 3).status event_complete ≡ true
unfolding check_any
slow_found = refl

wait_cycles_ends_example :
    IsOver slow event_complete 10 100
      (wait_cycles slow event_complete 10 100 101 0 event_unavailable).0
wait_cycles_ends_example =
    wait_cycles_ends slow event_complete 10 100 101 0 event_unavailable (omega arith) (omega arith)
      (omega arith)

cancelable_wait_command_event_reports_example :
    cancelable_wait_command_event false false slow 5 event_complete 10 100 ≡ event_complete
cancelable_wait_command_event_reports_example =
    cancelable_wait_command_event_reports slow 5 event_complete 10 100 3 (omega arith) (omega arith)
      (omega arith) (omega arith) slow-IsQuiet (omega arith) slow_found
