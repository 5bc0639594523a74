-- ===== src/Tests/Prepared.antt =====
-- Prepared commands of a client: one to send, and one that waits to be passed on.
use rservr.Base.{
  ℕ, ◌≡◌, ◌≤◌, count, refl, List, [], ◌∷◌, Bool, true, false, none, some, find, arith,
}
use rservr.Flags.{check_all, command_request}
use rservr.Client.Commands.{
  Prepared, Sender, find_command_handle, may_transmit, addressed, transmit_command,
}
use rservr.Client.Commands.Finding.{view}
use rservr.Client.Commands.Map.{prioritise, transmit, remove, run_call, HasHandles}
use rservr.Client.Commands.Runs.{run_calls, replay, AreFresh, run_calls_refines}
use rservr.Client.Commands.Forwarded.{IsKept, no_send-IsKept}
use rservr.Tests.{ada, lamp}

abbrev pub asks : Prepared
asks = record {
  handle = 10;
  orig_entity = [];
  orig_address = [];
  target_entity = lamp;
  target_address = [];
  execute_type = command_request;
  priority = 0;
  orig_reference = 0;
  target_reference = 0;
  remote_reference = 0;
  creator_pid = 77;
  no_send = false;
  silent_auto_response = false;
}

abbrev pub passing : Prepared
passing = record asks { handle = 11; no_send = true }

abbrev pub two_prepared : List Prepared
two_prepared = asks ∷ passing ∷ []

abbrev pub ada_sends : Sender
ada_sends = record { entity_name = ada; command_sendable = λ c. true; send_output = λ c. true }

abbrev pub asked : Prepared
asked = addressed ada_sends 5 false asks

pub asks_there : view two_prepared 10 ≡ some asks
unfolding find find_command_handle
asks_there = refl

pub passing_there : view two_prepared 11 ≡ some passing
unfolding find find_command_handle
passing_there = refl

pub asked_sent : (transmit_command ada_sends 10 5 false two_prepared).2 ≡ some asked
unfolding transmit_command find find_command_handle may_transmit check_all
asked_sent = refl

single_handle : (k : ℕ) → count (find_command_handle k) two_prepared ≤ 1
unfolding count find_command_handle
single_handle k = ground arith

no_null : view two_prepared 0 ≡ none
unfolding find find_command_handle
no_null = refl

pub two_prepared-HasHandles : HasHandles two_prepared
two_prepared-HasHandles = record { null_free = no_null; single = single_handle }

few_new : AreFresh ada_sends (prioritise 10 9 ∷ transmit 10 5 false ∷ remove 11 ∷ []) two_prepared
unfolding AreFresh
few_new = (tt, (tt, (tt, tt)))

run_calls_refines_example :
    HasHandles
      (run_calls ada_sends (prioritise 10 9 ∷ transmit 10 5 false ∷ remove 11 ∷ []) two_prepared)
    × (view (
          run_calls ada_sends (prioritise 10 9 ∷ transmit 10 5 false ∷ remove 11 ∷ []) two_prepared)
        ≡ replay ada_sends
            (prioritise 10 9 ∷ transmit 10 5 false ∷ remove 11 ∷ [])
            (view two_prepared))
run_calls_refines_example =
    run_calls_refines ada_sends (prioritise 10 9 ∷ transmit 10 5 false ∷ remove 11 ∷ [])
      two_prepared two_prepared-HasHandles few_new

no_send-IsKept_example :
    IsKept passing (view (run_call ada_sends (prioritise 11 3) two_prepared) 11)
    × ((reference : ℕ) (silent : Bool)
        → transmit_command ada_sends 11 reference silent two_prepared ≡ (false, two_prepared, none))
no_send-IsKept_example =
    no_send-IsKept ada_sends (prioritise 11 3) two_prepared 11 passing two_prepared-HasHandles tt
      passing_there refl
