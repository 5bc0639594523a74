-- ===== src/Tests/Streaming.antt =====
-- A command that goes to another server over a stream.
use rservr.Base.{◌≡◌, refl, [], true, false, none, some, find, arith}
use rservr.Flags.{command_response, type_resource_client}
use rservr.Address.{copy_next_scope, client_scope_char, address_scope_char}
use rservr.Address.Hops.{Free}
use rservr.Address.Labels.{check_entity_label}
use rservr.Client.Commands.{Prepared}
use rservr.Client.Commands.Finding.{view}
use rservr.Client.Receiving.{remote_copy}
use rservr.Client.Streams.{
  result_fail, result_invalid, transmitted, Reading, Place, Stream, arrived, receive_stream_command,
  filtered_receive_stream_command,
}
use rservr.Client.Streams.Queued.{IsAccepted, is_read, receive_stream_command_cases}
use rservr.Client.Streams.Crossing.{crossing_returns}
use rservr.Tests.{ada, bob, lamp, host}
use rservr.Flags.{check_all}
use rservr.Client.Commands.{keeps_address}
use rservr.Client.Commands.Scopes.{PassesOn}
use rservr.Client.Streams.{insert_remote_target, insert_service_address}
use rservr.Client.Streams.Targets.{insert_remote_target_passes}
use rservr.Tests.Prepared.{asks, asks_there, passing, two_prepared}

abbrev far : Place
far = record {
  entity_name = bob;
  entity_matches = λ t. true;
  address_matches = λ t. true;
  local_type = type_resource_client;
}

abbrev near : Place
near = record far { entity_name = ada }

abbrev whole : Reading
whole = record {
  mode_set = true;
  parsed = some (transmitted passing.execute_type passing);
  terminated = true;
  command_ready = true;
}

abbrev open_stream : Stream
open_stream = record {
  command_sendable = λ c. true;
  export_data = λ c. true;
  is_closed = λ c. false;
}

nothing_there : view [] 30 ≡ none
unfolding find
nothing_there = refl

label_fits : check_entity_label far.entity_matches (some host) ≡ true
unfolding check_entity_label
label_fits = refl

receive_stream_command_cases_example :
    let shared = receive_stream_command far 30 7 whole none host [] in
    let filtered = filtered_receive_stream_command far 30 7 whole none host [] in
    let heard = is_read far 30 7 whole none host [] nothing_there in
    let Accepts = IsAccepted far 30 whole in
    (heard ≡ false → (shared ≡ (result_fail, 7, [])) × (filtered ≡ (result_fail, 7, [])))
    × (heard ≡ true
        → whole.parsed ≡ none
        → (shared ≡ (result_invalid, 7, [])) × (filtered ≡ (result_invalid, 7, [])))
    × ((c : Prepared)
        → heard ≡ true
        → whole.parsed ≡ some c
        → Accepts c none host [] filtered
          × (true ≡ false → Accepts c none host [] shared)
          × (true ≡ true → shared ≡ (result_invalid, 7, [])))
receive_stream_command_cases_example =
    receive_stream_command_cases far 30 7 whole none host [] nothing_there

-- The lamp asks, and is answered from the other side.
abbrev asking : Prepared
asking = record passing { orig_entity = lamp }

abbrev answering : Prepared
answering = record passing {
  execute_type = command_response;
  target_entity = bob;
  target_address = (arrived far none host asking).orig_address;
}

lamp-Free : Free client_scope_char lamp
lamp-Free = omega arith

host-Free : Free address_scope_char host
host-Free = omega arith

crossing_returns_example :
    (copy_next_scope (remote_copy command_response answering).target_address ≡ host)
    × ((arrived near none bob (remote_copy command_response answering)).target_entity ≡ lamp)
    × ((arrived near none bob (remote_copy command_response answering)).target_address ≡ [])
crossing_returns_example =
    crossing_returns near far none none host bob command_response asking answering lamp-Free
      host-Free refl

asks_open : keeps_address asks ≡ false
unfolding keeps_address check_all
asks_open = refl

bob_fits : check_entity_label far.entity_matches (some bob) ≡ true
unfolding check_entity_label
bob_fits = refl

insert_remote_target_passes_example :
    PassesOn 10 bob asks (insert_remote_target far 10 bob host two_prepared).1
    × PassesOn 10 bob asks (insert_service_address far 10 bob two_prepared).1
insert_remote_target_passes_example =
    insert_remote_target_passes far 10 bob host two_prepared asks (omega arith) asks_there refl
      asks_open refl bob_fits label_fits ((omega arith, omega arith, omega arith), tt) lamp-Free
