-- ===== src/Client/Streams.antt =====
-- libs/client/api-command-queue.cpp: commands that go to another server over a stream, and those that
-- come from there.
pub mod Queued
pub mod Crossing
pub mod Targets
use rservr.Base.{
  ℕ, List, [], ◌∷◌, Bool, true, false, not, ◌&&◌, ◌||◌, Option, none, some, Text, is_empty, ◌==◌,
  if◌then◌else◌, is_some, or_else,
}
use rservr.Flags.{check_all, type_resource_client}
use rservr.Address.{insert_separate_scope, insert_remote_client, next_address_scope}
use rservr.Address.Labels.{check_entity_label, check_address_label, check_next_to_client}
use rservr.Client.Commands.{
  Prepared, queue_new_command, forward_command, insert_remote_scope, set_server_address,
  set_response_entity,
}

-- `multi_result`
pub data MultiResult : Type 0 where
  result_success result_fail result_invalid : MultiResult

-- What a call of the parser finds: whether the mode of the input could be set, the command it read,
-- whether the input has ended, and whether the command is complete.
pub record Reading : Type 0 where
  pub mode_set : Bool
  pub parsed : Option Prepared
  pub terminated : Bool
  pub command_ready : Bool

-- The process's own name, the regular expressions of labels, and the type of the client.
pub record Place : Type 0 where
  pub entity_name : Text
  pub entity_matches : Text → Bool
  pub address_matches : Text → Bool
  pub local_type : ℕ

-- A command from the neighbour at an address: its client and the neighbour's address go in front of
-- the way back, and the hop that it took leaves the way to come.
unfoldable pub arrived : Place → Option Text → Text → Prepared → Prepared
arrived here name address c =
    let (entity, way_back) =
      insert_separate_scope c.orig_entity c.orig_address (or_else name here.entity_name) address in
    record c {
      orig_entity = entity;
      orig_address = way_back;
      target_address = next_address_scope c.target_address;
    }

queued_as : ℕ → Prepared → List Prepared → List Prepared
queued_as handle c q = queue_new_command (record c { handle = handle }) q

inserted : Place → ℕ → Option Prepared → Option Text → Text → List Prepared → ℕ × List Prepared
unfolding queued_as arrived
inserted here handle none name address q = (0, q)
inserted here handle (some c) name address q =
    (handle, queued_as handle (arrived here name address c) q)

-- The handle is the address of the new command.
unfoldable pub insert_remote_command :
    Place → ℕ → Option Prepared → Option Text → Text → List Prepared → ℕ × List Prepared
unfolding inserted
insert_remote_command here handle parsed name address q =
    if not (check_entity_label here.entity_matches (some address))
    then (0, q)
    else inserted here handle parsed name address q

-- What follows once a command was read. `was` is what the caller's handle holds before.
received :
    Place
    → ℕ
    → Reading
    → Prepared
    → Option Text
    → Text
    → List Prepared
    → MultiResult × ℕ × List Prepared
unfolding queued_as arrived
received here handle read c name address q =
    if not read.command_ready
    then (result_success, 0, q)
    else (result_success, handle, queued_as handle (arrived here name address c) q)

refused : Reading → MultiResult
refused read = if read.terminated then result_invalid else result_fail

read_stream :
    Place
    → ℕ
    → ℕ
    → Reading
    → Option Prepared
    → Bool
    → Option Text
    → Text
    → List Prepared
    → MultiResult × ℕ × List Prepared
unfolding received refused
read_stream here handle was read none ended name address q = (refused read, was, q)
read_stream here handle was read (some c) ended name address q =
    if ended then (refused read, was, q) else received here handle read c name address q

-- From the shared input, which is refused when it has ended, even with a command.
unfoldable pub receive_stream_command :
    Place → ℕ → ℕ → Reading → Option Text → Text → List Prepared → MultiResult × ℕ × List Prepared
unfolding read_stream
receive_stream_command here handle was read name address q =
    if not (check_entity_label here.entity_matches (some address))
    then (result_fail, was, q)
    else if not read.mode_set
    then (result_fail, was, q)
    else read_stream here handle was read read.parsed read.terminated name address q

-- From an input with its own buffer, where a command that was read counts.
unfoldable pub filtered_receive_stream_command :
    Place → ℕ → ℕ → Reading → Option Text → Text → List Prepared → MultiResult × ℕ × List Prepared
unfolding read_stream
filtered_receive_stream_command here handle was read name address q =
    if not (check_entity_label here.entity_matches (some address))
    then (result_fail, was, q)
    else if not read.mode_set
    then (result_fail, was, q)
    else read_stream here handle was read read.parsed false name address q

-- What the output of a stream answers.
pub record Stream : Type 0 where
  pub command_sendable : Prepared → Bool
  pub export_data : Prepared → Bool
  pub is_closed : Prepared → Bool

streamed : Stream → Option Prepared → MultiResult
streamed out none = result_fail
streamed out (some c) =
    if out.command_sendable c && out.export_data c
    then result_success
    else if out.is_closed c
    then result_invalid
    else result_fail

-- What is read where a command was written whole: the fields that are transmitted. Those for local
-- use are the ones of a new command, and its type is found there by the command's name. The address
-- of the new command is not known yet.
unfoldable pub transmitted : ℕ → Prepared → Prepared
transmitted type c = record {
  handle = 0;
  orig_entity = c.orig_entity;
  orig_address = c.orig_address;
  target_entity = c.target_entity;
  target_address = c.target_address;
  execute_type = type;
  priority = c.priority;
  orig_reference = c.orig_reference;
  target_reference = c.target_reference;
  remote_reference = c.remote_reference;
  creator_pid = c.creator_pid;
  no_send = false;
  silent_auto_response = c.silent_auto_response;
}

-- The result, the command as it was given to the stream, local fields included, and the queue.
unfoldable pub filtered_send_stream_command :
    Stream → ℕ → List Prepared → MultiResult × Option Prepared × List Prepared
unfolding streamed
filtered_send_stream_command out handle q =
    let (copied, left) = forward_command handle q in
    if handle == 0 then (result_fail, none, q) else (streamed out copied, copied, left)

-- The calls that change where a prepared command goes, behind the checks of their labels.
unfoldable pub set_alternate_sender : Place → ℕ → Text → List Prepared → Bool × List Prepared
set_alternate_sender here handle entity q =
    if not (check_all here.local_type type_resource_client)
    then (false, q)
    else if handle == 0 || not (check_entity_label here.entity_matches (some entity))
    then (false, q)
    else set_response_entity handle entity q

unfoldable pub insert_command_address : Place → ℕ → Text → List Prepared → Bool × List Prepared
insert_command_address here handle target q =
    if is_empty target
    then (true, q)
    else if not (check_address_label here.address_matches (some target))
        || not (check_next_to_client (some target))
    then (false, q)
    else insert_remote_scope handle target q

unfoldable pub insert_remote_target : Place → ℕ → Text → Text → List Prepared → Bool × List Prepared
insert_remote_target here handle client address q =
    if is_empty client
    then (false, q)
    else if not (check_entity_label here.entity_matches (some client))
        || not (check_entity_label here.entity_matches (some address))
    then (false, q)
    else insert_remote_scope handle (insert_remote_client address client) q

unfoldable pub insert_service_address : Place → ℕ → Text → List Prepared → Bool × List Prepared
insert_service_address here handle service q =
    if is_empty service
    then (false, q)
    else if not (check_entity_label here.entity_matches (some service))
    then (false, q)
    else insert_remote_scope handle (insert_remote_client [] service) q

unfoldable pub set_target_to_server_of :
    Place → ℕ → Text → Text → List Prepared → Bool × List Prepared
set_target_to_server_of here handle client address q =
    if is_empty client
    then (false, q)
    else if not (check_entity_label here.entity_matches (some client))
    then (false, q)
    else if not (check_address_label here.address_matches (some address))
        || not (check_next_to_client (some address))
    then (false, q)
    else set_server_address handle client address q
