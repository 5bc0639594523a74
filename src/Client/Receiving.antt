-- ===== src/Client/Receiving.antt =====
-- `external_client_interface` (libs/client/api-message-queue.cpp): what a command does that a client
-- receives. `current_type` is the type of the command that is executed.
pub mod Guards
pub mod Remote
pub mod Replies
use rservr.Base.{
  ℕ, List, [], ◌∷◌, Bool, true, false, not, ◌&&◌, ◌||◌, Option, none, some, Text, is_empty, ◌==◌,
  if◌then◌else◌,
}
use rservr.Flags.{
  ◌\/◌, check_all, command_builtin, command_privileged, command_request, command_response,
  command_remote, command_null, directed_terminate, directed_disconnect,
}
use rservr.Address.{next_client_scope}
use rservr.Client.Commands.{Prepared, queue_new_command, remove_command}
use rservr.Client.Status.{Answers, Statuses, update_status}
use rservr.Client.Messages.{Content, no_message, pending, Info, Incoming, Machine, Messages}
use rservr.Client.Messages.Keeping.{add_new_message}
use rservr.Client.Messages.Blocking.{
  Blocking, block_messages_status, allow_responses_status, allow_privileged_responses_status,
}

pub record Local : Type 0 where
  pub prepared : List Prepared
  pub statuses : Statuses
  pub messages : Messages
  pub blocking : Blocking
  pub isolated : Bool
  pub client_type : ℕ
  pub client_name : Text
  pub server_name : Text

-- The process number, the functors, the queue's machine, and whether a copied command is complete.
pub record Around : Type 0 where
  pub getpid : ℕ
  pub answers : Answers
  pub machine : Machine
  pub command_ready : Prepared → Bool

-- `command_info` of a command: the fields of the same names. The handle is that of the message that
-- may be made of it.
unfoldable pub info_of : Text → ℕ → Prepared → Info
info_of name address c = record {
  address = address;
  command_name = name;
  orig_entity = c.orig_entity;
  orig_address = c.orig_address;
  target_entity = c.target_entity;
  target_address = c.target_address;
  orig_reference = c.orig_reference;
  target_reference = c.target_reference;
  remote_reference = c.remote_reference;
  creator_pid = c.creator_pid;
  priority = c.priority;
}

unfoldable pub requirement_fail : ℕ → ℕ → Bool
requirement_fail current required = not (check_all current required)

-- `update_local_command_status` and `update_remote_command_status` differ in the reference.
unfoldable pub update_command_status : Around → ℕ → Info → ℕ → ℕ → Local → Bool × Local
unfolding requirement_fail
update_command_status out current info reference event s =
    let (found, left) = update_status out.answers reference event s.statuses in
    if requirement_fail current command_response
    then (false, s)
    else if not (info.creator_pid == out.getpid)
    then (false, s)
    else (found, record s { statuses = left })

unfoldable pub update_local_command_status : Around → ℕ → Info → ℕ → Local → Bool × Local
unfolding update_command_status
update_local_command_status out current info event s =
    update_command_status out current info info.target_reference event s

unfoldable pub update_remote_command_status : Around → ℕ → Info → ℕ → Local → Bool × Local
unfolding update_command_status
update_remote_command_status out current info event s =
    update_command_status out current info info.remote_reference event s

-- `isolate_client` and `stop_message_queue`
isolate : Local → Local
isolate s = record s {
  isolated = true;
  messages = record s.messages { running = false; paused = false };
}

unfoldable pub send_directive : ℕ → ℕ → Local → Bool × Local
unfolding isolate requirement_fail
send_directive current directive s =
    let ended = if check_all directive directed_terminate then isolate s else s in
    let cut = if check_all directive directed_disconnect then isolate ended else ended in
    if requirement_fail current (command_request \/ command_privileged)
    then (false, s)
    else (directive == 0, cut)

added : Around → Info → ℕ → Incoming → Local → Bool × Local
added out info type incoming s =
    let (done, left) = add_new_message out.machine info type incoming s.messages in
    (done, record s { messages = left })

unfoldable pub register_request : Around → ℕ → Info → Incoming → Local → Bool × Local
unfolding added requirement_fail
register_request out current info request s =
    if requirement_fail current command_request || block_messages_status s.blocking
    then (false, s)
    else added out info command_request request s

unfoldable pub admits_response : ℕ → Blocking → Bool
unfolding requirement_fail
admits_response current b =
    allow_responses_status b
    || allow_privileged_responses_status b
      && not (requirement_fail current (command_builtin \/ command_privileged))

unfoldable pub register_response : Around → ℕ → Info → Incoming → Local → Bool × Local
unfolding added requirement_fail admits_response
register_response out current info response s =
    if requirement_fail current command_response
    then (false, s)
    else if not (requirement_fail current command_remote)
    then (false, s)
    else if not (admits_response current s.blocking)
    then (false, s)
    else if not (info.creator_pid == out.getpid)
    then (false, s)
    else added out info command_response response s

-- The copy of a command that is passed on: at the next client of its route, and marked as not to be
-- sent from here. The second reference of a response is used up by the first passing.
unfoldable pub remote_copy : ℕ → Prepared → Prepared
unfolding requirement_fail
remote_copy current c =
    let (entity, address) = next_client_scope c.target_address in
    record c {
      no_send = true;
      execute_type = c.execute_type \/ command_remote;
      target_entity = entity;
      target_address = address;
      target_reference =
          if not (is_empty c.orig_address) && not (requirement_fail current command_response)
          then c.remote_reference
          else c.target_reference;
    }

abbrev pub pending_at : ℕ → Incoming
pending_at handle = record { response = 0; content = pending handle }

passed_on : Around → ℕ → ℕ → Info → Prepared → Local → Bool × Local
unfolding remote_copy
passed_on out current handle info c s =
    let copy = record (remote_copy current c) { handle = handle } in
    let queued = queue_new_command copy s.prepared in
    let (done, left) =
      add_new_message out.machine info command_remote (pending_at handle) s.messages in
    if not (out.command_ready c)
    then (false, s)
    else if done
    then (true, record s { prepared = queued; messages = left })
    else (false, record s { prepared = (remove_command handle queued).1; messages = left })

shown : Around → ℕ → ℕ → Info → Option Prepared → Local → Bool × Local
unfolding passed_on requirement_fail
shown out current handle info none s = (false, s)
shown out current handle info (some c) s =
    if requirement_fail current command_remote || s.blocking.block_remote_flag
    then (false, s)
    else passed_on out current handle info c s

-- `show_command` gives the command, if there is one; its copy is queued at a new address.
unfoldable pub register_remote : Around → ℕ → ℕ → Info → Option Prepared → Local → Bool × Local
unfolding shown
register_remote out current handle info command s = shown out current handle info command s

unfoldable pub register_message : Around → ℕ → Info → Incoming → Local → Bool × Local
unfolding added requirement_fail
register_message out current info message s =
    if requirement_fail current command_request || block_messages_status s.blocking
    then (false, s)
    else added out info command_null message s

-- `change_local_type` and the setters of the names always succeed.
unfoldable pub update_registration : ℕ → Info → ℕ → Local → Bool × Local
unfolding requirement_fail
update_registration current info type s =
    if requirement_fail current (command_response \/ command_builtin \/ command_privileged)
    then (false, s)
    else (
      true,
      record s {
        client_type = type;
        client_name = info.target_entity;
        server_name = info.orig_entity;
      },
    )
