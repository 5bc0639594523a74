-- ===== src/Tests.antt =====
-- Runs of the definitions on small inputs, and instances of the theorems. The clients, services and
-- commands here are made up: an admin client, a control client, and a resource client that serves.
pub mod Masks
pub mod Addresses
pub mod Routing
pub mod Registration
pub mod Removing
pub mod Executing
pub mod Terminals
pub mod Waiting
pub mod Prepared
pub mod Statuses
pub mod Inbox
pub mod Streaming
pub mod Limits
pub mod Splits
pub mod BitNames
use rservr.Base.{ℕ, ◌+◌, List, [], ◌∷◌, ◌++◌, Bool, true, false, Option, none, some, Text}
use rservr.Flags.{
  ◌\/◌, type_admin_client_all, type_control_client_all, type_resource_client_all, type_none,
  type_any_client, type_client_flags, command_request, command_server, command_builtin,
}
use rservr.Server.{Server, Client, Service, ExitMonitor, Command}
use rservr.Server.Route.{Outside}
use rservr.Terminal.{Terminal, Session, no_control}

abbrev pub ada : Text
ada = b'a' ∷ b'd' ∷ b'a' ∷ []

abbrev pub bob : Text
bob = b'b' ∷ b'o' ∷ b'b' ∷ []

abbrev pub lamp : Text
lamp = b'l' ∷ b'a' ∷ b'm' ∷ b'p' ∷ []

abbrev pub host : Text
host = b'h' ∷ []

abbrev pub client_of : ℕ → Text → ℕ → Client
client_of handle name type = record {
  handle = handle;
  fresh_client = false;
  critical = false;
  is_detached = false;
  client_name = name;
  primary_service = [];
  process_id = some (100 + handle);
  client_type = type;
  min_priority = 0;
  max_permissions = type_client_flags;
  max_new_client = type_none;
  total_errors = 0;
  total_invalid = 0;
  total_waiting = 1;
  reference = 0;
  notify = 0;
}

abbrev pub admin : Client
admin = client_of 1 ada type_admin_client_all

abbrev pub control : Client
control = client_of 2 bob type_control_client_all

-- It serves the lamp, and says so in its own name.
abbrev pub server_client : Client
server_client = record (client_of 3 host type_resource_client_all) {
  primary_service = b'(' ∷ lamp ++ (b')' ∷ []);
}

abbrev pub newcomer : Client
newcomer = record (client_of 4 [] type_none) { fresh_client = true }

abbrev pub lamp_service : Service
lamp_service = record { owner = 3; service_name = lamp; service_type = host; service_location = [] }

abbrev pub exit_monitor : ExitMonitor
exit_monitor = record { watcher = 2; client = 3; name = lamp }

abbrev pub house : Server
house = record {
  clients = admin ∷ control ∷ server_client ∷ newcomer ∷ [];
  services = lamp_service ∷ [];
  event_monitors = (1, 4) ∷ [];
  exit_monitors = exit_monitor ∷ [];
  waiting = [];
  register_process = 0;
  notify_status = false;
  exiting = false;
  sent = [];
}

-- From the control client to the lamp.
abbrev pub switch_on : Command
switch_on = record {
  orig_entity = bob;
  target_entity = lamp;
  target_address = [];
  execute_type = command_request;
  permissions = type_any_client;
  priority = 8;
  penalty = 0;
  wait_start = 0;
  creator_pid = 102;
}

-- To the server, from the control client, under the admin client's name.
abbrev pub for_server : Command
for_server = record switch_on {
  orig_entity = ada;
  target_entity = [];
  execute_type = command_server \/ command_builtin;
}

abbrev pub outside : Outside
outside = record {
  find_command = λ c. some (record c { execute_type = command_server });
  queue_open = true;
  sends = λ handle c. true;
  output_terminated = λ handle. false;
}

abbrev pub session : Session
session = record {
  leads = true;
  in_session = λ pid. true;
  group_of = λ pid. some pid;
  has_terminal = true;
  gives_to = λ pid. true;
  restores = true;
}

abbrev pub held_by_control : Terminal
held_by_control = record {
  terminal_pid = some 102;
  terminal_type = type_control_client_all;
  terminal_priority = 8;
}
