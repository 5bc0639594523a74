-- ===== src/Server.antt =====
-- The server's tables and what it sends. libs/server/local-include/local-client.hpp (`client_id`),
-- service-list.hpp (`registered_service`) and monitor-list.hpp; the tables themselves are the
-- ordered containers that the server keeps them in, read as lists.
pub mod Clients
pub mod Services
pub mod Monitors
pub mod Naming
pub mod Register
pub mod Route
pub mod Execute
pub mod Removal
pub mod Interface
pub mod Sound
pub mod Names
pub mod Settings
use rservr.Base.{ℕ, List, [], ◌∷◌, Bool, Option, Text}

-- `client_id`. A handle is the address of the record, and 0 the null pointer. A process of which
-- the server holds no number (-1) is `none`, and a detached client has number 0.
pub record Client : Type 0 where
  pub handle : ℕ
  pub fresh_client : Bool
  pub critical : Bool
  pub is_detached : Bool
  pub client_name : Text
  pub primary_service : Text
  pub process_id : Option ℕ
  pub client_type : ℕ
  pub min_priority : ℕ
  pub max_permissions : ℕ
  pub max_new_client : ℕ
  pub total_errors : ℕ
  pub total_invalid : ℕ
  pub total_waiting : ℕ
  pub reference : ℕ
  pub notify : ℕ

-- An element of `service_list`: the key and the `registered_service`.
pub record Service : Type 0 where
  pub owner : ℕ
  pub service_name : Text
  pub service_type : Text
  pub service_location : Text

-- An element of the list of exit monitors: who watches, which client, and under which name.
pub record ExitMonitor : Type 0 where
  pub watcher : ℕ
  pub client : ℕ
  pub name : Text

-- The fields of `command_transmit` that the server reads or writes, and the permissions that its
-- command asks of a receiver.
pub record Command : Type 0 where
  pub orig_entity : Text
  pub target_entity : Text
  pub target_address : Text
  pub execute_type : ℕ
  pub permissions : ℕ
  pub priority : ℕ
  pub penalty : ℕ
  pub wait_start : ℕ
  pub creator_pid : ℕ

-- What leaves the server: answers to senders, commands to receivers, notices of registration
-- attempts, timing tables, updates for monitors, and signals.
pub data Event : Type 0 where
  response : Command → ℕ → Event
  delivered : ℕ → Command → Event
  register_attempt : ℕ → ℕ → Bool → Event
  timing_table : ℕ → Event
  client_registered client_deregistered : Option ℕ → Text → Event
  service_registered service_deregistered : Option ℕ → Service → Event
  client_exit resource_exit : ℕ → Text → Event
  register_signal : ℕ → Bool → Event
  client_stopped : Option ℕ → Event
  client_detached : ℕ → Event

-- The tables of `protected_server`, the waiting commands with the handles of their senders (in
-- order of insertion), the process to signal once all clients have registered (0 for none), and
-- what has been sent, newest first.
pub record Server : Type 0 where
  pub clients : List Client
  pub services : List Service
  pub event_monitors : List (ℕ × ℕ)
  pub exit_monitors : List ExitMonitor
  pub waiting : List (ℕ × Command)
  pub register_process : ℕ
  pub notify_status : Bool
  pub exiting : Bool
  pub sent : List Event

abbrev pub emit : Event → Server → Server
emit e s = record s { sent = e ∷ s.sent }
