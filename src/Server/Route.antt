-- ===== src/Server/Route.antt =====
-- libs/server/client-list.cpp, `send_client_command`: a command goes from its sender to the client
-- or the service that it names, if the rules allow it.
pub mod Rules
pub mod Judged
pub mod Outcomes
use rservr.Base.{
  ℕ, ◌+◌, ◌-◌, List, [], ◌∷◌, ◌++◌, Bool, true, false, Option, none, some, ◌&&◌, ◌||◌, not, ◌==◌,
  ltb, if◌then◌else◌, Text, text_eq, is_empty, or_else,
}
use rservr.Flags.{
  ◌&◌, check_all, check_any, check_none, type_active_client, type_admin_client, type_service_client,
  type_control_client, type_server_control, type_allow_message, type_allow_response,
  type_only_builtin_response, command_builtin, command_plugin, command_server, command_bypass,
  command_request, command_response, command_remote, command_null, event_error, event_bad_target,
  event_rejected, event_bad_permissions, event_discarded,
}
use rservr.Address.{client_scope_char, prepend_existing_scope, set_to_server_scope}
use rservr.Server.{Server, Client, Command, emit, response, delivered}
use rservr.Server.Clients.{get_client_id, get_client_id_name, change_client}
use rservr.Server.Services.{get_service_client_handle, get_service_address}

-- What is outside of the function: finding a command again by its name (`find_command`), whether
-- `requeue_server_command` could queue a command again, whether a command could be assembled and
-- written to a receiver, and whether that receiver's output is closed for good.
pub record Outside : Type 0 where
  pub find_command : Command → Option Command
  pub queue_open : Bool
  pub sends : ℕ → Command → Bool
  pub output_terminated : ℕ → Bool

-- param.h
abbrev pub requeue_penalty : ℕ
requeue_penalty = 32

abbrev pub penalty_max : ℕ
penalty_max = 256

abbrev pub respond : Command → ℕ → Server → Server
respond cmd event s = emit (response cmd event) s

abbrev pub count_error : ℕ → Server → Server
count_error handle s = change_client handle (λ c. record c { total_errors = c.total_errors + 1 }) s

abbrev pub count_invalid : ℕ → Server → Server
count_invalid handle s =
    change_client handle (λ c. record c { total_invalid = c.total_invalid + 1 }) s

abbrev pub count_waiting : ℕ → Server → Server
count_waiting handle s =
    change_client handle (λ c. record c { total_waiting = c.total_waiting + 1 }) s

abbrev pub forgive_error : ℕ → Server → Server
forgive_error handle s =
    change_client handle
      (λ c. if ltb 0 c.total_errors then record c { total_errors = c.total_errors - 1 } else c) s

-- The originator's name belongs to the sender: as its own name, or as a service that it owns.
-- A command to a target must have an originator.
unfoldable pub origin_allowed : Server → Client → Command → Bool
origin_allowed s sender cmd =
    if is_empty cmd.orig_entity
    then is_empty cmd.target_entity
    else if text_eq sender.client_name cmd.orig_entity
    then true
    else (let actual = get_service_client_handle s cmd.orig_entity in
        not (actual == 0) && (actual == sender.handle))

-- The receiver, and whether it was found as the owner of a service.
unfoldable pub find_receiver : Server → Text → Option (Client × Bool)
find_receiver s target = elim (get_client_id_name s target) [
  | some c ↦ some (c, false)
  | none ↦
      let actual = get_service_client_handle s target in
      if actual == 0
      then none
      else elim (get_client_id s actual) [ none ↦ none | some c ↦ some (c, true) ]
]

pub data Verdict : Type 0 where
  allow : Verdict
  -- the answer, and whether the attempt counts against the sender
  deny : ℕ → Bool → Verdict

abbrev deny_if : Bool → Bool → Verdict → Verdict
deny_if test counts next = if test then deny event_bad_permissions counts else next

abbrev unlike : ℕ → ℕ → Bool
unlike sender receiver = not ((sender & type_allow_message) == (receiver & type_allow_message))

unfoldable pub request_rule : ℕ → ℕ → Bool → Verdict
request_rule sender receiver service =
    deny_if
      (unlike sender receiver
        && (not (service && check_all sender type_control_client)
            || check_all receiver type_admin_client))
      (not (check_all sender type_admin_client)) allow

unfoldable pub response_rule : ℕ → ℕ → ℕ → Verdict
response_rule sender receiver execute_type =
    deny_if
      (unlike sender receiver
        && (not (check_all receiver type_control_client) || check_all sender type_admin_client))
      true
      (if check_none sender type_only_builtin_response
        then deny_if (not (check_any sender type_allow_response)) true allow
        else deny_if (not (check_all execute_type command_builtin)) true allow)

-- The rules, in their order.
unfoldable pub permission_rules : ℕ → ℕ → Bool → Command → Verdict
permission_rules sender receiver service cmd =
    if not (check_all receiver cmd.permissions)
    then deny event_bad_permissions (not (check_all sender type_admin_client))
    else if check_all cmd.execute_type command_bypass
    then deny_if
        (not (check_any sender type_active_client) || not (check_any receiver type_active_client))
        true allow
    else if service
        && not (check_all sender type_service_client || check_all sender type_server_control)
    then deny event_bad_permissions true
    else if not (check_all cmd.execute_type command_plugin)
    then (if check_all cmd.execute_type command_null || check_all cmd.execute_type command_request
        then request_rule sender receiver service
        else if check_all cmd.execute_type command_response
        then response_rule sender receiver cmd.execute_type
        else deny event_rejected false)
    else deny_if
        (not (check_all sender type_active_client) || not (check_all receiver type_active_client))
        true allow

-- A busy receiver: the command waits again with a higher penalty, up to a limit.
unfoldable pub retry : Outside → ℕ → Command → Server → Bool × Server
retry out sender cmd s =
    if ltb penalty_max (cmd.penalty + requeue_penalty)
    then (false, respond cmd event_discarded s)
    else if out.queue_open
    then (
      true,
      count_waiting sender (record s {
        waiting =
            s.waiting ++ ((sender, record cmd { penalty = cmd.penalty + requeue_penalty }) ∷ []);
      }),
    )
    else (false, respond cmd event_discarded s)

unfoldable pub deliver : Outside → ℕ → ℕ → Command → Server → Bool × Server
deliver out sender receiver cmd s =
    if out.sends receiver cmd
    then (true, forgive_error sender (emit (delivered receiver cmd) s))
    else if out.output_terminated receiver
    then (false, respond cmd event_error s)
    else retry out sender cmd s

unfoldable pub judge : Outside → Client → Client → Bool → Command → Server → Bool × Server
judge out sender receiver service cmd s =
    elim (permission_rules sender.client_type receiver.client_type service cmd) [
      | allow ↦ deliver out sender.handle receiver.handle cmd s
      | deny event counts ↦
          (false, respond cmd event (if counts then count_invalid sender.handle s else s))
    ]

-- A command to a local service's own server is looked up again, and waits as a server command.
unfoldable pub requeue_found : Outside → ℕ → Command → Command → Server → Bool × Server
requeue_found out sender cmd found s =
    if not (check_all found.execute_type command_server)
      || check_all found.execute_type command_remote
    then (false, respond cmd event_error s)
    else if out.queue_open
    then (true, count_waiting sender (record s { waiting = s.waiting ++ ((sender, found) ∷ []) }))
    else (false, respond cmd event_discarded s)

unfoldable pub reparse : Outside → ℕ → Command → Server → Bool × Server
reparse out sender cmd s = elim (out.find_command cmd) [
  | none ↦ (false, respond cmd event_error s)
  | some found ↦ requeue_found out sender cmd found s
]

abbrev pub to_service_server : Server → Command → Command
to_service_server s cmd =
    let address = or_else (get_service_address s cmd.target_entity) [] in
    let turned = set_to_server_scope cmd.target_entity address in
    record cmd { target_entity = turned.1; target_address = turned.2 }

-- A command to a service: `?` alone asks for the service's server.
unfoldable pub to_service : Outside → Client → Client → Command → Server → Bool × Server
to_service out sender receiver cmd s =
    if text_eq cmd.target_address (client_scope_char ∷ [])
    then (let turned = to_service_server s cmd in
        if is_empty turned.target_address
        then reparse out sender.handle turned s
        else judge out sender receiver true turned s)
    else (let address =
          prepend_existing_scope cmd.target_address
            (or_else (get_service_address s cmd.target_entity) []) in
        judge out sender receiver true (record cmd { target_address = address }) s)

unfoldable pub to_receiver : Outside → Client → Command → Server → Bool × Server
to_receiver out sender cmd s = elim (find_receiver s cmd.target_entity) [
  | none ↦ (false, respond cmd event_bad_target (count_error sender.handle s))
  | some (receiver, service) ↦
      if service
      then to_service out sender receiver cmd s
      else judge out sender receiver false cmd s
]

unfoldable pub send_client_command : Outside → ℕ → Command → Server → Bool × Server
send_client_command out handle cmd s =
    if handle == 0 then (false, s) else elim (get_client_id s handle) [
      | none ↦ (false, s)
      | some sender ↦
          if origin_allowed s sender cmd
          then to_receiver out sender cmd s
          else (false, respond cmd event_rejected (count_error handle s))
    ]
