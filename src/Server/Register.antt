-- ===== src/Server/Register.antt =====
-- libs/server/client-list.cpp, `set_registered_client_type`: a client takes a type and a name, or
-- gives them up by asking for no type. Each part of the function is a definition of its own.
pub mod Permits
pub mod Effects
use Prim.Native.Nat.{bit_and}
use rservr.Base.{
  ℕ, List, [], ◌∷◌, Bool, true, false, Option, none, some, ◌&&◌, not, ◌==◌, if◌then◌else◌, Text,
  is_empty, any,
}
use rservr.Flags.{
  ◌&◌, ◌\/◌, bit_not, check_all, check_any, type_none, type_any_client, type_monitor_client,
  type_admin_client, type_all_clients, type_deny_name_mask, type_deny_name, type_require_name,
  type_server_control, type_detached_client,
}
use rservr.Server.{Server, Client, emit, timing_table, client_registered, client_deregistered}
use rservr.Server.Clients.{
  get_client_id, change_client, notify_target, notify_register_attempt, continue_if_settled,
}

-- Monitoring is disabled for the client, and it asks for more than to be a monitor.
unfoldable pub drops_monitor : ℕ → ℕ → Bool
drops_monitor max_permissions type =
    check_all max_permissions type_any_client
    && (not (check_all max_permissions type_monitor_client)
        && not (check_all type_monitor_client (type & type_all_clients)))

-- The type after `tType &= ~type_monitor_client`, where that is done.
unfoldable pub without_monitor : ℕ → ℕ → ℕ
unfolding drops_monitor
without_monitor max_permissions type =
    if drops_monitor max_permissions type then type & bit_not type_monitor_client else type

-- permission_pass
unfoldable pub permission_pass : ℕ → ℕ → Bool
permission_pass max_permissions type = check_all max_permissions (type & type_all_clients)

-- How the checks of the name and of a registration that is there already end.
pub data Refusal : Type 0 where
  accepted silent notified : Refusal

unfoldable pub check_request : Client → Text → ℕ → Refusal
unfolding permission_pass
check_request c name type =
    if not (permission_pass c.max_permissions type)
    then notified
    else if not (type == type_none)
    then (if not (is_empty name)
        then (if (type & type_deny_name_mask) == type_deny_name
            then notified
            else if c.client_type == type_none
            then accepted
            else notified)
        else if check_any type type_require_name
        then notified
        else if c.client_type == type_none
        then accepted
        else notified)
    else if not (is_empty name)
    then silent
    else accepted

-- An admin client keeps server control only if it may have it; a detached client is marked.
unfoldable pub adjusted : Client → ℕ → ℕ
adjusted c type =
    let kept =
      if check_all type type_admin_client
      then (if check_all c.max_permissions type_server_control
          then type
          else type & bit_not type_server_control)
      else type in
    if c.is_detached
    then (if kept == type_none then kept else kept \/ type_detached_client)
    else kept

-- The new type of the client, and of the caller.
unfoldable pub granted : Client → ℕ → ℕ
unfolding adjusted
granted c type = adjusted c type & c.max_permissions

-- A fresh client that registers: ready at once, or (with `disable`) by a later call.
unfoldable pub settle : Client → Option Client → Bool → ℕ → Server → Server
settle c target disable type s =
    if type == type_none
    then s
    else if not c.fresh_client
    then s
    else if disable
    then (let back : ℕ = elim target [ none ↦ 0 | some t ↦ t.handle ] in
        change_client c.handle (λ d. record d { notify = back; reference = c.reference }) s)
    else notify_register_attempt target c.reference true
        (continue_if_settled (change_client c.handle (λ d. record d { fresh_client = false }) s))

-- The end of the function, once the request is accepted.
unfoldable pub take_type : Client → Option Client → Text → ℕ → Bool → Server → Server
take_type c target name type disable s =
    let new_type = granted c type in
    let named =
      change_client c.handle (λ d. record d { client_type = new_type; client_name = name }) s in
    let timed = if new_type == type_none then named else emit (timing_table c.handle) named in
    let settled = settle c target disable new_type timed in
    if new_type == type_none
    then emit (client_deregistered c.process_id c.client_name) settled
    else emit (client_registered c.process_id name) settled

unfoldable pub finish :
    Refusal → Client → Option Client → Text → ℕ → Bool → Server → Bool × ℕ × Server
finish accepted c target name type disable s =
    (true, granted c type, take_type c target name type disable s)
finish silent c target name type disable s = (false, type, s)
finish notified c target name type disable s =
    (false, type, notify_register_attempt target c.reference false s)

-- The result, the type that the caller gets back, and the server.
unfoldable pub set_registered_client_type : ℕ → Text → ℕ → Bool → Server → Bool × ℕ × Server
set_registered_client_type handle name type disable s = elim (get_client_id s handle) [
  | none ↦ (false, type, s)
  | some c ↦
      let target = notify_target s c.notify c.reference in
      let cleared = change_client handle (λ d. record d { notify = 0; reference = 0 }) s in
      let asked = without_monitor c.max_permissions type in
      finish (check_request c name asked) c target name asked disable cleared
]
