-- ===== src/Server/Interface.antt =====
-- What a client may ask of the server: libs/server/api-server.cpp (`interface_*`), each behind the
-- permission that `external_server_interface` of libs/server/execute-thread.cpp asks for. The client
-- is the one that the interface was set to, `none` for the null handle. Requests that create
-- processes, answer with lists or exit the server are left out.
pub mod Endings
use rservr.Base.{
  ℕ, List, [], ◌∷◌, Bool, true, false, Option, none, some, ◌&&◌, ◌||◌, not, ◌==◌, ltb,
  if◌then◌else◌, Text, text_eq, is_empty, length,
}
use rservr.Flags.{
  ◌\/◌, check_all, type_admin_client, type_server_control, type_resource_client,
  type_monitor_client,
}
use rservr.Address.Labels.{check_entity_label, check_address_label}
use rservr.Server.{Server, Client}
use rservr.Server.Clients.{get_client_id, get_client_id_name, manual_update_readiness}
use rservr.Server.Services.{
  add_client_service, remove_indiv_service, remove_handle_services, remove_remote_services,
  get_service_client_handle,
}
use rservr.Server.Monitors.{
  set_client_monitoring, clear_client_monitoring, add_exit_monitor, remove_exit_monitor,
}
use rservr.Server.Naming.{check_names}
use rservr.Server.Register.{set_registered_client_type}

-- The limit of services, and the two regular expressions of labels.
pub record Settings : Type 0 where
  pub max_services : ℕ
  pub entity_label : Text → Bool
  pub address_label : Text → Bool

-- if (!client_handle) return false; if (!check_permission_all(client_type, required)) return false;
abbrev pub Request : Type 0
Request = Client → Server → Bool × Server

unfoldable pub gated : ℕ → Option Client → Request → Server → Bool × Server
gated required none request s = (false, s)
gated required (some c) request s =
    if check_all c.client_type required then request c s else (false, s)

unfoldable pub deregister_all_own_services : Request
deregister_all_own_services c s =
    if check_all c.client_type type_resource_client
    then (true, remove_handle_services c s)
    else (false, s)

-- The tables as `interface_register_client` hands them on.
unfoldable pub forget_client : Client → Server → Server
forget_client c s = (deregister_all_own_services c (clear_client_monitoring c.handle s)).1

unfoldable pub register_client :
    Settings → Option Client → Text → ℕ → Bool → Server → Bool × ℕ × Server
register_client settings none name type disable s = (false, type, s)
register_client settings (some c) name type disable s =
    if not (check_entity_label settings.entity_label (some name))
    then (false, type, s)
    else if not (is_empty name) && not (check_names s (some name))
    then (false, type, s)
    else set_registered_client_type c.handle name type disable (forget_client c s)

unfoldable pub indicate_ready : Option Client → Server → Bool × Server
indicate_ready none s = (false, s)
indicate_ready (some c) s = manual_update_readiness s c.handle

unfoldable pub add_service : Settings → Text → Text → Text → Request
add_service settings name type location c s =
    if not (check_entity_label settings.entity_label (some name))
      || not (check_address_label settings.address_label (some location))
    then (false, s)
    else if not (ltb (length s.services) settings.max_services)
    then (false, s)
    else if not (check_names s (some name))
    then (false, s)
    else (true, add_client_service c name type location s)

unfoldable pub register_service :
    Settings → Option Client → Text → Text → Text → Server → Bool × Server
register_service settings oc name type location s =
    gated type_resource_client oc (add_service settings name type location) s

unfoldable pub deregister_own_service : Option Client → Text → Server → Bool × Server
deregister_own_service oc name s =
    gated type_resource_client oc (λ c. remove_indiv_service c name) s

unfoldable pub deregister_own_services : Option Client → Server → Bool × Server
deregister_own_services oc s = gated type_resource_client oc deregister_all_own_services s

unfoldable pub deregister_remote_services : Option Client → Text → Server → Bool × Server
deregister_remote_services oc location s =
    gated type_resource_client oc (λ c. remove_remote_services c location) s

unfoldable pub set_monitor_types : Option Client → ℕ → Server → Bool × Server
set_monitor_types oc events s =
    gated type_monitor_client oc (λ c t. (true, set_client_monitoring c.handle events t)) s

unfoldable pub deregister_monitor : Option Client → Server → Bool × Server
deregister_monitor oc s =
    gated type_monitor_client oc (λ c t. (true, clear_client_monitoring c.handle t)) s

-- The client of the name, or the owner of the service of the name.
unfoldable pub client_or_owner : Server → Text → Option Client
client_or_owner s name = elim (get_client_id_name s name) [
  | some c ↦ some c
  | none ↦ get_client_id s (get_service_client_handle s name)
]

unfoldable pub watch_exit : Text → Request
watch_exit name c s =
    if is_empty name || text_eq c.client_name name
    then (false, s)
    else elim (client_or_owner s name) [
      | none ↦ (false, s)
      | some watched ↦
          if check_all watched.client_type type_resource_client
          then add_exit_monitor c.handle watched.handle name s
          else (false, s)
    ]

unfoldable pub unwatch_exit : Text → Request
unwatch_exit name c s = if is_empty name then (false, s) else elim (client_or_owner s name) [
  | none ↦ (false, s)
  | some watched ↦ remove_exit_monitor c.handle watched.handle name s
]

unfoldable pub monitor_disconnect : Option Client → Text → Server → Bool × Server
monitor_disconnect oc name s = gated type_resource_client oc (watch_exit name) s

unfoldable pub unmonitor_disconnect : Option Client → Text → Server → Bool × Server
unmonitor_disconnect oc name s = gated type_resource_client oc (unwatch_exit name) s
