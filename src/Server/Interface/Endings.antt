-- ===== src/Server/Interface/Endings.antt =====
-- Requests that end other clients: libs/server/api-server.cpp, behind the permissions of
-- libs/server/execute-thread.cpp.
use rservr.Base.{ℕ, Bool, true, false, Option, none, some, if◌then◌else◌, Text}
use rservr.Flags.{◌\/◌, check_all, type_admin_client, type_server_control}
use rservr.Server.{Server, Client}
use rservr.Server.Clients.{get_client_id, get_client_id_name}
use rservr.Server.Services.{get_service_client_handle}
use rservr.Server.Removal.{terminate_running_client, remove_client_pid, remove_client_expression}
use rservr.Terminal.{Terminal, Session, same_pid}

abbrev pub refused : Server × Terminal → Bool × Server × Terminal
refused (s, t) = (false, s, t)

abbrev pub Ending : Type 0
Ending = Client → Server × Terminal → Bool × Server × Terminal

unfoldable pub gated_ending :
    ℕ → Option Client → Ending → Server × Terminal → Bool × Server × Terminal
gated_ending required none request st = refused st
gated_ending required (some c) request st =
    if check_all c.client_type required then request c st else refused st

-- The client of the name, and for a client with server control also the owner of a service.
unfoldable pub named_target : Server → Client → Text → Option Client
named_target s c name = elim (get_client_id_name s name) [
  | some d ↦ some d
  | none ↦
      if check_all c.client_type type_server_control
      then get_client_id s (get_service_client_handle s name)
      else none
]

unfoldable pub end_named : Session → Bool → Text → Ending
end_named session mode name c st = elim (named_target st.0 c name) [
  | none ↦ refused st
  | some d ↦
      if same_pid d.process_id c.process_id
      then refused st
      else terminate_running_client session mode d.handle st
]

unfoldable pub end_matching : Session → Bool → (Text → Bool) → Ending
end_matching session mode matches c st =
    remove_client_expression session mode c.process_id matches st

unfoldable pub end_process : Session → Bool → Option ℕ → Ending
end_process session mode pid c st =
    if same_pid pid c.process_id then refused st else remove_client_pid session mode pid st

abbrev may_kill : ℕ
may_kill = type_admin_client \/ type_server_control

unfoldable pub terminate_client :
    Session → Option Client → Text → Server × Terminal → Bool × Server × Terminal
terminate_client session oc name st =
    gated_ending type_admin_client oc (end_named session false name) st

unfoldable pub kill_client :
    Session → Option Client → Text → Server × Terminal → Bool × Server × Terminal
kill_client session oc name st = gated_ending may_kill oc (end_named session true name) st

unfoldable pub terminate_find_client :
    Session → Option Client → (Text → Bool) → Server × Terminal → Bool × Server × Terminal
terminate_find_client session oc matches st =
    gated_ending type_admin_client oc (end_matching session false matches) st

unfoldable pub kill_find_client :
    Session → Option Client → (Text → Bool) → Server × Terminal → Bool × Server × Terminal
kill_find_client session oc matches st =
    gated_ending may_kill oc (end_matching session true matches) st

unfoldable pub terminate_pid_client :
    Session → Option Client → Option ℕ → Server × Terminal → Bool × Server × Terminal
terminate_pid_client session oc pid st =
    gated_ending type_admin_client oc (end_process session false pid) st

-- `interface_kill_pid_client` passes `false`, as the request to terminate does.
unfoldable pub kill_pid_client :
    Session → Option Client → Option ℕ → Server × Terminal → Bool × Server × Terminal
kill_pid_client session oc pid st = gated_ending may_kill oc (end_process session false pid) st
