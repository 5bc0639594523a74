-- ===== src/Server/Monitors.antt =====
-- libs/server/monitor-list.cpp: who watches which events, and who watches whose exit.
pub mod Laws
pub mod Updates
use rservr.Base.{
  ℕ, ◌+◌, List, [], ◌∷◌, ◌++◌, Bool, true, false, Option, none, some, ◌&&◌, ◌||◌, not, ◌==◌,
  if◌then◌else◌, Text, text_eq, is_empty, find, any, keep, drop_where, update_first,
}
use rservr.Flags.{monitor_none, check_any}
use rservr.Server.{Server, ExitMonitor, emit, resource_exit}
use rservr.Server.Clients.{get_client_id}
use rservr.Base.{is_some}
use rservr.Server.Clients.{has_handle}

abbrev pub watches : ℕ → ℕ × ℕ → Bool
watches handle (key, events) = key == handle

-- `f_remove_duplicates` by key keeps the first entry of each key.
unfoldable pub unique : List (ℕ × ℕ) → List (ℕ × ℕ)
unique [] = []
unique ((key, events) ∷ rest) = (key, events) ∷ drop_where (watches key) (unique rest)

unfoldable pub set_client_monitoring : ℕ → ℕ → Server → Server
unfolding unique
set_client_monitoring handle events s =
    let changed =
      if events == monitor_none
      then drop_where (watches handle) s.event_monitors
      else if any (watches handle) s.event_monitors
      then update_first (watches handle) (λ e. (e.0, events)) s.event_monitors
      else s.event_monitors ++ ((handle, events) ∷ []) in
    record s { event_monitors = unique changed }

unfoldable pub clear_client_monitoring : ℕ → Server → Server
clear_client_monitoring handle s = record s {
  event_monitors = drop_where (watches handle) s.event_monitors;
  exit_monitors = drop_where (λ m. m.watcher == handle) s.exit_monitors;
}

-- exit_monitor's `==`: by the value, whoever watches.
abbrev pub same_exit : ℕ → Text → ExitMonitor → Bool
same_exit client name m = (m.client == client) && text_eq m.name name

unfoldable pub add_exit_monitor : ℕ → ℕ → Text → Server → Bool × Server
add_exit_monitor handle client name s =
    if any (same_exit client name) s.exit_monitors then (false, s) else (
      true,
      record s {
        exit_monitors =
            s.exit_monitors ++ (record { watcher = handle; client = client; name = name } ∷ []);
      },
    )

unfoldable pub remove_exit_monitor : ℕ → ℕ → Text → Server → Bool × Server
remove_exit_monitor handle client name s =
    if any (same_exit client name) s.exit_monitors
    then (true, record s { exit_monitors = drop_where (same_exit client name) s.exit_monitors })
    else (false, s)

-- exit_compare: no name stands for every name.
unfoldable pub exits_as : ℕ → Text → ExitMonitor → Bool
exits_as client name m = (text_eq m.name name || is_empty name) && (m.client == client)

-- get_exit_current_clients: the monitors of the exit whose watchers are in the table.
unfoldable pub exit_receivers : ℕ → Text → Server → List ExitMonitor
exit_receivers client name s =
    keep (λ m. is_some (get_client_id s m.watcher)) (keep (exits_as client name) s.exit_monitors)

-- The loop over the receivers; a notice that cannot be written is not sent again.
unfoldable pub send_exits : List ExitMonitor → Server → Server
send_exits [] s = s
send_exits (m ∷ ms) s = send_exits ms (emit (resource_exit m.watcher m.name) s)

unfoldable pub send_exit_update : ℕ → Text → Server → Server
unfolding exit_receivers send_exits
send_exit_update client name s =
    if is_empty s.exit_monitors || is_empty s.clients
    then s
    else send_exits (exit_receivers client name s)
        (record s { exit_monitors = drop_where (exits_as client name) s.exit_monitors })
