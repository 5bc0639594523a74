-- ===== src/Server/Removal.antt =====
-- libs/server/client-list.cpp: a client leaves the table, by its handle, its process or its name.
-- The end of a client's thread, the directive that is sent to it and the delay afterwards are left
-- out. libs/server/local-client.cpp: `kill_ipc`, and what the destructor reports.
pub mod Tables
pub mod Loop
pub mod Everyone
use rservr.Base.{
  ℕ, zero, suc, List, [], ◌∷◌, Bool, true, false, Option, none, some, ◌&&◌, not, ◌==◌,
  if◌then◌else◌, Text, is_empty, is_some, length, find,
}
use rservr.Flags.{type_none}
use rservr.Server.{
  Server, Client, Event, emit, client_exit, client_deregistered, client_stopped, client_detached,
}
use rservr.Server.Clients.{
  has_handle, change_client, notify_target, notify_register_attempt, continue_if_settled,
}
use rservr.Server.Services.{remove_handle_services}
use rservr.Server.Monitors.{clear_client_monitoring}
use rservr.Terminal.{Terminal, Session, return_terminal_control}

-- Remove the first element that passes the test.
unfoldable pub drop_first : {A : Type 0} → (A → Bool) → List A → List A
drop_first p [] = []
drop_first p (x ∷ xs) = if p x then xs else x ∷ drop_first p xs

-- What the removal of a client takes out of the tables of services and monitors; `mode` also stops
-- the client (`kill_ipc`).
unfoldable pub release : Bool → Client → Server → Server
release mode c s =
    let released = remove_handle_services c (clear_client_monitoring c.handle s) in
    if mode then emit (client_stopped c.process_id) released else released

abbrev pub report : Bool → Event → Server → Server
report true e s = emit e s
report false e s = s

-- ~client_id: a process of which the server knows the number also deregisters and detaches.
unfoldable pub detach : Option ℕ → Client → Server → Server
detach none c s = s
detach (some pid) c s =
    emit (client_detached pid)
      (report (not (c.client_type == type_none)) (client_deregistered c.process_id c.client_name) s)

unfoldable pub destroy : Client → Server → Server
unfolding detach
destroy c s =
    detach c.process_id c (report (not c.fresh_client) (client_exit c.handle c.client_name) s)

abbrev pub gives_terminal_back : Session → Client → Terminal → Terminal
gives_terminal_back session c t = elim c.process_id [
  | none ↦ t
  | some pid ↦ if pid == 0 then t else (return_terminal_control session c.process_id t).1
]

-- The tables before the client itself is removed.
unfoldable pub prepare : Bool → Client → Server → Server
prepare mode c s =
    let target = notify_target s c.notify c.reference in
    let cleared = change_client c.handle (λ d. record d { notify = 0; reference = 0 }) s in
    release mode c (notify_register_attempt target c.reference false cleared)

-- Every caller passes the client's own `notify` and `reference`. A critical client stays, and the
-- server exits.
unfoldable pub remove_client_common :
    Session → Bool → Client → Server × Terminal → Bool × Server × Terminal
remove_client_common session mode c (s, t) =
    let prepared = prepare mode c s in
    let returned = if mode then (return_terminal_control session c.process_id t).1 else t in
    if c.critical then (false, record prepared { exiting = true }, returned) else (
      true,
      destroy c (record prepared { clients = drop_first (has_handle c.handle) prepared.clients }),
      gives_terminal_back session c returned,
    )

-- The loop over the clients that match, ended by a critical one.
unfoldable pub remove_matching :
    Session → Bool → (Client → Bool) → ℕ → Server × Terminal → Server × Terminal
remove_matching session mode match zero st = st
remove_matching session mode match (suc fuel) st = elim (find match st.0.clients) [
  | none ↦ st
  | some c ↦
      let (removed, s, t) = remove_client_common session mode c st in
      let more = remove_matching session mode match fuel (s, t) in if removed then more else (s, t)
]

unfoldable pub exit_if_empty : Server → Server
exit_if_empty s = if is_empty s.clients then record s { exiting = true } else s

-- What the three functions below share, with a round for each client.
unfoldable pub remove_all : Session → Bool → (Client → Bool) → Server × Terminal → Server × Terminal
remove_all session mode match st =
    let (s, t) = remove_matching session mode match (length st.0.clients) st in
    (exit_if_empty (continue_if_settled s), t)

abbrev answered : Bool → Server × Terminal → Bool × Server × Terminal
answered result (s, t) = (result, s, t)

unfoldable pub terminate_running_client :
    Session → Bool → ℕ → Server × Terminal → Bool × Server × Terminal
terminate_running_client session mode handle st =
    answered true (remove_all session mode (has_handle handle) st)

-- find_client_pid: 0 finds nothing.
unfoldable pub has_pid : Option ℕ → Client → Bool
has_pid none c = not (is_some c.process_id)
has_pid (some pid) c = not (pid == 0) && (elim c.process_id [ none ↦ false | some q ↦ q == pid ])

unfoldable pub remove_client_pid :
    Session → Bool → Option ℕ → Server × Terminal → Bool × Server × Terminal
remove_client_pid session mode pid st =
    if is_some (find (has_pid pid) st.0.clients)
    then answered true (remove_all session mode (has_pid pid) st)
    else answered false st

-- `matches` is the test of names by a regular expression. Nothing is removed if the client that
-- asks is one of those that match.
unfoldable pub remove_client_expression :
    Session → Bool → Option ℕ → (Text → Bool) → Server × Terminal → Bool × Server × Terminal
remove_client_expression session mode pid matches st =
    let match : Client → Bool = λ c. matches c.client_name in
    let all_others : Bool × Server × Terminal = answered true (remove_all session mode match st) in
    elim (find (has_pid pid) st.0.clients) [
      | none ↦ all_others
      | some c ↦ if match c then answered false st else all_others
    ]
