-- ===== src/Terminal.antt =====
-- Control of the server's terminal: libs/server/server-command.cpp (who holds it) and
-- `request_terminal` and `return_terminal` of libs/server/execute-thread.cpp (who may take it). What
-- the operating system answers about sessions, process groups and the terminal is a parameter.
pub mod Control
pub mod Policy
use rservr.Base.{
  ℕ, ◌-◌, ◌^◌, Bool, true, false, Option, none, some, ◌&&◌, ◌||◌, not, ◌==◌, ltb, if◌then◌else◌,
  is_some,
}
use rservr.Flags.{
  ◌&◌, check_all, type_none, type_active_client, type_detached_client, type_server_control,
  type_admin_client, type_control_client, type_resource_client, type_all_clients,
  type_terminal_equal, event_none, event_rejected, event_complete, event_wait,
}
use rservr.Server.{Client, Command}

-- `terminal_pid` (-1 is `none`), `terminal_type` and `terminal_priority`.
pub record Terminal : Type 0 where
  pub terminal_pid : Option ℕ
  pub terminal_type : ℕ
  pub terminal_priority : ℕ

-- Whether the server leads its session, whether a process is in it, the process group of a process
-- (`none` for an error), whether there is a terminal, whether `tcsetpgrp` gives it to a process, and
-- whether group and state of the terminal are restored.
pub record Session : Type 0 where
  pub leads : Bool
  pub in_session : ℕ → Bool
  pub group_of : ℕ → Option ℕ
  pub has_terminal : Bool
  pub gives_to : ℕ → Bool
  pub restores : Bool

abbrev pub same_pid : Option ℕ → Option ℕ → Bool
same_pid none none = true
same_pid none (some q) = false
same_pid (some p) none = false
same_pid (some p) (some q) = p == q

-- The part that asks the system, for a process number that is none of the holder.
unfoldable pub hand_over : Session → ℕ → ℕ → ℕ → ℕ → Terminal → Bool × Terminal
hand_over session pid actual type priority t =
    if not (same_pid (session.group_of actual) (some pid))
    then (false, t)
    else if not (session.in_session actual)
    then (false, t)
    else if not session.has_terminal
    then (false, t)
    else if not (session.gives_to pid)
    then (false, t)
    else (
      true,
      record { terminal_pid = some pid; terminal_type = type; terminal_priority = priority },
    )

unfoldable pub take_terminal_control : Session → Option ℕ → ℕ → ℕ → ℕ → Terminal → Bool × Terminal
take_terminal_control session pid actual type priority t =
    if not session.leads
    then (false, t)
    else if same_pid pid t.terminal_pid
    then (true, t)
    else elim pid [ none ↦ (false, t) | some p ↦ hand_over session p actual type priority t ]

-- The terminal in nobody's hands; the priority is the largest of a byte.
abbrev pub no_control : Terminal
no_control = record {
  terminal_pid = none;
  terminal_type = type_none;
  terminal_priority = 2 ^ 8 - 1;
}

unfoldable pub return_terminal_control : Session → Option ℕ → Terminal → Bool × Terminal
return_terminal_control session pid t =
    if not session.leads
    then (false, t)
    else if not (same_pid pid t.terminal_pid) || not (is_some t.terminal_pid)
    then (false, t)
    else if not session.has_terminal
    then (false, t)
    else (session.restores, no_control)

unfoldable pub restore_terminal : Session → Terminal → Terminal
restore_terminal session t =
    if not session.leads
    then t
    else if not (is_some t.terminal_pid)
    then t
    else if not session.has_terminal
    then t
    else no_control

-- `allowed2`: somebody holds the terminal.
unfoldable pub held : Terminal → Bool
held t = is_some t.terminal_pid && not (t.terminal_type == type_none)

-- The alternatives of `allowed` that look at the two types, and at the priorities.
unfoldable pub outranks : ℕ → ℕ → Terminal → Bool
outranks type priority t =
    check_all type type_server_control
    || (((type & type_all_clients) == (t.terminal_type & type_all_clients))
        && ltb priority t.terminal_priority)
    || (check_all type type_admin_client && not (check_all t.terminal_type type_server_control))
    || (check_all type type_control_client
        && not (check_all t.terminal_type type_admin_client)
        && not (check_all t.terminal_type type_server_control))
    || (check_all type type_resource_client
        && not (check_all t.terminal_type type_control_client)
        && not (check_all t.terminal_type type_admin_client)
        && not (check_all t.terminal_type type_server_control))

unfoldable pub terminal_allowed : ℕ → ℕ → Terminal → Bool
terminal_allowed type priority t =
    let allowed : Bool = not (held t) || outranks type priority t in
    if held t
    then allowed && not ((type_terminal_equal & type) == (type_terminal_equal & t.terminal_type))
    else allowed

-- `interface_request_terminal` (libs/server/api-server.cpp)
unfoldable pub interface_request_terminal : Session → Option ℕ → ℕ → ℕ → ℕ → Terminal → ℕ × Terminal
interface_request_terminal session pid actual type priority t =
    let (taken, after) = take_terminal_control session pid actual type priority t in
    ((if taken then event_complete else event_rejected), after)

-- `interface_request_terminal(...) ? event_complete : event_rejected`
abbrev answer : ℕ → ℕ
answer event = if event == event_none then event_rejected else event_complete

unfoldable pub request_terminal : Session → Client → Command → Terminal → ℕ × Terminal
request_terminal session c cmd t =
    if not (check_all c.client_type type_active_client)
    then (event_rejected, t)
    else if check_all c.client_type type_detached_client
    then (event_rejected, t)
    else if not (terminal_allowed c.client_type cmd.priority t)
    then ((if not (held t) then event_rejected else event_wait), t)
    else (let (event, after) =
          interface_request_terminal session c.process_id cmd.creator_pid c.client_type
            c.min_priority t in
        (answer event, after))

unfoldable pub return_terminal : Session → Client → Terminal → Bool × Terminal
return_terminal session c t =
    if not (check_all c.client_type type_active_client)
    then (false, t)
    else if check_all c.client_type type_detached_client
    then (false, t)
    else return_terminal_control session c.process_id t
