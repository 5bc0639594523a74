-- ===== src/Terminal/Policy.antt =====
-- Who may take the terminal (libs/server/execute-thread.cpp, `request_terminal`).
use rservr.Base.{ℕ, ◌≡◌, ◌↔◌, ◌⊎◌, inl, inr, true, false, ◌==◌, arith, Bool-cases, Option}
use rservr.Flags.{
  ◌&◌, check_all, type_active_client, type_detached_client, type_terminal_equal, event_none,
  event_complete, event_wait,
}
use rservr.Server.{Client, Command}
use rservr.Terminal.{
  Terminal, Session, held, terminal_allowed, take_terminal_control, interface_request_terminal,
  request_terminal,
}
use rservr.Terminal.Control.{take_terminal_control_cases}

abbrev pub MayAsk : Client → Type 0
MayAsk c =
    (check_all c.client_type type_active_client ≡ true)
    × (check_all c.client_type type_detached_client ≡ false)

interface_answers :
    (session : Session) (pid : Option ℕ) (actual type priority : ℕ) (t : Terminal)
    → ((interface_request_terminal session pid actual type priority t).0 == event_none) ≡ false
unfolding interface_request_terminal
interface_answers session pid actual type priority t =
    elim (Bool-cases (take_terminal_control session pid actual type priority t).0) [
      | inl e ↦ rw e
      | inr e ↦ rw e
    ]

-- The answer is `event_complete` exactly for an active client that is not detached and that the
-- rules allow, whether or not the terminal could be handed over.
pub request_terminal_complete_iff :
    (session : Session) (c : Client) (cmd : Command) (t : Terminal)
    → ((request_terminal session c cmd t).0 ≡ event_complete)
      ↔ (MayAsk c × (terminal_allowed c.client_type cmd.priority t ≡ true))
unfolding request_terminal
request_terminal_complete_iff session c cmd t =
    ground
      (arith, interface_answers session c.process_id cmd.creator_pid c.client_type c.min_priority t)

-- The terminal stays as it is, or an active client that is not detached and that the rules allow
-- holds it.
pub request_terminal_safe :
    (session : Session) (c : Client) (cmd : Command) (t : Terminal)
    → let r = request_terminal session c cmd t in
      (r.1 ≡ t)
      ⊎ (MayAsk c
          × (terminal_allowed c.client_type cmd.priority t ≡ true)
          × (r.1.terminal_pid ≡ c.process_id))
unfolding request_terminal interface_request_terminal
request_terminal_safe session c cmd t = ground (
  arith,
  take_terminal_control_cases session c.process_id cmd.creator_pid c.client_type c.min_priority t,
)

-- While the terminal is held, an active client that is not detached and that is of the same kind as
-- the holder (admin, control, resource, server control) is told to wait, at any priority, and
-- nothing changes.
pub request_terminal_equal :
    (session : Session) (c : Client) (cmd : Command) (t : Terminal)
    → MayAsk c
    → held t ≡ true
    → (type_terminal_equal & c.client_type) ≡ (type_terminal_equal & t.terminal_type)
    → request_terminal session c cmd t ≡ (event_wait, t)
unfolding request_terminal terminal_allowed
request_terminal_equal session c cmd t may is_held same = ground arith
