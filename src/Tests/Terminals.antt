-- ===== src/Tests/Terminals.antt =====
-- Who holds the terminal.
use rservr.Base.{◌≡◌, ◌↔◌, ◌⊎◌, refl, true, some}
use rservr.Flags.{check_all, type_control_client_all, event_complete}
use rservr.Terminal.{
  Terminal, terminal_allowed, take_terminal_control, return_terminal_control, request_terminal,
  no_control, held,
}
use rservr.Terminal.Policy.{MayAsk, request_terminal_complete_iff, request_terminal_safe}
use rservr.Tests.{admin, switch_on, session, held_by_control}

-- An admin client takes the terminal from a control client.
request_terminal_test :
    (request_terminal session admin switch_on held_by_control).0 ≡ event_complete
unfolding request_terminal check_all terminal_allowed held rservr.Terminal.outranks
    rservr.Terminal.interface_request_terminal take_terminal_control rservr.Terminal.hand_over
request_terminal_test = refl

taken : (take_terminal_control session (some 102) 102 type_control_client_all 8 no_control).0 ≡ true
unfolding take_terminal_control rservr.Terminal.hand_over
taken = refl

request_terminal_complete_iff_example :
    ((request_terminal session admin switch_on held_by_control).0 ≡ event_complete)
    ↔ (MayAsk admin × (terminal_allowed admin.client_type 8 held_by_control ≡ true))
request_terminal_complete_iff_example =
    request_terminal_complete_iff session admin switch_on held_by_control

request_terminal_safe_example :
    let r = request_terminal session admin switch_on held_by_control in
    (r.1 ≡ held_by_control)
    ⊎ (MayAsk admin
        × (terminal_allowed admin.client_type 8 held_by_control ≡ true)
        × (r.1.terminal_pid ≡ some 101))
request_terminal_safe_example = request_terminal_safe session admin switch_on held_by_control
