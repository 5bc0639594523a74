-- ===== src/Terminal/Control.antt =====
-- Taking the terminal and giving it back (libs/server/server-command.cpp).
use rservr.Base.{
  ℕ, ◌≡◌, ◌≢◌, ◌⊎◌, inl, inr, refl, true, false, ==_refl, ==_iff, Option, none, some, arith, ap,
}
use rservr.Terminal.{
  Terminal, Session, same_pid, hand_over, take_terminal_control, no_control,
  return_terminal_control,
}

same_pid_eq : (a b : Option ℕ) → same_pid a b ≡ true → a ≡ b
same_pid_eq none none h = refl
same_pid_eq none (some q) h = cc
same_pid_eq (some p) none h = cc
same_pid_eq (some p) (some q) h = ap some ((==_iff p q).0 h)

same_pid_refl : (a : Option ℕ) → same_pid a a ≡ true
same_pid_refl none = refl
same_pid_refl (some p) = ==_refl p

hand_over_cases :
    (session : Session) (pid actual type priority : ℕ) (t : Terminal)
    → let r = hand_over session pid actual type priority t in
      ((r.0 ≡ true) × (r.1.terminal_pid ≡ some pid)) ⊎ ((r.0 ≡ false) × (r.1 ≡ t))
unfolding hand_over
hand_over_cases session pid actual type priority t = ground arith

-- A call that succeeds leaves the terminal with the process that it names, and a call that fails
-- changes nothing.
pub take_terminal_control_cases :
    (session : Session) (pid : Option ℕ) (actual type priority : ℕ) (t : Terminal)
    → let r = take_terminal_control session pid actual type priority t in
      ((r.0 ≡ true) × (r.1.terminal_pid ≡ pid)) ⊎ ((r.0 ≡ false) × (r.1 ≡ t))
unfolding take_terminal_control
take_terminal_control_cases session none actual type priority t =
    ground (arith, same_pid_eq none t.terminal_pid)
take_terminal_control_cases session (some p) actual type priority t =
    ground
      (arith, same_pid_eq (some p) t.terminal_pid, hand_over_cases session p actual type priority t)

take-leads :
    (session : Session) (pid : Option ℕ) (actual type priority : ℕ) (t : Terminal)
    → (take_terminal_control session pid actual type priority t).0 ≡ true
    → session.leads ≡ true
unfolding take_terminal_control
take-leads session pid actual type priority t done = ground arith

return-holder :
    (session : Session) (pid : ℕ) (t : Terminal)
    → session.leads ≡ true
    → session.has_terminal ≡ true
    → t.terminal_pid ≡ some pid
    → return_terminal_control session (some pid) t ≡ (session.restores, no_control)
unfolding return_terminal_control
return-holder session pid t leads tty holder = ground (arith, same_pid_refl (some pid))

-- A process that has taken the terminal gives it back while there is a terminal: nobody holds it
-- then, and the call succeeds as far as the system restores the terminal.
pub return_terminal_control-take :
    (session : Session) (pid actual type priority : ℕ) (t : Terminal)
    → session.has_terminal ≡ true
    → (take_terminal_control session (some pid) actual type priority t).0 ≡ true
    → return_terminal_control session
        (some pid)
        (take_terminal_control session (some pid) actual type priority t).1
      ≡ (session.restores, no_control)
return_terminal_control-take session pid actual type priority t tty done =
    return-holder session pid _ (take-leads session (some pid) actual type priority t done) tty
      (elim (take_terminal_control_cases session (some pid) actual type priority t) [
        | inl (taken, holder) ↦ holder
        | inr (failed, same) ↦ cc
      ])

-- Who does not hold the terminal cannot give it back.
pub return_terminal_control_other :
    (session : Session) (pid : Option ℕ) (t : Terminal)
    → pid ≢ t.terminal_pid
    → return_terminal_control session pid t ≡ (false, t)
unfolding return_terminal_control
return_terminal_control_other session pid t other = ground (arith, same_pid_eq pid t.terminal_pid)
