-- ===== src/Server/Monitors/Laws.antt =====
-- Watching the exits of clients (libs/server/monitor-list.cpp).
use rservr.Base.{
  ℕ, ◌≡◌, refl, List, [], ◌∷◌, ◌++◌, Bool, true, false, ==_refl, Text, text_eq_refl, any,
  drop_where, arith, Bool-cases, if-true, inl, inr,
}
use rservr.Server.{Server, ExitMonitor}
use rservr.Server.Monitors.{same_exit, add_exit_monitor, remove_exit_monitor}

any-append :
    (p : ExitMonitor → Bool) (l : List ExitMonitor) (m : ExitMonitor)
    → p m ≡ true
    → any p (l ++ (m ∷ [])) ≡ true
unfolding any
any-append p [] m h = rw h
any-append p (x ∷ l) m h = ground (arith, any-append p l m h)

any-drop_where : (p : ExitMonitor → Bool) (l : List ExitMonitor) → any p (drop_where p l) ≡ false
unfolding any drop_where
any-drop_where p [] = refl
any-drop_where p (x ∷ l) = ground (arith, any-drop_where p l)

watched :
    (handle client : ℕ) (name : Text) (s : Server)
    → any (same_exit client name) (add_exit_monitor handle client name s).1.exit_monitors ≡ true
unfolding add_exit_monitor
watched handle client name s = elim (Bool-cases (any (same_exit client name) s.exit_monitors)) [
  | inl e ↦ rw e e
  | inr e ↦ rw e (
      any-append (same_exit client name) s.exit_monitors _
        (ground (arith, ==_refl client, text_eq_refl name)))
]

-- After a request to watch a client under a name, every further watcher of it under that name is
-- refused, also one that does not watch it yet.
pub add_exit_monitor-second :
    (first second client : ℕ) (name : Text) (s : Server)
    → let once = (add_exit_monitor first client name s).1 in
      add_exit_monitor second client name once ≡ (false, once)
unfolding add_exit_monitor
add_exit_monitor-second first second client name s =
    let once = (add_exit_monitor first client name s).1 in
    let added : ExitMonitor = record { watcher = second; client = client; name = name } in
    if-true (any (same_exit client name) once.exit_monitors) (false, once)
      (true, record once { exit_monitors = once.exit_monitors ++ (added ∷ []) })
      (watched first client name s)

-- After a request to watch a client under a name, the request of any client, the watcher or
-- another, to stop watching that client under that name succeeds, and nobody watches it under that
-- name any more.
pub remove_exit_monitor-add :
    (watcher other client : ℕ) (name : Text) (s : Server)
    → let once = (add_exit_monitor watcher client name s).1 in
      let after = remove_exit_monitor other client name once in
      (after.0 ≡ true) × (any (same_exit client name) after.1.exit_monitors ≡ false)
unfolding remove_exit_monitor
remove_exit_monitor-add watcher other client name s =
    rw (watched watcher client name s) (refl, any-drop_where (same_exit client name) _)
