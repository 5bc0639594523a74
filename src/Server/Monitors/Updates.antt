-- ===== src/Server/Monitors/Updates.antt =====
-- Who is told of an exit (libs/server/monitor-list.cpp, `send_exit_update`).
use rservr.Base.{
  ◌⊎◌, ℕ, ◌≡◌, ◌∙◌, refl, ap, List, [], ◌∷◌, Bool, true, false, ◌||◌, is_empty, is_some, Text, All,
  any, find, keep, drop_where, arith, Bool-cases, inl, inr, if-cases,
}
use rservr.Server.{Server, Client, ExitMonitor, Event, emit, resource_exit}
use rservr.Server.Clients.{has_handle, get_client_id}
use rservr.Server.Monitors.{exits_as, exit_receivers, send_exits, send_exit_update}
use rservr.Server.Sound.{handles, Lives, IsSound}

kept_whole :
    (p : ExitMonitor → Bool) (l : List ExitMonitor) → All (λ m. p m ≡ true) l → keep p l ≡ l
unfolding keep
kept_whole p [] h = refl
kept_whole p (m ∷ l) h = ground (arith, h.0, kept_whole p l h.1)

All-keep :
    (P Q : ExitMonitor → Type 0) (q : ExitMonitor → Bool) (l : List ExitMonitor)
    → ((m : ExitMonitor) → P m → Q m)
    → All P l
    → All Q (keep q l)
unfolding keep
All-keep P Q q [] f h = tt
All-keep P Q q (m ∷ l) f h = elim (Bool-cases (q m)) [
  | inl e ↦ rw e (f m h.0, All-keep P Q q l f h.1)
  | inr e ↦ rw e (All-keep P Q q l f h.1)
]

found_of_Lives :
    (handle : ℕ) (cs : List Client)
    → Lives (handles cs) handle
    → is_some (find (has_handle handle) cs) ≡ true
unfolding find any
found_of_Lives handle [] h = cc
found_of_Lives handle (c ∷ cs) h = ground (arith, found_of_Lives handle cs)

-- The notices of the monitors, newest first, in front of what was sent.
abbrev pub notices : List ExitMonitor → List Event → List Event
notices [] sent = sent
notices (m ∷ ms) sent = notices ms (resource_exit m.watcher m.name ∷ sent)

sent-send_exits :
    (ms : List ExitMonitor) (s : Server)
    → ((send_exits ms s).sent ≡ notices ms s.sent)
      × ((send_exits ms s).exit_monitors ≡ s.exit_monitors)
unfolding send_exits
sent-send_exits [] s = (refl, refl)
sent-send_exits (m ∷ ms) s = sent-send_exits ms (emit (resource_exit m.watcher m.name) s)

-- Without monitors nothing is left to tell.
none_watch :
    (client : ℕ) (name : Text) (s : Server)
    → is_empty s.exit_monitors ≡ true
    → (s.exit_monitors ≡ drop_where (exits_as client name) s.exit_monitors)
      × (s.sent ≡ notices (keep (exits_as client name) s.exit_monitors) s.sent)
none_watch client name s e = none_of s.exit_monitors e
  where
    none_of :
        (l : List ExitMonitor)
        → is_empty l ≡ true
        → (l ≡ drop_where (exits_as client name) l)
          × (s.sent ≡ notices (keep (exits_as client name) l) s.sent)
    none_of [] e = unfold drop_where keep in (refl, refl)
    none_of (m ∷ l) e = cc

no_clients_no_monitors :
    (s : Server) → IsSound s → is_empty s.clients ≡ true → is_empty s.exit_monitors ≡ true
no_clients_no_monitors s h e = none_of s.clients s.exit_monitors e h.2
  where
    none_of :
        (cs : List Client) (l : List ExitMonitor)
        → is_empty cs ≡ true
        → All (λ m. Lives (handles cs) m.watcher) l
        → is_empty l ≡ true
    none_of [] [] e h = refl
    none_of [] (m ∷ l) e h = unfold any in cc (h.0)
    none_of (c ∷ cs) l e h = cc

-- In a server whose tables refer to each other rightly, the exit of a client under a name is told
-- once for each monitor of it, to the watcher, and exactly these monitors are gone afterwards.
pub send_exit_update_tells :
    (client : ℕ) (name : Text) (s : Server)
    → IsSound s
    → let after = send_exit_update client name s in
      (after.exit_monitors ≡ drop_where (exits_as client name) s.exit_monitors)
      × (after.sent ≡ notices (keep (exits_as client name) s.exit_monitors) s.sent)
unfolding send_exit_update exit_receivers get_client_id
send_exit_update_tells client name s h =
    let rest : Server = record s {
      exit_monitors = drop_where (exits_as client name) s.exit_monitors;
    } in
    let matching = keep (exits_as client name) s.exit_monitors in
    if-cases
      (λ (t : Server).
        (t.exit_monitors ≡ drop_where (exits_as client name) s.exit_monitors)
        × (t.sent ≡ notices matching s.sent))
      (is_empty s.exit_monitors || is_empty s.clients) s
      (send_exits (exit_receivers client name s) rest)
      (λ e. none_watch client name s (empty e (Bool-cases (is_empty s.clients))))
      (λ e.
        let told = sent-send_exits (exit_receivers client name s) rest in
        (
          told.1,
          told.0
              ∙ ap (λ l. notices l s.sent)
                  (kept_whole (λ m. is_some (get_client_id s m.watcher)) matching
                    (All-keep (λ m. Lives (handles s.clients) m.watcher)
                      (λ m. is_some (get_client_id s m.watcher) ≡ true) (exits_as client name)
                      s.exit_monitors (λ m l. found_of_Lives m.watcher s.clients l) h.2)),
        ))
  where
    empty :
        (is_empty s.exit_monitors || is_empty s.clients) ≡ true
        → ((is_empty s.clients ≡ true) ⊎ (is_empty s.clients ≡ false))
        → is_empty s.exit_monitors ≡ true
    empty e (inl c) = no_clients_no_monitors s h c
    empty e (inr c) = ground arith
