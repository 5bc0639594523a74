-- ===== src/Server/Sound/Changes.antt =====
-- The operations of libs/server that change what the tables refer to.
use rservr.Base.{
  ℕ, ◌≡◌, sym, ap, subst, List, [], ◌∷◌, ◌++◌, Bool, true, false, ◌&&◌, ◌==◌, some, if◌then◌else◌,
  Text, All, any, find, keep, drop_where, update_first, arith, if-cases,
}
use rservr.Flags.{monitor_none}
use rservr.Server.{Server, Client, Service, ExitMonitor, emit, service_registered}
use rservr.Server.Clients.{has_handle, get_client_id, change_client, set_primary_service}
use rservr.Server.Clients.Laws.{KeepsHandle}
use rservr.Server.Services.{
  owned_by, named, located, remaining_service, add_client_service, remove_services,
  remove_indiv_service, remove_handle_services, remove_remote_services,
}
use rservr.Server.Monitors.{
  watches, unique, same_exit, set_client_monitoring, clear_client_monitoring, add_exit_monitor,
  remove_exit_monitor,
}
use rservr.Server.Removal.{drop_first}
use rservr.Server.Removal.Tables.{announce_sends}
use rservr.Server.Sound.{
  handles, tables, Lives, AreSound, IsSound, All-drop_where, All-append, All-update_first,
  tables-change_client, keeps_primary,
}

-- The client is in the table.
abbrev pub Present : Server → Client → Type 0
Present s c = get_client_id s c.handle ≡ some c

pub IsSound-by_tables : (s t : Server) → tables t ≡ tables s → IsSound s → IsSound t
IsSound-by_tables s t e h = subst AreSound (sym e) h

IsSound-change_client :
    (handle : ℕ) (f : Client → Client) (s : Server)
    → KeepsHandle f
    → IsSound s
    → IsSound (change_client handle f s)
IsSound-change_client handle f s k h =
    IsSound-by_tables s (change_client handle f s) (tables-change_client handle f s k) h

Lives-find :
    (handle : ℕ) (cs : List Client) (c : Client)
    → find (has_handle handle) cs ≡ some c
    → Lives (handles cs) handle
unfolding find any
Lives-find handle [] c h = cc
Lives-find handle (d ∷ cs) c h = ground (arith, Lives-find handle cs c)

pub Lives-get : (s : Server) (c : Client) → Present s c → Lives (handles s.clients) c.handle
unfolding get_client_id
Lives-get s c h = Lives-find c.handle s.clients c h

pub add_client_service-IsSound :
    (c : Client) (name type location : Text) (s : Server)
    → Present s c
    → IsSound s
    → IsSound (add_client_service c name type location s)
unfolding add_client_service
add_client_service-IsSound c name type location s here h =
    let e : Service = record {
      owner = c.handle;
      service_name = name;
      service_type = type;
      service_location = location;
    } in
    IsSound-change_client c.handle (set_primary_service name)
      (emit (service_registered c.process_id e) (record s { services = s.services ++ (e ∷ []) }))
      (keeps_primary name)
      (
        All-append (λ x. Lives (handles s.clients) x.owner) s.services (e ∷ []) h.0
            (Lives-get s c here, tt),
        h.1,
        h.2,
      )

remove_services-IsSound :
    (match : Service → Bool) (c : Client) (s : Server)
    → IsSound s
    → IsSound (remove_services match c s)
unfolding remove_services
remove_services-IsSound match c s h =
    IsSound-by_tables (record s { services = drop_where match s.services })
      (remove_services match c s)
      (ap (λ x. tables (record x { services = drop_where match s.services }))
        (announce_sends c (keep match s.services) s))
      (
        All-drop_where (λ e. Lives (handles s.clients) e.owner)
            (λ e. Lives (handles s.clients) e.owner) match s.services (λ e l p. l) h.0,
        h.1,
        h.2,
      )

pub remove_handle_services-IsSound :
    (c : Client) (s : Server) → IsSound s → IsSound (remove_handle_services c s)
unfolding remove_handle_services
remove_handle_services-IsSound c s h =
    IsSound-change_client c.handle (set_primary_service [])
      (remove_services (owned_by c.handle) c s) (keeps_primary [])
      (remove_services-IsSound (owned_by c.handle) c s h)

pub remove_indiv_service-IsSound :
    (c : Client) (name : Text) (s : Server) → IsSound s → IsSound (remove_indiv_service c name s).1
unfolding remove_indiv_service
remove_indiv_service-IsSound c name s h =
    let match : Service → Bool = λ e. named name e && owned_by c.handle e in
    let s1 = remove_services match c s in
    let primary = remaining_service c.handle s1.services in
    if-cases (λ (r : Bool × Server). IsSound r.1) (any match s.services)
      (true, change_client c.handle (set_primary_service primary) s1) (false, s)
      (λ e.
        IsSound-change_client c.handle (set_primary_service primary) s1 (keeps_primary primary)
          (remove_services-IsSound match c s h))
      (λ e. h)

pub remove_remote_services-IsSound :
    (c : Client) (location : Text) (s : Server)
    → IsSound s
    → IsSound (remove_remote_services c location s).1
unfolding remove_remote_services
remove_remote_services-IsSound c location s h =
    let match : Service → Bool = λ e. located location e && owned_by c.handle e in
    if-cases (λ (r : Bool × Server). IsSound r.1) (any match s.services)
      (true, remove_services match c s) (false, s) (λ e. remove_services-IsSound match c s h)
      (λ e. h)

All-unique : (P : ℕ × ℕ → Type 0) (l : List (ℕ × ℕ)) → All P l → All P (unique l)
unfolding unique
All-unique P [] h = tt
All-unique P ((key, events) ∷ l) h =
    (h.0, All-drop_where P P (watches key) (unique l) (λ x p e. p) (All-unique P l h.1))

pub set_client_monitoring-IsSound :
    (c : Client) (events : ℕ) (s : Server)
    → Present s c
    → IsSound s
    → IsSound (set_client_monitoring c.handle events s)
unfolding set_client_monitoring
set_client_monitoring-IsSound c events s here h =
    let P : ℕ × ℕ → Type 0 = λ m. Lives (handles s.clients) m.0 in
    let here_too : All P ((c.handle, events) ∷ []) = (Lives-get s c here, tt) in
    let new_entry : ℕ × ℕ → ℕ × ℕ = λ e. (e.0, events) in
    let put : List (ℕ × ℕ) =
      if any (watches c.handle) s.event_monitors
      then update_first (watches c.handle) new_entry s.event_monitors
      else s.event_monitors ++ ((c.handle, events) ∷ []) in
    let dropped = drop_where (watches c.handle) s.event_monitors in
    (
      h.0,
      All-unique P (if events == monitor_none then dropped else put) (
          if-cases (All P) (events == monitor_none) dropped put
            (λ e. All-drop_where P P (watches c.handle) s.event_monitors (λ x p q. p) h.1)
            (λ e.
              if-cases (All P) (any (watches c.handle) s.event_monitors)
                (update_first (watches c.handle) new_entry s.event_monitors)
                (s.event_monitors ++ ((c.handle, events) ∷ []))
                (λ f.
                  All-update_first P (watches c.handle) new_entry s.event_monitors (λ x p. p) h.1)
                (λ f. All-append P s.event_monitors ((c.handle, events) ∷ []) h.1 here_too))),
      h.2,
    )

pub clear_client_monitoring-IsSound :
    (handle : ℕ) (s : Server) → IsSound s → IsSound (clear_client_monitoring handle s)
unfolding clear_client_monitoring
clear_client_monitoring-IsSound handle s h =
    let P : ℕ × ℕ → Type 0 = λ m. Lives (handles s.clients) m.0 in
    let Q : ExitMonitor → Type 0 = λ m. Lives (handles s.clients) m.watcher in
    (
      h.0,
      All-drop_where P P (watches handle) s.event_monitors (λ x p q. p) h.1,
      All-drop_where Q Q (λ m. m.watcher == handle) s.exit_monitors (λ x p q. p) h.2,
    )

pub add_exit_monitor-IsSound :
    (c : Client) (client : ℕ) (name : Text) (s : Server)
    → Present s c
    → IsSound s
    → IsSound (add_exit_monitor c.handle client name s).1
unfolding add_exit_monitor
add_exit_monitor-IsSound c client name s here h =
    let Q : ExitMonitor → Type 0 = λ m. Lives (handles s.clients) m.watcher in
    let added : ExitMonitor = record { watcher = c.handle; client = client; name = name } in
    let here_too : All Q (added ∷ []) = (Lives-get s c here, tt) in
    if-cases (λ (r : Bool × Server). IsSound r.1) (any (same_exit client name) s.exit_monitors)
      (false, s) (true, record s { exit_monitors = s.exit_monitors ++ (added ∷ []) }) (λ e. h)
      (λ e. (h.0, h.1, All-append Q s.exit_monitors (added ∷ []) h.2 here_too))

pub remove_exit_monitor-IsSound :
    (handle client : ℕ) (name : Text) (s : Server)
    → IsSound s
    → IsSound (remove_exit_monitor handle client name s).1
unfolding remove_exit_monitor
remove_exit_monitor-IsSound handle client name s h =
    let Q : ExitMonitor → Type 0 = λ m. Lives (handles s.clients) m.watcher in
    if-cases (λ (r : Bool × Server). IsSound r.1) (any (same_exit client name) s.exit_monitors)
      (true, record s { exit_monitors = drop_where (same_exit client name) s.exit_monitors })
      (false, s)
      (λ e. (h.0, h.1, All-drop_where Q Q (same_exit client name) s.exit_monitors (λ x p q. p) h.2))
      (λ e. h)

pub Lives-drop_first :
    (handle other : ℕ) (cs : List Client)
    → (other == handle) ≡ false
    → Lives (handles cs) other
    → Lives (handles (drop_first (has_handle handle) cs)) other
unfolding any drop_first
Lives-drop_first handle other [] ne h = cc
Lives-drop_first handle other (c ∷ cs) ne h = ground (arith, Lives-drop_first handle other cs ne)
