-- ===== src/Server/Sound/Requests.antt =====
-- The requests of clients (libs/server/api-server.cpp) and the ends of clients as steps of the
-- server, and what holds along every sequence of them.
use rservr.Base.{
  ℕ, Bool, true, false, not, ◌||◌, ◌&&◌, some, Text, is_empty, text_eq, length, ltb, Bool-cases,
  Option-cases, inl, inr, if-cases,
}
use rservr.Flags.{check_all, type_resource_client, type_monitor_client}
use rservr.Address.Labels.{check_entity_label, check_address_label}
use rservr.Server.{Server, Client}
use rservr.Server.Clients.{manual_update_readiness}
use rservr.Server.Services.{
  add_client_service, remove_indiv_service, remove_handle_services, remove_remote_services,
}
use rservr.Server.Monitors.{set_client_monitoring, clear_client_monitoring, add_exit_monitor}
use rservr.Server.Naming.{check_names}
use rservr.Server.Register.{set_registered_client_type}
use rservr.Server.Removal.{remove_client_common}
use rservr.Server.Interface.{
  Settings, Request, gated, deregister_all_own_services, forget_client, register_client,
  indicate_ready, add_service, register_service, deregister_own_service, deregister_own_services,
  deregister_remote_services, set_monitor_types, deregister_monitor, client_or_owner, watch_exit,
  unwatch_exit, monitor_disconnect, unmonitor_disconnect,
}
use rservr.Server.Sound.{IsSound}
use rservr.Server.Sound.Kept.{tables-manual_update_readiness, tables-set_registered_client_type}
use rservr.Server.Sound.Changes.{
  Present, IsSound-by_tables, add_client_service-IsSound, remove_handle_services-IsSound,
  remove_indiv_service-IsSound, remove_remote_services-IsSound, set_client_monitoring-IsSound,
  clear_client_monitoring-IsSound, add_exit_monitor-IsSound, remove_exit_monitor-IsSound,
}
use rservr.Server.Sound.Removals.{remove_client_common-IsSound}
use rservr.Terminal.{Terminal, Session}

-- One request of a client that is in the table, or the end of a client.
pub data Step : Server → Server → Type 0 where
  registers :
      (settings : Settings) (c : Client) (name : Text) (type : ℕ) (disable : Bool) (s : Server)
      → Present s c
      → Step s (register_client settings (some c) name type disable s).2
  is_ready : (c : Client) (s : Server) → Present s c → Step s (indicate_ready (some c) s).1
  serves :
      (settings : Settings) (c : Client) (name type location : Text) (s : Server)
      → Present s c
      → Step s (register_service settings (some c) name type location s).1
  stops_service :
      (c : Client) (name : Text) (s : Server)
      → Present s c
      → Step s (deregister_own_service (some c) name s).1
  stops_services :
      (c : Client) (s : Server) → Present s c → Step s (deregister_own_services (some c) s).1
  stops_remote :
      (c : Client) (location : Text) (s : Server)
      → Present s c
      → Step s (deregister_remote_services (some c) location s).1
  monitors :
      (c : Client) (events : ℕ) (s : Server)
      → Present s c
      → Step s (set_monitor_types (some c) events s).1
  stops_monitor : (c : Client) (s : Server) → Present s c → Step s (deregister_monitor (some c) s).1
  watches_for :
      (c : Client) (name : Text) (s : Server)
      → Present s c
      → Step s (monitor_disconnect (some c) name s).1
  stops_watching :
      (c : Client) (name : Text) (s : Server)
      → Present s c
      → Step s (unmonitor_disconnect (some c) name s).1
  ends :
      (session : Session) (mode : Bool) (c : Client) (s : Server) (t : Terminal)
      → Step s (remove_client_common session mode c (s, t)).1

gated-IsSound :
    (required : ℕ) (c : Client) (request : Request) (s : Server)
    → IsSound s
    → IsSound (request c s).1
    → IsSound (gated required (some c) request s).1
unfolding gated
gated-IsSound required c request s h done =
    if-cases (λ (r : Bool × Server). IsSound r.1) (check_all c.client_type required) (request c s)
      (false, s) (λ e. done) (λ e. h)

deregister_all_own_services-IsSound :
    (c : Client) (s : Server) → IsSound s → IsSound (deregister_all_own_services c s).1
unfolding deregister_all_own_services
deregister_all_own_services-IsSound c s h =
    if-cases (λ (r : Bool × Server). IsSound r.1) (check_all c.client_type type_resource_client)
      (true, remove_handle_services c s) (false, s) (λ e. remove_handle_services-IsSound c s h)
      (λ e. h)

forget_client-IsSound : (c : Client) (s : Server) → IsSound s → IsSound (forget_client c s)
unfolding forget_client
forget_client-IsSound c s h =
    deregister_all_own_services-IsSound c (clear_client_monitoring c.handle s)
      (clear_client_monitoring-IsSound c.handle s h)

register_client-IsSound :
    (settings : Settings) (c : Client) (name : Text) (type : ℕ) (disable : Bool) (s : Server)
    → IsSound s
    → IsSound (register_client settings (some c) name type disable s).2
unfolding register_client
register_client-IsSound settings c name type disable s h =
    let P : Bool × ℕ × Server → Type 0 = λ r. IsSound r.2 in
    if-cases P (not (check_entity_label settings.entity_label (some name))) (false, type, s) _
      (λ e. h)
      λ e.
        if-cases P (not (is_empty name) && not (check_names s (some name))) (false, type, s)
          (set_registered_client_type c.handle name type disable (forget_client c s)) (λ f. h)
          λ f.
            IsSound-by_tables (forget_client c s)
              (set_registered_client_type c.handle name type disable (forget_client c s)).2
              (tables-set_registered_client_type c.handle name type disable (forget_client c s))
              (forget_client-IsSound c s h)

add_service-IsSound :
    (settings : Settings) (name type location : Text) (c : Client) (s : Server)
    → Present s c
    → IsSound s
    → IsSound (add_service settings name type location c s).1
unfolding add_service
add_service-IsSound settings name type location c s here h =
    let P : Bool × Server → Type 0 = λ r. IsSound r.1 in
    if-cases P
      (not (check_entity_label settings.entity_label (some name))
        || not (check_address_label settings.address_label (some location)))
      (false, s) _ (λ e. h)
      λ e.
        if-cases P (not (ltb (length s.services) settings.max_services)) (false, s) _ (λ f. h)
          λ f.
            if-cases P (not (check_names s (some name))) (false, s)
              (true, add_client_service c name type location s) (λ g. h)
              (λ g. add_client_service-IsSound c name type location s here h)

watch_exit-IsSound :
    (name : Text) (c : Client) (s : Server)
    → Present s c
    → IsSound s
    → IsSound (watch_exit name c s).1
unfolding watch_exit
watch_exit-IsSound name c s here h =
    elim (Bool-cases (is_empty name || text_eq c.client_name name)) [
      | inl e ↦ rw e h
      | inr e ↦ elim (Option-cases (client_or_owner s name)) [
        | inl f ↦ rw (e, f, watch_exit) h
        | inr (d, f) ↦
            rw (e, f, watch_exit)
              (if-cases (λ (r : Bool × Server). IsSound r.1)
                (check_all d.client_type type_resource_client)
                (add_exit_monitor c.handle d.handle name s) (false, s)
                (λ g. add_exit_monitor-IsSound c d.handle name s here h) (λ g. h))
      ]
    ]

unwatch_exit-IsSound :
    (name : Text) (c : Client) (s : Server) → IsSound s → IsSound (unwatch_exit name c s).1
unfolding unwatch_exit
unwatch_exit-IsSound name c s h = elim (Bool-cases (is_empty name)) [
  | inl e ↦ rw e h
  | inr e ↦ elim (Option-cases (client_or_owner s name)) [
    | inl f ↦ rw (e, f, unwatch_exit) h
    | inr (d, f) ↦ rw (e, f, unwatch_exit) (remove_exit_monitor-IsSound c.handle d.handle name s h)
  ]
]

-- Every step keeps the references between the tables valid.
pub Step-IsSound : (s t : Server) → Step s t → IsSound s → IsSound t
unfolding indicate_ready register_service deregister_own_service deregister_own_services
    deregister_remote_services set_monitor_types deregister_monitor monitor_disconnect
    unmonitor_disconnect
Step-IsSound _ _ (registers settings c name type disable s here) h =
    register_client-IsSound settings c name type disable s h
Step-IsSound _ _ (is_ready c s here) h =
    IsSound-by_tables s (manual_update_readiness s c.handle).1
      (tables-manual_update_readiness s c.handle) h
Step-IsSound _ _ (serves settings c name type location s here) h =
    gated-IsSound type_resource_client c (add_service settings name type location) s h
      (add_service-IsSound settings name type location c s here h)
Step-IsSound _ _ (stops_service c name s here) h =
    gated-IsSound type_resource_client c (λ d. remove_indiv_service d name) s h
      (remove_indiv_service-IsSound c name s h)
Step-IsSound _ _ (stops_services c s here) h =
    gated-IsSound type_resource_client c deregister_all_own_services s h
      (deregister_all_own_services-IsSound c s h)
Step-IsSound _ _ (stops_remote c location s here) h =
    gated-IsSound type_resource_client c (λ d. remove_remote_services d location) s h
      (remove_remote_services-IsSound c location s h)
Step-IsSound _ _ (monitors c events s here) h =
    gated-IsSound type_monitor_client c (λ d u. (true, set_client_monitoring d.handle events u)) s h
      (set_client_monitoring-IsSound c events s here h)
Step-IsSound _ _ (stops_monitor c s here) h =
    gated-IsSound type_monitor_client c (λ d u. (true, clear_client_monitoring d.handle u)) s h
      (clear_client_monitoring-IsSound c.handle s h)
Step-IsSound _ _ (watches_for c name s here) h =
    gated-IsSound type_resource_client c (watch_exit name) s h (watch_exit-IsSound name c s here h)
Step-IsSound _ _ (stops_watching c name s here) h =
    gated-IsSound type_resource_client c (unwatch_exit name) s h (unwatch_exit-IsSound name c s h)
Step-IsSound _ _ (ends session mode c s u) h = remove_client_common-IsSound session mode c s u h

-- Sequences of steps.
pub data Run : Server → Server → Type 0 where
  rests : (s : Server) → Run s s
  goes : (s t u : Server) → Step s t → Run t u → Run s u

-- From a server whose tables refer to each other rightly, no sequence of requests and ends of
-- clients leaves a service without an owner, or a monitor without a watcher, in the table.
pub Run-IsSound : (s t : Server) → Run s t → IsSound s → IsSound t
Run-IsSound _ _ (rests s) h = h
Run-IsSound _ _ (goes s u t step run) h = Run-IsSound u t run (Step-IsSound s u step h)
