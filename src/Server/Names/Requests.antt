-- ===== src/Server/Names/Requests.antt =====
-- Names along the requests of clients (libs/server/api-server.cpp).
use rservr.Base.{
  ℕ, ◌∙◌, refl, ap, Bool, true, false, not, ◌||◌, ◌&&◌, some, Text, text_eq, is_empty, length, ltb,
  any, arith, if-cases, Bool-cases, Option-cases, inl, inr,
}
use rservr.Flags.{check_all, type_resource_client, type_monitor_client}
use rservr.Address.Labels.{check_entity_label, check_address_label}
use rservr.Server.{Server, Client}
use rservr.Server.Clients.{
  get_client_id, change_client, manual_update, manual_update_readiness, continue_if_settled,
  notify_target,
}
use rservr.Server.Services.{
  add_client_service, remove_indiv_service, remove_handle_services, remove_remote_services,
}
use rservr.Server.Monitors.{
  set_client_monitoring, clear_client_monitoring, add_exit_monitor, remove_exit_monitor, same_exit,
}
use rservr.Server.Naming.{check_names}
use rservr.Server.Register.{set_registered_client_type}
use rservr.Server.Register.Effects.{clients-notify_register_attempt, clients-continue_if_settled}
use rservr.Server.Removal.{remove_client_common}
use rservr.Server.Interface.{
  Settings, Request, gated, deregister_all_own_services, forget_client, register_client,
  indicate_ready, add_service, register_service, deregister_own_service, deregister_own_services,
  deregister_remote_services, set_monitor_types, deregister_monitor, client_or_owner, watch_exit,
  unwatch_exit, monitor_disconnect, unmonitor_disconnect,
}
use rservr.Server.Sound.{Tables}
use rservr.Server.Sound.Kept.{tables-manual_update}
use rservr.Server.Sound.Requests.{
  Step, registers, is_ready, serves, stops_service, stops_services, stops_remote, monitors,
  stops_monitor, watches_for, stops_watching, ends, Run, rests, goes,
}
use rservr.Server.Names.{
  clients_named, services_named, HasUniqueNames, Fewer, Fewer-refl, Fewer-change_client,
  Fewer-remove_handle_services, Fewer-remove_indiv_service, Fewer-remove_remote_services,
  Fewer-remove_client_common, HasUniqueNames-Fewer,
}
use rservr.Server.Names.Bearers.{renames, free_name, HasUniqueNames-Adds, serves_named}

Fewer-gated :
    (required : ℕ) (c : Client) (request : Request) (s : Server)
    → Fewer s (request c s).1
    → Fewer s (gated required (some c) request s).1
unfolding gated
Fewer-gated required c request s fewer =
    if-cases (λ (r : Bool × Server). Fewer s r.1) (check_all c.client_type required) (request c s)
      (false, s) (λ e. fewer) (λ e. Fewer-refl s)

Fewer-deregister_all : (c : Client) (s : Server) → Fewer s (deregister_all_own_services c s).1
unfolding deregister_all_own_services
Fewer-deregister_all c s =
    if-cases (λ (r : Bool × Server). Fewer s r.1) (check_all c.client_type type_resource_client)
      (true, remove_handle_services c s) (false, s) (λ e. Fewer-remove_handle_services c s)
      (λ e. Fewer-refl s)

Fewer-forget_client : (c : Client) (s : Server) → Fewer s (forget_client c s)
unfolding forget_client clear_client_monitoring
Fewer-forget_client c s name = Fewer-deregister_all c (clear_client_monitoring c.handle s) name

Fewer-manual_update : (c : Client) (handle : ℕ) (s : Server) → Fewer s (manual_update c handle s)
unfolding manual_update
Fewer-manual_update c handle s name =
    let f : Client → Client = λ d. record d { notify = 0; reference = 0; fresh_client = false } in
    let s1 = change_client handle f s in
    let target = notify_target s c.notify c.reference in
    let told = clients-notify_register_attempt target c.reference true (continue_if_settled s1) in
    (
      omega (
        arith,
        ap (clients_named name) (told ∙ clients-continue_if_settled s1),
        (Fewer-change_client handle f s (λ d. refl) name).0,
      ),
      omega (arith, ap (λ (t : Tables). services_named name t.1) (tables-manual_update c handle s)),
    )

Fewer-indicate_ready : (c : Client) (s : Server) → Fewer s (indicate_ready (some c) s).1
unfolding indicate_ready manual_update_readiness
Fewer-indicate_ready c s = elim (Option-cases (get_client_id s c.handle)) [
  | inl e ↦ rw (e, manual_update_readiness) (Fewer-refl s)
  | inr (d, e) ↦ rw (e, manual_update_readiness) (Fewer-manual_update d c.handle s)
]

Fewer-add_exit_monitor :
    (handle client : ℕ) (name : Text) (s : Server)
    → Fewer s (add_exit_monitor handle client name s).1
unfolding add_exit_monitor
Fewer-add_exit_monitor handle client name s =
    if-cases (λ (r : Bool × Server). Fewer s r.1) (any (same_exit client name) s.exit_monitors) _ _
      (λ e. Fewer-refl s) (λ e. λ other. Fewer-refl s other)

Fewer-remove_exit_monitor :
    (handle client : ℕ) (name : Text) (s : Server)
    → Fewer s (remove_exit_monitor handle client name s).1
unfolding remove_exit_monitor
Fewer-remove_exit_monitor handle client name s =
    if-cases (λ (r : Bool × Server). Fewer s r.1) (any (same_exit client name) s.exit_monitors) _ _
      (λ e. λ other. Fewer-refl s other) (λ e. Fewer-refl s)

Fewer-watch_exit : (name : Text) (c : Client) (s : Server) → Fewer s (watch_exit name c s).1
unfolding watch_exit
Fewer-watch_exit name c s = elim (Bool-cases (is_empty name || text_eq c.client_name name)) [
  | inl e ↦ rw e (Fewer-refl s)
  | inr e ↦ elim (Option-cases (client_or_owner s name)) [
    | inl f ↦ rw (e, f, watch_exit) (Fewer-refl s)
    | inr (d, f) ↦
        rw (e, f, watch_exit)
          (if-cases (λ (r : Bool × Server). Fewer s r.1)
            (check_all d.client_type type_resource_client)
            (add_exit_monitor c.handle d.handle name s) (false, s)
            (λ g. Fewer-add_exit_monitor c.handle d.handle name s) (λ g. Fewer-refl s))
  ]
]

Fewer-unwatch_exit : (name : Text) (c : Client) (s : Server) → Fewer s (unwatch_exit name c s).1
unfolding unwatch_exit
Fewer-unwatch_exit name c s = elim (Bool-cases (is_empty name)) [
  | inl e ↦ rw e (Fewer-refl s)
  | inr e ↦ elim (Option-cases (client_or_owner s name)) [
    | inl f ↦ rw (e, f, unwatch_exit) (Fewer-refl s)
    | inr (d, f) ↦ rw (e, f, unwatch_exit) (Fewer-remove_exit_monitor c.handle d.handle name s)
  ]
]

HasUniqueNames-register_client :
    (settings : Settings) (c : Client) (name : Text) (type : ℕ) (disable : Bool) (s : Server)
    → HasUniqueNames s
    → HasUniqueNames (register_client settings (some c) name type disable s).2
unfolding register_client
HasUniqueNames-register_client settings c name type disable s h =
    let P : Bool × ℕ × Server → Type 0 = λ r. HasUniqueNames r.2 in
    let s1 = forget_client c s in
    let fewer = Fewer-forget_client c s in
    if-cases P (not (check_entity_label settings.entity_label (some name))) (false, type, s) _
      (λ e. h)
      λ e.
        if-cases P (not (is_empty name) && not (check_names s (some name))) (false, type, s)
          (set_registered_client_type c.handle name type disable s1) (λ f. h)
          λ f.
            HasUniqueNames-Adds name s1 (set_registered_client_type c.handle name type disable s1).2
              (λ filled.
                let free = free_name s name (ground (arith, f, filled)) in
                omega (arith, free.0, free.1, (fewer name).0, (fewer name).1))
              (renames c.handle name type disable s1) (HasUniqueNames-Fewer s s1 fewer h)

HasUniqueNames-add_service :
    (settings : Settings) (name type location : Text) (c : Client) (s : Server)
    → HasUniqueNames s
    → HasUniqueNames (add_service settings name type location c s).1
unfolding add_service
HasUniqueNames-add_service settings name type location c s h =
    let P : Bool × Server → Type 0 = λ r. HasUniqueNames r.1 in
    if-cases P
      (not (check_entity_label settings.entity_label (some name))
        || not (check_address_label settings.address_label (some location)))
      (false, s) _ (λ e. h)
      λ e.
        if-cases P (not (ltb (length s.services) settings.max_services)) (false, s) _ (λ f. h)
          λ f.
            if-cases P (not (check_names s (some name))) (false, s)
              (true, add_client_service c name type location s) (λ g. h)
              λ g.
                let free = free_name s name (ground (arith, g)) in
                HasUniqueNames-Adds name s (add_client_service c name type location s)
                  (λ filled. omega (arith, free.0, free.1)) (serves_named c name type location s) h

HasUniqueNames-gated :
    (required : ℕ) (c : Client) (request : Request) (s : Server)
    → HasUniqueNames s
    → HasUniqueNames (request c s).1
    → HasUniqueNames (gated required (some c) request s).1
unfolding gated
HasUniqueNames-gated required c request s h done =
    if-cases (λ (r : Bool × Server). HasUniqueNames r.1) (check_all c.client_type required)
      (request c s) (false, s) (λ e. done) (λ e. h)

-- Every step keeps names unique.
pub Step-HasUniqueNames : (s t : Server) → Step s t → HasUniqueNames s → HasUniqueNames t
unfolding register_service deregister_own_service deregister_own_services deregister_remote_services
    set_monitor_types deregister_monitor monitor_disconnect unmonitor_disconnect
    set_client_monitoring clear_client_monitoring
Step-HasUniqueNames _ _ (registers settings c name type disable s here) h =
    HasUniqueNames-register_client settings c name type disable s h
Step-HasUniqueNames _ _ (is_ready c s here) h =
    HasUniqueNames-Fewer s (indicate_ready (some c) s).1 (Fewer-indicate_ready c s) h
Step-HasUniqueNames _ _ (serves settings c name type location s here) h =
    HasUniqueNames-gated type_resource_client c (add_service settings name type location) s h
      (HasUniqueNames-add_service settings name type location c s h)
Step-HasUniqueNames _ _ (stops_service c name s here) h =
    HasUniqueNames-Fewer s (deregister_own_service (some c) name s).1
      (Fewer-gated type_resource_client c (λ d. remove_indiv_service d name) s
        (Fewer-remove_indiv_service c name s))
      h
Step-HasUniqueNames _ _ (stops_services c s here) h =
    HasUniqueNames-Fewer s (deregister_own_services (some c) s).1
      (Fewer-gated type_resource_client c deregister_all_own_services s (Fewer-deregister_all c s))
      h
Step-HasUniqueNames _ _ (stops_remote c location s here) h =
    HasUniqueNames-Fewer s (deregister_remote_services (some c) location s).1
      (Fewer-gated type_resource_client c (λ d. remove_remote_services d location) s
        (Fewer-remove_remote_services c location s))
      h
Step-HasUniqueNames _ _ (monitors c events s here) h =
    HasUniqueNames-gated type_monitor_client c
      (λ d u. (true, set_client_monitoring d.handle events u)) s h h
Step-HasUniqueNames _ _ (stops_monitor c s here) h =
    HasUniqueNames-gated type_monitor_client c (λ d u. (true, clear_client_monitoring d.handle u)) s
      h h
Step-HasUniqueNames _ _ (watches_for c name s here) h =
    HasUniqueNames-Fewer s (monitor_disconnect (some c) name s).1
      (Fewer-gated type_resource_client c (watch_exit name) s (Fewer-watch_exit name c s)) h
Step-HasUniqueNames _ _ (stops_watching c name s here) h =
    HasUniqueNames-Fewer s (unmonitor_disconnect (some c) name s).1
      (Fewer-gated type_resource_client c (unwatch_exit name) s (Fewer-unwatch_exit name c s)) h
Step-HasUniqueNames _ _ (ends session mode c s t) h =
    HasUniqueNames-Fewer s (remove_client_common session mode c (s, t)).1
      (Fewer-remove_client_common session mode c s t) h

-- From a server in which every name that is not empty is had by one client or service at most, no
-- sequence of requests and ends of clients leads to two parties of one name.
pub Run-HasUniqueNames : (s t : Server) → Run s t → HasUniqueNames s → HasUniqueNames t
Run-HasUniqueNames _ _ (rests s) h = h
Run-HasUniqueNames _ _ (goes s t u step run) h =
    Run-HasUniqueNames t u run (Step-HasUniqueNames s t step h)
