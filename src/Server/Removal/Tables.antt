-- ===== src/Server/Removal/Tables.antt =====
-- What the removal of a client (libs/server/client-list.cpp) leaves in each table.
use rservr.Base.{
  ℕ, ◌≡◌, ◌∙◌, refl, ap, List, [], ◌∷◌, Bool, true, false, not, Option, none, some, ◌==◌,
  drop_where, keep, update_first, Bool-cases, inl, inr,
}
use rservr.Flags.{type_none}
use rservr.Server.{
  Server, Client, Service, Event, emit, client_exit, client_stopped, client_detached,
  client_deregistered,
}
use rservr.Server.Clients.{
  has_handle, change_client, notify_target, notify_register_attempt, set_primary_service,
}
use rservr.Server.Services.{announce, owned_by, remove_services, remove_handle_services}
use rservr.Server.Monitors.{clear_client_monitoring, watches}
use rservr.Server.Removal.{report, detach, release, destroy, prepare}

-- All tables but the record of what was sent.
abbrev pub sending : List Event → Server → Server
sending events s = record s { sent = events }

pub announce_sends :
    (c : Client) (es : List Service) (s : Server)
    → announce c es s ≡ sending (announce c es s).sent s
unfolding announce
announce_sends c [] s = refl
announce_sends c (e ∷ es) s = announce_sends c es _

pub notify_sends :
    (target : Option Client) (reference : ℕ) (success : Bool) (s : Server)
    → notify_register_attempt target reference success s
      ≡ sending (notify_register_attempt target reference success s).sent s
unfolding notify_register_attempt
notify_sends none reference success s = refl
notify_sends (some c) reference success s = elim (Bool-cases (reference == 0)) [
  | inl e ↦ rw e
  | inr e ↦ rw e
]

released :
    (c : Client) (s : Server)
    → let after = remove_handle_services c (clear_client_monitoring c.handle s) in
      after ≡ record s {
        clients = update_first (has_handle c.handle) (set_primary_service []) s.clients;
        services = drop_where (owned_by c.handle) s.services;
        event_monitors = drop_where (watches c.handle) s.event_monitors;
        exit_monitors = drop_where (λ m. m.watcher == c.handle) s.exit_monitors;
        sent = after.sent;
      }
unfolding remove_handle_services remove_services change_client clear_client_monitoring
released c s =
    ap
      (λ x.
        change_client c.handle (set_primary_service [])
          (record x { services = drop_where (owned_by c.handle) s.services }))
      (announce_sends c (keep (owned_by c.handle) s.services) (clear_client_monitoring c.handle s))

pub releases :
    (mode : Bool) (c : Client) (s : Server)
    → release mode c s ≡ record s {
      clients = update_first (has_handle c.handle) (set_primary_service []) s.clients;
      services = drop_where (owned_by c.handle) s.services;
      event_monitors = drop_where (watches c.handle) s.event_monitors;
      exit_monitors = drop_where (λ m. m.watcher == c.handle) s.exit_monitors;
      sent = (release mode c s).sent;
    }
unfolding release
releases true c s = ap (emit (client_stopped c.process_id)) (released c s)
releases false c s = released c s

-- The client's services and monitors leave their tables, and every other client's stay; the table
-- of clients changes in the client itself only.
pub prepare_tables :
    (mode : Bool) (c : Client) (s : Server)
    → let after = prepare mode c s in
      (after.services ≡ drop_where (owned_by c.handle) s.services)
      × (after.event_monitors ≡ drop_where (watches c.handle) s.event_monitors)
      × (after.exit_monitors ≡ drop_where (λ m. m.watcher == c.handle) s.exit_monitors)
      × (after.clients
          ≡ update_first (has_handle c.handle) (set_primary_service []) (
              update_first
                (has_handle c.handle)
                (λ d. record d { notify = 0; reference = 0 })
                s.clients))
      × (after.exiting ≡ s.exiting)
unfolding prepare change_client
prepare_tables mode c s =
    let target = notify_target s c.notify c.reference in
    let cleared = change_client c.handle (λ d. record d { notify = 0; reference = 0 }) s in
    let told = notify_sends target c.reference false cleared in
    let gone = releases mode c (notify_register_attempt target c.reference false cleared) in
    (
      ap (λ x. x.services) gone ∙ ap (λ x. drop_where (owned_by c.handle) x.services) told,
      ap (λ x. x.event_monitors) gone
          ∙ ap (λ x. drop_where (watches c.handle) x.event_monitors) told,
      ap (λ x. x.exit_monitors) gone
          ∙ ap (λ x. drop_where (λ m. m.watcher == c.handle) x.exit_monitors) told,
      ap (λ x. x.clients) gone
          ∙ ap (λ x. update_first (has_handle c.handle) (set_primary_service []) x.clients) told,
      ap (λ x. x.exiting) gone ∙ ap (λ x. x.exiting) told,
    )

report_sends : (b : Bool) (e : Event) (s : Server) → report b e s ≡ sending (report b e s).sent s
report_sends true e s = refl
report_sends false e s = refl

detach_sends :
    (pid : Option ℕ) (c : Client) (s : Server) → detach pid c s ≡ sending (detach pid c s).sent s
unfolding detach
detach_sends none c s = refl
detach_sends (some pid) c s = ap (emit (client_detached pid)) (
    report_sends (not (c.client_type == type_none)) (client_deregistered c.process_id c.client_name)
      s)

-- The destructor only reports.
pub destroy_sends : (c : Client) (s : Server) → destroy c s ≡ sending (destroy c s).sent s
unfolding destroy
destroy_sends c s =
    let gone = report (not c.fresh_client) (client_exit c.handle c.client_name) s in
    detach_sends c.process_id c gone
    ∙ ap (sending (detach c.process_id c gone).sent)
        (report_sends (not c.fresh_client) (client_exit c.handle c.client_name) s)
