-- ===== src/Server/Names.antt =====
-- Names find at most one party: how many clients and services have a name, and the operations of
-- libs/server that make these numbers no larger.
pub mod Bearers
pub mod Requests
use rservr.Base.{
  keep, ◌&&◌, ℕ, ◌+◌, ◌≤◌, ◌≡◌, ◌∙◌, refl, ap, List, [], ◌∷◌, Bool, true, false, ◌==◌,
  if◌then◌else◌, Text, text_eq, is_empty, arith, count, drop_where, update_first, count-drop_where,
  count-update_first, map, if-cases, any,
}
use rservr.Server.{Server, Client, Service}
use rservr.Server.Clients.{
  has_handle, has_name, change_client, notify_target, notify_register_attempt, continue_if_settled,
  set_primary_service, manual_update, manual_update_readiness,
}
use rservr.Server.Services.{
  named, owned_by, located, remaining_service, announce, remove_services, remove_indiv_service,
  remove_handle_services, remove_remote_services,
}
use rservr.Server.Register.Effects.{
  clients-notify_register_attempt, clients-continue_if_settled, registrations,
}
use rservr.Server.Removal.{drop_first, destroy, prepare, remove_client_common}
use rservr.Server.Removal.Tables.{announce_sends, prepare_tables, destroy_sends}
use rservr.Terminal.{Terminal, Session}

abbrev pub clients_named : Text → List Client → ℕ
clients_named name cs = count (has_name name) cs

abbrev pub services_named : Text → List Service → ℕ
services_named name services = count (named name) services

-- No client and service, no two clients and no two services share a name that is not empty.
abbrev pub HasUniqueNames : Server → Type 0
HasUniqueNames s =
    (name : Text)
    → is_empty name ≡ false
    → clients_named name s.clients + services_named name s.services ≤ 1

-- No name is had by more clients, or by more services.
abbrev pub Fewer : Server → Server → Type 0
Fewer s t =
    (name : Text)
    → (clients_named name t.clients ≤ clients_named name s.clients)
      × (services_named name t.services ≤ services_named name s.services)

pub Fewer-refl : (s : Server) → Fewer s s
Fewer-refl s name = (omega arith, omega arith)

pub Fewer-trans : (s t u : Server) → Fewer s t → Fewer t u → Fewer s u
Fewer-trans s t u first second name =
    (omega (arith, (first name).0, (second name).0), omega (arith, (first name).1, (second name).1))

pub HasUniqueNames-Fewer : (s t : Server) → Fewer s t → HasUniqueNames s → HasUniqueNames t
HasUniqueNames-Fewer s t fewer h name filled =
    omega (arith, h name filled, (fewer name).0, (fewer name).1)

pub Fewer-change_client :
    (handle : ℕ) (f : Client → Client) (s : Server)
    → ((c : Client) → (f c).client_name ≡ c.client_name)
    → Fewer s (change_client handle f s)
unfolding change_client
Fewer-change_client handle f s keeps name = (
  omega (
    arith,
    count-update_first (has_name name) (has_handle handle) f s.clients
        (λ c. ap (λ n. text_eq n name) (keeps c)),
  ),
  omega arith,
)

-- By the equations of the two tables.
pub Fewer-equal : (s t : Server) → t.clients ≡ s.clients → t.services ≡ s.services → Fewer s t
Fewer-equal s t clients services name = (
  omega (arith, ap (clients_named name) clients),
  omega (arith, ap (services_named name) services),
)

pub keeps_name :
    (primary : Text) (c : Client) → (set_primary_service primary c).client_name ≡ c.client_name
unfolding set_primary_service
keeps_name primary c = ground arith

pub Fewer-remove_services :
    (match : Service → Bool) (c : Client) (s : Server) → Fewer s (remove_services match c s)
unfolding remove_services
Fewer-remove_services match c s name = (
  omega (
    arith,
    ap (λ (t : Server). clients_named name t.clients) (announce_sends c (keep match s.services) s),
  ),
  count-drop_where (named name) match s.services,
)

pub Fewer-remove_handle_services : (c : Client) (s : Server) → Fewer s (remove_handle_services c s)
unfolding remove_handle_services
Fewer-remove_handle_services c s =
    let s1 = remove_services (owned_by c.handle) c s in
    Fewer-trans s s1 (change_client c.handle (set_primary_service []) s1)
      (Fewer-remove_services (owned_by c.handle) c s)
      (Fewer-change_client c.handle (set_primary_service []) s1 (keeps_name []))

pub Fewer-remove_indiv_service :
    (c : Client) (name : Text) (s : Server) → Fewer s (remove_indiv_service c name s).1
unfolding remove_indiv_service
Fewer-remove_indiv_service c name s =
    let match : Service → Bool = λ e. named name e && owned_by c.handle e in
    let s1 = remove_services match c s in
    let primary = remaining_service c.handle s1.services in
    let after = change_client c.handle (set_primary_service primary) s1 in
    if-cases (λ (r : Bool × Server). Fewer s r.1) (any match s.services) (true, after) (false, s)
      (λ e.
        Fewer-trans s s1 after (Fewer-remove_services match c s)
          (Fewer-change_client c.handle (set_primary_service primary) s1 (keeps_name primary)))
      (λ e. Fewer-refl s)

pub Fewer-remove_remote_services :
    (c : Client) (location : Text) (s : Server) → Fewer s (remove_remote_services c location s).1
unfolding remove_remote_services
Fewer-remove_remote_services c location s =
    let match : Service → Bool = λ e. located location e && owned_by c.handle e in
    if-cases (λ (r : Bool × Server). Fewer s r.1) (any match s.services)
      (true, remove_services match c s) (false, s) (λ e. Fewer-remove_services match c s)
      (λ e. Fewer-refl s)

count-drop_first : (p q : Client → Bool) (cs : List Client) → count p (drop_first q cs) ≤ count p cs
unfolding count drop_first
count-drop_first p q [] = omega arith
count-drop_first p q (c ∷ cs) = ground (arith, count-drop_first p q cs)

Fewer-prepare : (mode : Bool) (c : Client) (s : Server) → Fewer s (prepare mode c s)
Fewer-prepare mode c s name =
    let (services, events, exits, clients, same) = prepare_tables mode c s in
    let p = has_name name in
    let q = has_handle c.handle in
    let told : List Client =
      update_first q (λ d. record d { notify = 0; reference = 0 }) s.clients in
    (
      omega (
        arith,
        ap (count p) clients,
        count-update_first p q (set_primary_service []) told
            (λ d. ap (λ n. text_eq n name) (keeps_name [] d)),
        count-update_first p q (λ d. record d { notify = 0; reference = 0 }) s.clients (λ d. refl),
      ),
      omega (
        arith,
        ap (count (named name)) services,
        count-drop_where (named name) (owned_by c.handle) s.services,
      ),
    )

pub Fewer-remove_client_common :
    (session : Session) (mode : Bool) (c : Client) (s : Server) (t : Terminal)
    → Fewer s (remove_client_common session mode c (s, t)).1
unfolding remove_client_common
Fewer-remove_client_common session mode c s t =
    if-cases (λ (r : Bool × Server × Terminal). Fewer s r.1) c.critical _ _
      (λ e. Fewer-prepare mode c s)
      (λ e. Fewer-trans s (prepare mode c s) (destroy c rest) (Fewer-prepare mode c s) dropped)
  where
    rest : Server
    rest = record (prepare mode c s) {
      clients = drop_first (has_handle c.handle) (prepare mode c s).clients;
    }

    dropped : Fewer (prepare mode c s) (destroy c rest)
    dropped name = (
      omega (
        arith,
        ap (λ (x : Server). clients_named name x.clients) (destroy_sends c rest),
        count-drop_first (has_name name) (has_handle c.handle) (prepare mode c s).clients,
      ),
      omega (arith, ap (λ (x : Server). services_named name x.services) (destroy_sends c rest)),
    )
