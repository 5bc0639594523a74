-- ===== src/Server/Services/Laws.antt =====
-- What the lookups find after a change of the services (libs/server/service-list.cpp).
use rservr.Base.{
  ℕ, ◌≡◌, ◌∙◌, refl, ap, List, [], ◌∷◌, ◌++◌, Bool, true, false, ◌&&◌, Option, none, some,
  if◌then◌else◌, Text, text_eq, text_eq_refl, is_empty, find, any, keep, drop_where, arith,
  Bool-cases, inl, inr, if-true,
}
use rservr.Server.{Server, Client, Service}
use rservr.Server.Clients.{get_client_id, change_client, set_primary_service}
use rservr.Server.Clients.Laws.{option_map, get_client_id-change_client_self}
use rservr.Server.Services.{
  named, owned_by, add_client_service, remove_services, remaining_service, remove_indiv_service,
  get_service_client_handle, get_service_address,
}
use rservr.Server.Removal.Tables.{announce_sends}
use rservr.Server.Sound.{keeps_primary}

find-append :
    (p : Service → Bool) (l : List Service) (e : Service)
    → any p l ≡ false
    → p e ≡ true
    → find p (l ++ (e ∷ [])) ≡ some e
unfolding find any
find-append p [] e h k = rw k
find-append p (x ∷ l) e h k = ground (arith, find-append p l e)

find-append_other :
    (p : Service → Bool) (l : List Service) (e : Service)
    → p e ≡ false
    → find p (l ++ (e ∷ [])) ≡ find p l
unfolding find
find-append_other p [] e k = rw k
find-append_other p (x ∷ l) e k = elim (Bool-cases (p x)) [
  | inl h ↦ rw h
  | inr h ↦ rw h (find-append_other p l e k)
]

abbrev owner_found : Option Service → ℕ
owner_found o = elim o [ none ↦ 0 | some e ↦ e.owner ]

abbrev location_found : Option Service → Option Text
location_found o = elim o [ none ↦ none | some e ↦ some e.service_location ]

-- A service that is added under a name that no service has is found by the name, with its owner and
-- its location.
pub get_service-add_client_service :
    (c : Client) (name type location : Text) (s : Server)
    → any (named name) s.services ≡ false
    → let after = add_client_service c name type location s in
      (get_service_client_handle after name ≡ c.handle)
      × (get_service_address after name ≡ some location)
unfolding add_client_service get_service_client_handle get_service_address change_client
get_service-add_client_service c name type location s fresh =
    let e : Service = record {
      owner = c.handle;
      service_name = name;
      service_type = type;
      service_location = location;
    } in
    let found = find-append (named name) s.services e fresh (text_eq_refl name) in
    (ap owner_found found, ap location_found found)

-- Every service of another name is found as before.
pub get_service-add_client_service_other :
    (c : Client) (name type location other : Text) (s : Server)
    → text_eq name other ≡ false
    → let after = add_client_service c name type location s in
      (get_service_client_handle after other ≡ get_service_client_handle s other)
      × (get_service_address after other ≡ get_service_address s other)
unfolding add_client_service get_service_client_handle get_service_address change_client
get_service-add_client_service_other c name type location other s differs =
    let e : Service = record {
      owner = c.handle;
      service_name = name;
      service_type = type;
      service_location = location;
    } in
    let same = find-append_other (named other) s.services e differs in
    (ap owner_found same, ap location_found same)

primary_after :
    (name : Text) (c : Client)
    → is_empty c.primary_service ≡ false
    → (set_primary_service name c).primary_service
      ≡ (if is_empty name then [] else c.primary_service)
unfolding set_primary_service
primary_after name c filled = ground arith

services-remove_services :
    (match : Service → Bool) (c : Client) (s : Server)
    → (remove_services match c s).services ≡ drop_where match s.services
unfolding remove_services
services-remove_services match c s = refl

clients-remove_services :
    (match : Service → Bool) (c : Client) (s : Server)
    → get_client_id (remove_services match c s) c.handle ≡ get_client_id s c.handle
unfolding remove_services get_client_id
clients-remove_services match c s =
    ap (λ (t : Server). get_client_id t c.handle) (announce_sends c (keep match s.services) s)

-- Removing a service that it owns from a client of the table that has a primary service clears the
-- primary service if no local service with a name is left to the client, and keeps it otherwise,
-- even if it names the service removed.
pub primary_service-remove_indiv_service :
    (c : Client) (name : Text) (s : Server)
    → get_client_id s c.handle ≡ some c
    → is_empty c.primary_service ≡ false
    → any (λ e. named name e && owned_by c.handle e) s.services ≡ true
    → let left = drop_where (λ e. named name e && owned_by c.handle e) s.services in
      option_map (λ d. d.primary_service) (get_client_id (remove_indiv_service c name s).1 c.handle)
      ≡ some (if is_empty (remaining_service c.handle left) then [] else c.primary_service)
unfolding remove_indiv_service remove_services
primary_service-remove_indiv_service c name s here filled present =
    let match : Service → Bool = λ e. named name e && owned_by c.handle e in
    let s1 = remove_services match c s in
    let primary = remaining_service c.handle s1.services in
    let changed : Server = change_client c.handle (set_primary_service primary) s1 in
    ap (λ (r : Bool × Server). option_map (λ d. d.primary_service) (get_client_id r.1 c.handle))
      (if-true (any match s.services) (true, changed) (false, s) present)
    ∙ (ap (option_map (λ d. d.primary_service)) (
          get_client_id-change_client_self c.handle (set_primary_service primary) s1
            (keeps_primary primary)
          ∙ ap (option_map (set_primary_service primary))
              (clients-remove_services match c s ∙ here))
        ∙ ap some (primary_after primary c filled))
