-- ===== src/Client/Streams/Targets.antt =====
-- Commands that are sent through a service, or through a client at an address.
use rservr.Base.{
  ℕ, ◌≡◌, ◌<◌, sym, refl, subst, List, [], ◌∷◌, Bool, true, false, some, Text, is_empty,
}
use rservr.Address.{client_scope_char}
use rservr.Address.Labels.{check_entity_label}
use rservr.Address.Hops.{Free}
use rservr.Address.Routes.{hop, Clients}
use rservr.Client.Commands.{Prepared, keeps_address, insert_remote_scope}
use rservr.Client.Commands.Finding.{view}
use rservr.Client.Commands.Scopes.{PassesOn, insert_remote_scope_passes}
use rservr.Client.Streams.{Place, insert_remote_target, insert_service_address}
use rservr.Address.{insert_remote_client}

inserts_target :
    (here : Place) (h : ℕ) (client address : Text) (q : List Prepared)
    → is_empty client ≡ false
    → check_entity_label here.entity_matches (some client) ≡ true
    → check_entity_label here.entity_matches (some address) ≡ true
    → insert_remote_target here h client address q ≡ insert_remote_scope h (hop (client, address)) q
unfolding insert_remote_target insert_remote_client
inserts_target here h client address q named fits fits_too = rw (named, fits, fits_too) refl

inserts_service :
    (here : Place) (h : ℕ) (service : Text) (q : List Prepared)
    → is_empty service ≡ false
    → check_entity_label here.entity_matches (some service) ≡ true
    → insert_service_address here h service q ≡ insert_remote_scope h (hop (service, [])) q
unfolding insert_service_address insert_remote_client
inserts_service here h service q named fits = rw (named, fits) refl

-- A command that may be given an address, and is to be sent from here, can be sent through a client
-- at an address, or through a service, under names that are valid and have no separators: it goes
-- there, and when a client and an address are split off its address there, it goes on to the client
-- and the address that it had before.
pub insert_remote_target_passes :
    (here : Place) (h : ℕ) (client address : Text) (q : List Prepared) (c : Prepared)
    → 0 < h
    → view q h ≡ some c
    → c.no_send ≡ false
    → keeps_address c ≡ false
    → is_empty client ≡ false
    → check_entity_label here.entity_matches (some client) ≡ true
    → check_entity_label here.entity_matches (some address) ≡ true
    → Clients ((client, address) ∷ [])
    → Free client_scope_char c.target_entity
    → PassesOn h client c (insert_remote_target here h client address q).1
      × PassesOn h client c (insert_service_address here h client q).1
insert_remote_target_passes here h client address q c real there sends open_way named fits fits_too
      names free =
    (
      subst (λ (r : Bool × List Prepared). PassesOn h client c r.1)
          (sym (inserts_target here h client address q named fits fits_too))
          (insert_remote_scope_passes h client address q c real there sends open_way names free),
      subst (λ (r : Bool × List Prepared). PassesOn h client c r.1)
          (sym (inserts_service here h client q named fits))
          (insert_remote_scope_passes h client [] q c real there sends open_way
            ((names.0.0, names.0.1, tt), tt) free),
    )
