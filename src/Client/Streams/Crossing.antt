-- ===== src/Client/Streams/Crossing.antt =====
-- A command goes over to another server, and its response comes back.
use rservr.Base.{ℕ, ◌≡◌, ◌∙◌, refl, ap, [], ◌∷◌, Option, Text}
use rservr.Address.{
  client_scope_char, address_scope_char, next_client_scope, next_address_scope, copy_next_scope,
  insert_remote_address, insert_separate_scope,
}
use rservr.Address.Hops.{
  Free, strsep-append, strsep-Free, next_client_scope-insert_remote_client,
  next_address_scope-insert_remote_address,
}
use rservr.Client.Commands.{Prepared}
use rservr.Client.Receiving.{remote_copy}
use rservr.Client.Streams.{Place, arrived}

-- The address that is looked up for the next hop is the one that was put in front.
copy_next_scope-insert_remote_address :
    (current address : Text)
    → Free address_scope_char address
    → copy_next_scope (insert_remote_address current address) ≡ address
unfolding copy_next_scope insert_remote_address
copy_next_scope-insert_remote_address [] address h =
    rw (strsep-Free address_scope_char address h) refl
copy_next_scope-insert_remote_address (c ∷ s) address h =
    ap (λ r. r.0) (strsep-append address_scope_char address (c ∷ s) h)

-- What is split off the way back of an arrived command.
split_back :
    (there : Place) (name : Option Text) (address : Text) (c : Prepared)
    → Free client_scope_char c.orig_entity
    → next_client_scope (arrived there name address c).orig_address
      ≡ (c.orig_entity, insert_remote_address c.orig_address address)
unfolding arrived insert_separate_scope
split_back there name address c h =
    next_client_scope-insert_remote_client (insert_remote_address c.orig_address address)
      c.orig_entity h

-- The parts of a copy that is passed on.
copied :
    (current : ℕ) (x : Prepared) (entity address : Text)
    → next_client_scope x.target_address ≡ (entity, address)
    → ((remote_copy current x).target_entity ≡ entity)
      × ((remote_copy current x).target_address ≡ address)
unfolding remote_copy
copied current x entity address h = (ap (λ r. r.0) h, ap (λ r. r.1) h)

-- A command that came over the connection of an address is answered at the way back that it has
-- there. The copy of the answer that is passed on is sent over the same connection; where it
-- arrives, its target is the client that sent the command, at the address that the command came
-- from, whatever the two servers and their clients are called.
pub crossing_returns :
    (here there : Place) (name name_back : Option Text) (address address_back : Text) (current : ℕ)
    (c x : Prepared)
    → Free client_scope_char c.orig_entity
    → Free address_scope_char address
    → x.target_address ≡ (arrived there name address c).orig_address
    → let passed = remote_copy current x in
      let back = arrived here name_back address_back passed in
      (copy_next_scope passed.target_address ≡ address)
      × (back.target_entity ≡ c.orig_entity)
      × (back.target_address ≡ c.orig_address)
unfolding arrived
crossing_returns here there name name_back address address_back current c x client_free address_free
      way =
    let way_back = insert_remote_address c.orig_address address in
    let (entity, route) =
      copied current x c.orig_entity way_back
        (ap next_client_scope way ∙ split_back there name address c client_free) in
    (
      ap copy_next_scope route
          ∙ copy_next_scope-insert_remote_address c.orig_address address address_free,
      entity,
      ap next_address_scope route
          ∙ next_address_scope-insert_remote_address c.orig_address address address_free,
    )
