-- ===== src/Client/Commands/Scopes.antt =====
-- Where a prepared command goes once a hop was put in front of its way.
use rservr.Base.{
  ℕ, ◌≡◌, ◌∙◌, ◌<◌, refl, ap, List, [], ◌∷◌, Bool, false, ◌||◌, Option, none, some, Text, ◌==◌,
  ==_refl, if◌then◌else◌, if-true, if-false, arith,
}
use rservr.Address.{client_scope_char, next_client_scope, next_address_scope, insert_separate_scope}
use rservr.Address.Hops.{Free, insert_separate_scope_returns}
use rservr.Address.Routes.{hop, Clients, insert_existing_scope-through}
use rservr.Client.Commands.{
  Prepared, change_command, keeps_address, with_scope, insert_remote_scope,
}
use rservr.Client.Commands.Finding.{view, changed, view-change_command}

scoped :
    (h : ℕ) (address : Text) (q : List Prepared) (c : Prepared)
    → 0 < h
    → view q h ≡ some c
    → c.no_send ≡ false
    → keeps_address c ≡ false
    → view (insert_remote_scope h address q).1 h ≡ some (with_scope address c)
unfolding insert_remote_scope with_scope
scoped h address q c real here sends open_way =
    let f : Prepared → Option Prepared =
      λ x. if x.no_send || keeps_address x then none else some (with_scope address x) in
    ap (λ (r : Bool × List Prepared). view r.1 h)
      (if-false (h == 0) (false, q) (change_command h f q) (ground (arith, real)))
    ∙ ((view-change_command f q h h (λ x y e. kept x y e)).0
        ∙ (if-true (h == h) _ _ (==_refl h) ∙ (ap (changed f) here ∙ rw (sends, open_way) refl)))
  where
    kept :
        (x y : Prepared)
        → (if x.no_send || keeps_address x then none else some (with_scope address x)) ≡ some y
        → y.handle ≡ x.handle
    kept x y e = ground (arith, e)

-- The command at a handle goes to a client, which passes it on to where another would have gone.
abbrev pub PassesOn : ℕ → Text → Prepared → List Prepared → Type 0
PassesOn h client c q =
    (x : Prepared) × (view q h ≡ some x)
    × (x.target_entity ≡ client)
    × ((next_client_scope x.target_address).0 ≡ c.target_entity)
    × (next_address_scope (next_client_scope x.target_address).1 ≡ c.target_address)

-- A command that may be given an address, and goes to a client, goes to the client of a hop instead
-- once the hop is put in front: when it is passed on there, by splitting off a client and an
-- address, it goes on to the client and the address that it had before.
pub insert_remote_scope_passes :
    (h : ℕ) (client address : Text) (q : List Prepared) (c : Prepared)
    → 0 < h
    → view q h ≡ some c
    → c.no_send ≡ false
    → keeps_address c ≡ false
    → Clients ((client, address) ∷ [])
    → Free client_scope_char c.target_entity
    → PassesOn h client c (insert_remote_scope h (hop (client, address)) q).1
unfolding with_scope insert_separate_scope
insert_remote_scope_passes h client address q c real here sends open_way names free =
    let way =
      insert_existing_scope-through c.target_entity c.target_address (client, address) [] names in
    let (back, rest) =
      insert_separate_scope_returns c.target_entity c.target_address client address free
        names.0.2 in
    (
      with_scope (hop (client, address)) c,
      scoped h (hop (client, address)) q c real here sends open_way,
      ap (λ r. r.0) way,
      ap (λ (r : Text × Text). (next_client_scope r.1).0) way ∙ back,
      ap (λ (r : Text × Text). next_address_scope (next_client_scope r.1).1) way ∙ rest,
    )
