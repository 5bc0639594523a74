-- ===== src/Client/Commands/Sending.antt =====
-- What `transmit_command` hands to the output.
use rservr.Base.{
  ℕ, ◌≡◌, ◌≢◌, ◌∙◌, sym, ap, inl, inr, List, Bool, true, false, none, some, Option-cases, arith,
  is_empty,
}
use rservr.Flags.{check_all, command_no_remote}
use rservr.Client.Commands.{
  Prepared, Sender, may_transmit, addressed, after_transmit, transmit_found, transmit_command,
}
use rservr.Client.Commands.Finding.{view, view-handle, view-update_first}

pub given :
    (s : Sender) (h reference : ℕ) (silent : Bool) (q : List Prepared) (c g : Prepared)
    → view q h ≡ some c
    → (transmit_command s h reference silent q).2 ≡ some g
    → (may_transmit c ≡ true)
      × (g ≡ addressed s reference silent c)
      × (view (transmit_command s h reference silent q).1 h
          ≡ some (after_transmit s reference silent c))
unfolding transmit_command transmit_found
given s h reference silent q c g here out =
    let at_h = view-handle q h c here in
    let place = view-update_first q h h (after_transmit s reference silent c) at_h in
    ground (arith, here, out, at_h, place)

not_given :
    (s : Sender) (h reference : ℕ) (silent : Bool) (q : List Prepared) (g : Prepared)
    → view q h ≡ none
    → (transmit_command s h reference silent q).2 ≢ some g
unfolding transmit_command transmit_found
not_given s h reference silent q g here out = ground (arith, here, out)

-- A command that the output is given was in the queue under the handle, was not received for
-- another server and, if it is confined to its server, has no address; it goes to the target that
-- was set, carries the new reference, and the remote reference of the request that it answers or
-- else the new one; and the command that stays in the queue is the same but for its remote
-- reference, which is the one it had.
pub transmit_command-sent :
    (s : Sender) (h reference : ℕ) (silent : Bool) (q : List Prepared) (g : Prepared)
    → (transmit_command s h reference silent q).2 ≡ some g
    → (c : Prepared) × (view q h ≡ some c)
      × (c.no_send ≡ false)
      × (check_all c.execute_type command_no_remote ≡ true → is_empty c.target_address ≡ true)
      × (g.target_entity ≡ c.target_entity)
      × (g.target_address ≡ c.target_address)
      × (g.orig_reference ≡ reference)
      × (c.remote_reference ≢ 0 → g.remote_reference ≡ c.remote_reference)
      × (c.remote_reference ≡ 0 → g.remote_reference ≡ reference)
      × (view (transmit_command s h reference silent q).1 h
          ≡ some (record g { remote_reference = c.remote_reference }))
unfolding may_transmit addressed after_transmit
transmit_command-sent s h reference silent q g out = elim (Option-cases (view q h)) [
  | inl e ↦ absurd (not_given s h reference silent q g e out)
  | inr (c, e) ↦
      let (may, is_g, stays) = given s h reference silent q c g e out in
      (
        c,
        e,
        ground (arith, may),
        (λ confined. ground (arith, may, confined)),
        ap (λ (x : Prepared). x.target_entity) is_g,
        ap (λ (x : Prepared). x.target_address) is_g,
        ap (λ (x : Prepared). x.orig_reference) is_g,
        (λ set. ground (arith, is_g, set)),
        (λ unset. ground (arith, is_g, unset)),
        stays
            ∙ ap (λ (x : Prepared). some (record x { remote_reference = c.remote_reference }))
                (sym is_g),
      )
]

-- A command that is no answer is sent again with a new reference of its own: the second time it
-- carries the second reference, also as its remote reference.
pub transmit_command_again :
    (s : Sender) (h first second : ℕ) (b d : Bool) (q : List Prepared) (c g again : Prepared)
    → view q h ≡ some c
    → c.remote_reference ≡ 0
    → (transmit_command s h first b q).2 ≡ some g
    → (transmit_command s h second d (transmit_command s h first b q).1).2 ≡ some again
    → (again.orig_reference ≡ second)
      × (again.remote_reference ≡ second)
      × (again.target_entity ≡ g.target_entity)
      × (again.target_address ≡ g.target_address)
unfolding addressed after_transmit
transmit_command_again s h first second b d q c g again here unset out out_again =
    let (may, is_g, stays) = given s h first b q c g here out in
    let left = (transmit_command s h first b q).1 in
    let (may_again, is_again, stays_again) =
      given s h second d left (after_transmit s first b c) again stays out_again in
    (
      ap (λ (x : Prepared). x.orig_reference) is_again,
      ap (λ (x : Prepared). x.remote_reference) is_again ∙ ground (arith, unset),
      ap (λ (x : Prepared). x.target_entity) is_again
          ∙ sym (ap (λ (x : Prepared). x.target_entity) is_g),
      ap (λ (x : Prepared). x.target_address) is_again
          ∙ sym (ap (λ (x : Prepared). x.target_address) is_g),
    )
