-- ===== src/Client/Commands/Map.antt =====
-- The queue of prepared commands read as a map from handles to commands.
use rservr.Base.{
  ℕ, ◌≤◌, ◌<◌, ◌≡◌, ap, inl, inr, List, Bool, false, not, ◌&&◌, Option, none, some, ◌==◌,
  if◌then◌else◌, Option-cases, count, arith, Text, if-cases,
}
use rservr.Address.{insert_existing_scope, set_to_server_scope}
use rservr.Client.Commands.{
  Prepared, Sender, priority_immediate, find_command_handle, queue_new_command, remove_command,
  change_command, may_transmit, after_transmit, transmit_found, transmit_command, released,
  forward_command, set_response_entity, keeps_address, insert_remote_scope, change_priority,
  set_server_address,
}
use rservr.Client.Commands.Finding.{
  view, view-handle, view-append_one, view-drop_where, view-update_first, view-drop_first, changed,
  view-change_command,
}

-- The calls that change the queue.
pub data Call : Type 0 where
  queue : Prepared → Call
  remove : ℕ → Call
  transmit : ℕ → ℕ → Bool → Call
  forward : ℕ → Call
  respond : ℕ → Text → Call
  scope : ℕ → Text → Call
  prioritise : ℕ → ℕ → Call
  server_of : ℕ → Text → Text → Call

-- The handle that a call is about.
abbrev pub subject : Call → ℕ
subject (queue c) = c.handle
subject (remove h) = h
subject (transmit h reference silent) = h
subject (forward h) = h
subject (respond h entity) = h
subject (scope h address) = h
subject (prioritise h priority) = h
subject (server_of h client address) = h

unfoldable pub run_call : Sender → Call → List Prepared → List Prepared
run_call s (queue c) q = queue_new_command c q
run_call s (remove h) q = (remove_command h q).1
run_call s (transmit h reference silent) q = (transmit_command s h reference silent q).1
run_call s (forward h) q = (forward_command h q).1
run_call s (respond h entity) q = (set_response_entity h entity q).1
run_call s (scope h address) q = (insert_remote_scope h address q).1
run_call s (prioritise h priority) q = (change_priority h priority q).1
run_call s (server_of h client address) q = (set_server_address h client address q).1

when : Bool → Prepared → Prepared → Prepared
when b x c = if b then x else c

-- What a call makes of the command at its handle.
unfoldable pub becomes : Sender → Call → Option Prepared → Option Prepared
unfolding when
becomes s (queue c) o = some (record c { priority = priority_immediate })
becomes s (remove h) o = none
becomes s other none = none
becomes s (transmit h reference silent) (some c) =
    some (when (may_transmit c) (after_transmit s reference silent c) c)
becomes s (forward h) (some c) = if c.no_send then none else some c
becomes s (respond h entity) (some c) =
    some (when (not c.no_send) (record c { orig_entity = entity }) c)
becomes s (scope h address) (some c) =
    let route = insert_existing_scope c.target_entity c.target_address address in
    some (
      when (not c.no_send && not (keeps_address c))
        (record c { target_entity = route.0; target_address = route.1 }) c)
becomes s (prioritise h priority) (some c) = some (record c { priority = priority })
becomes s (server_of h client address) (some c) =
    let route = set_to_server_scope client address in
    some (
      when (not c.no_send && not (keeps_address c) && route.0)
        (record c { target_entity = route.1; target_address = route.2 }) c)

-- No handle is null, and none stands for two commands.
pub record HasHandles (q : List Prepared) : Type 0 where
  pub null_free : view q 0 ≡ none
  pub single : (k : ℕ) → count (find_command_handle k) q ≤ 1

-- A new command is at a new address.
abbrev pub IsFresh : Call → List Prepared → Type 0
IsFresh (queue c) q = (view q c.handle ≡ none) × (0 < c.handle)
IsFresh other q = Unit {0}

-- A call changes the command at its handle as the map says, and no other.
unfoldable pub IsMapped : Sender → Call → List Prepared → Type 0
IsMapped s call q =
    (k : ℕ)
    → view (run_call s call q) k
      ≡ (if k == subject call then becomes s call (view q k) else view q k)

module _ (f : Prepared → Option Prepared) (g : Option Prepared → Option Prepared)
    (keeps : (c x : Prepared) → f c ≡ some x → x.handle ≡ c.handle)
    (agree : (o : Option Prepared) → changed f o ≡ g o) where
  mapped_change :
      (h k : ℕ) (q : List Prepared)
      → view q 0 ≡ none
      → view ((if h == 0 then (false, q) else change_command h f q).1) k
        ≡ (if k == h then g (view q k) else view q k)
  mapped_change h k q null_free =
      if-cases
        (λ (r : Bool × List Prepared). view r.1 k ≡ (if k == h then g (view q k) else view q k))
        (h == 0) _ _ (λ e. ground (arith, null_free, agree none, ap (view q)))
        (λ e. ground (arith, (view-change_command f q h k keeps).0, agree (view q h), ap (view q)))

module _ (s : Sender) where
  pub queue-IsMapped :
      (c : Prepared) (q : List Prepared) → IsFresh (queue c) q → IsMapped s (queue c) q
  unfolding IsMapped run_call becomes queue_new_command
  queue-IsMapped c q fresh k =
      view-append_one q (record c { priority = priority_immediate }) k fresh.0

  pub remove-IsMapped : (h : ℕ) (q : List Prepared) → HasHandles q → IsMapped s (remove h) q
  unfolding IsMapped run_call becomes remove_command
  remove-IsMapped h q valid k = ground (arith, valid.null_free, view-drop_where q h k, ap (view q))

  pub respond-IsMapped :
      (h : ℕ) (entity : Text) (q : List Prepared) → HasHandles q → IsMapped s (respond h entity) q
  unfolding IsMapped run_call becomes set_response_entity
  respond-IsMapped h entity q valid k =
      mapped_change _ (becomes s (respond h entity)) (λ c x e. ground arith) (λ o. ground arith) h k
        q valid.null_free

  pub scope-IsMapped :
      (h : ℕ) (address : Text) (q : List Prepared) → HasHandles q → IsMapped s (scope h address) q
  unfolding IsMapped run_call becomes insert_remote_scope
  scope-IsMapped h address q valid k =
      mapped_change _ (becomes s (scope h address)) (λ c x e. ground arith) (λ o. ground arith) h k
        q valid.null_free

  pub prioritise-IsMapped :
      (h n : ℕ) (q : List Prepared) → HasHandles q → IsMapped s (prioritise h n) q
  unfolding IsMapped run_call becomes change_priority
  prioritise-IsMapped h n q valid k =
      mapped_change _ (becomes s (prioritise h n)) (λ c x e. ground arith) (λ o. ground arith) h k q
        valid.null_free

  pub server_of-IsMapped :
      (h : ℕ) (client address : Text) (q : List Prepared)
      → HasHandles q
      → IsMapped s (server_of h client address) q
  unfolding IsMapped run_call becomes set_server_address
  server_of-IsMapped h client address q valid k =
      mapped_change _ (becomes s (server_of h client address)) (λ c x e. ground arith)
        (λ o. ground arith) h k q valid.null_free

  pub forward-IsMapped : (h : ℕ) (q : List Prepared) → HasHandles q → IsMapped s (forward h) q
  unfolding IsMapped run_call becomes forward_command released
  forward-IsMapped h q valid k = elim (Option-cases (view q h)) [
    | inl e ↦ ground (arith, e, valid.null_free, ap (view q))
    | inr (c, e) ↦
        ground (arith, e, valid.null_free, view-drop_first q h k (valid.single h), ap (view q))
  ]

  pub transmit-IsMapped :
      (h n : ℕ) (b : Bool) (q : List Prepared) → HasHandles q → IsMapped s (transmit h n b) q
  unfolding IsMapped run_call becomes transmit_command transmit_found
  transmit-IsMapped h n b q valid k = elim (Option-cases (view q h)) [
    | inl e ↦ ground (arith, e, ap (view q))
    | inr (c, e) ↦ ground (
      arith,
      e,
      view-handle q h c e,
      view-update_first q h k (after_transmit s n b c) (view-handle q h c e),
      ap (view q),
    )
  ]
