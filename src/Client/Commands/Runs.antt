-- ===== src/Client/Commands/Runs.antt =====
-- Any sequence of calls on the queue of prepared commands, as a map.
use mathlib.Core.Path.{fun_ext}
use rservr.Base.{
  ℕ, ◌≤◌, ◌≡◌, ◌∙◌, refl, ap, inl, inr, List, [], ◌∷◌, Bool, false, Option, none, some, ◌==◌,
  if◌then◌else◌, Option-cases, count, arith, count-append_one, count-drop_where, if-cases,
}
use rservr.Client.Commands.{
  Prepared, Sender, find_command_handle, queue_new_command, remove_command, change_command,
  after_transmit, transmit_found, transmit_command, released, forward_command, set_response_entity,
  insert_remote_scope, change_priority, set_server_address,
}
use rservr.Client.Commands.Finding.{
  view, count_of_view, count-update_first_handle, count-drop_first, count-change_command,
}
use rservr.Client.Commands.Map.{
  Call, queue, remove, transmit, forward, respond, scope, prioritise, server_of, subject, run_call,
  becomes, HasHandles, IsFresh, IsMapped, queue-IsMapped, remove-IsMapped, respond-IsMapped,
  scope-IsMapped, prioritise-IsMapped, server_of-IsMapped, forward-IsMapped, transmit-IsMapped,
}

module _ (s : Sender) where
  pub run_call-IsMapped :
      (call : Call) (q : List Prepared) → HasHandles q → IsFresh call q → IsMapped s call q
  run_call-IsMapped (queue c) q valid fresh = queue-IsMapped s c q fresh
  run_call-IsMapped (remove h) q valid fresh = remove-IsMapped s h q valid
  run_call-IsMapped (transmit h n b) q valid fresh = transmit-IsMapped s h n b q valid
  run_call-IsMapped (forward h) q valid fresh = forward-IsMapped s h q valid
  run_call-IsMapped (respond h entity) q valid fresh = respond-IsMapped s h entity q valid
  run_call-IsMapped (scope h address) q valid fresh = scope-IsMapped s h address q valid
  run_call-IsMapped (prioritise h n) q valid fresh = prioritise-IsMapped s h n q valid
  run_call-IsMapped (server_of h client address) q valid fresh =
      server_of-IsMapped s h client address q valid

  null_free_after :
      (call : Call) (q : List Prepared)
      → HasHandles q
      → IsFresh call q
      → view (run_call s call q) 0 ≡ none
  unfolding IsMapped becomes
  null_free_after (queue c) q valid fresh =
      run_call-IsMapped (queue c) q valid fresh 0 ∙ ground (arith, valid.null_free)
  null_free_after other q valid fresh =
      run_call-IsMapped other q valid fresh 0 ∙ ground (arith, valid.null_free)

  changed_single :
      (f : Prepared → Option Prepared) (h k : ℕ) (q : List Prepared)
      → ((c x : Prepared) → f c ≡ some x → x.handle ≡ c.handle)
      → count (find_command_handle k) q ≤ 1
      → count (find_command_handle k) (if h == 0 then (false, q) else change_command h f q).1 ≤ 1
  changed_single f h k q keeps one =
      if-cases (λ (r : Bool × List Prepared). count (find_command_handle k) r.1 ≤ 1) (h == 0) _ _
        (λ e. one) (λ e. omega (arith, count-change_command f q h k keeps))

  pub mapped :
      (call : Call) (q : List Prepared)
      → HasHandles q
      → IsFresh call q
      → (k : ℕ)
      → view (run_call s call q) k
        ≡ (if k == subject call then becomes s call (view q k) else view q k)
  unfolding IsMapped
  mapped call q valid fresh = run_call-IsMapped call q valid fresh

  single_after :
      (call : Call) (q : List Prepared)
      → HasHandles q
      → IsFresh call q
      → (k : ℕ) → count (find_command_handle k) (run_call s call q) ≤ 1
  unfolding run_call queue_new_command find_command_handle remove_command transmit_command
      transmit_found forward_command released set_response_entity insert_remote_scope
      change_priority set_server_address
  single_after (queue c) q valid fresh k = ground (
    arith,
    count-append_one (find_command_handle k) q (record c { priority = 0 }),
    valid.single k,
    count_of_view q k,
    ap (view q),
  )
  single_after (remove h) q valid fresh k =
      ground
        (arith, valid.single k, count-drop_where (find_command_handle k) (find_command_handle h) q)
  single_after (transmit h n b) q valid fresh k = elim (Option-cases (view q h)) [
    | inl e ↦ ground (arith, e, valid.single k)
    | inr (c, e) ↦
        ground (
          arith,
          e,
          valid.single k,
          count-update_first_handle q c.handle k (after_transmit s n b c),
        )
  ]
  single_after (forward h) q valid fresh k = elim (Option-cases (view q h)) [
    | inl e ↦ ground (arith, e, valid.single k)
    | inr (c, e) ↦ ground (arith, e, valid.single k, count-drop_first q h k)
  ]
  single_after (respond h entity) q valid fresh k =
      changed_single _ h k q (λ c x e. ground arith) (valid.single k)
  single_after (scope h address) q valid fresh k =
      changed_single _ h k q (λ c x e. ground arith) (valid.single k)
  single_after (prioritise h n) q valid fresh k =
      changed_single _ h k q (λ c x e. ground arith) (valid.single k)
  single_after (server_of h client address) q valid fresh k =
      changed_single _ h k q (λ c x e. ground arith) (valid.single k)

  pub run_call-HasHandles :
      (call : Call) (q : List Prepared)
      → HasHandles q
      → IsFresh call q
      → HasHandles (run_call s call q)
  run_call-HasHandles call q valid fresh = record {
    null_free = null_free_after call q valid fresh;
    single = single_after call q valid fresh;
  }

  unfoldable pub run_calls : List Call → List Prepared → List Prepared
  run_calls [] q = q
  run_calls (call ∷ calls) q = run_calls calls (run_call s call q)

  -- The same calls on a map.
  unfoldable pub replay : List Call → (ℕ → Option Prepared) → ℕ → Option Prepared
  replay [] m = m
  replay (call ∷ calls) m =
      replay calls (λ k. if k == subject call then becomes s call (m k) else m k)

  -- Each new command is at a new address when it is queued.
  unfoldable pub AreFresh : List Call → List Prepared → Type 0
  AreFresh [] q = Unit {0}
  AreFresh (call ∷ calls) q = IsFresh call q × AreFresh calls (run_call s call q)

  -- Any calls on a queue whose handles are not null and stand for one command each leave such a
  -- queue, and the commands in it are, handle by handle, what the same calls make of a map.
  pub run_calls_refines :
      (calls : List Call) (q : List Prepared)
      → HasHandles q
      → AreFresh calls q
      → HasHandles (run_calls calls q) × (view (run_calls calls q) ≡ replay calls (view q))
  unfolding run_calls replay AreFresh
  run_calls_refines [] q valid fresh = (valid, refl)
  run_calls_refines (call ∷ calls) q valid (new, rest) =
      let later =
        run_calls_refines calls (run_call s call q) (run_call-HasHandles call q valid new) rest in
      (later.0, later.1 ∙ ap (replay calls) (fun_ext (mapped call q valid new)))
