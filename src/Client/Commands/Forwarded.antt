-- ===== src/Client/Commands/Forwarded.antt =====
-- Commands that were received for another server (`no_send`) and wait to be passed on.
use rservr.Base.{
  subst, if-true, if-cases, ==_iff, ℕ, ◌≡◌, ◌∙◌, ◌⊎◌, sym, refl, ap, inl, inr, List, Bool, true,
  false, Option, none, some, ◌==◌, arith, ap, inl, inr, Bool-cases, ◌<◌, ◌==◌, arith,
}
use rservr.Client.Commands.{
  Prepared, Sender, may_transmit, transmit_found, transmit_command, find_command_handle, drop_first,
  released, forward_command,
}
use rservr.Client.Commands.Finding.{view}
use rservr.Client.Commands.Map.{
  Call, queue, remove, transmit, forward, respond, scope, prioritise, server_of, subject, run_call,
  becomes, HasHandles, IsFresh,
}
use rservr.Client.Commands.Runs.{mapped}

-- Gone, or the same but for its priority.
abbrev pub IsKept : Prepared → Option Prepared → Type 0
IsKept c o = (o ≡ none) ⊎ ((p : ℕ) × (o ≡ some (record c { priority = p })))

at_handle :
    (s : Sender) (call : Call) (q : List Prepared) (c : Prepared)
    → view q (subject call) ≡ some c
    → c.no_send ≡ true
    → IsFresh call q
    → IsKept c (becomes s call (some c))
unfolding becomes may_transmit
at_handle s (queue x) q c here held fresh = absurd (cc (fresh.0))
at_handle s (remove h) q c here held fresh = inl refl
at_handle s (transmit h n b) q c here held fresh = inr (c.priority, ground (arith, held))
at_handle s (forward h) q c here held fresh = inl (if-true c.no_send none (some c) held)
at_handle s (respond h entity) q c here held fresh = inr (c.priority, ground (arith, held))
at_handle s (scope h address) q c here held fresh = inr (c.priority, ground (arith, held))
at_handle s (prioritise h n) q c here held fresh = inr (n, refl)
at_handle s (server_of h client address) q c here held fresh =
    inr (c.priority, ground (arith, held))

-- No call changes a command that waits to be passed on, except for its priority: after each call
-- its handle still stands for it or for nothing, and sending it gives the output nothing and
-- leaves the queue as it was.
pub no_send-IsKept :
    (s : Sender) (call : Call) (q : List Prepared) (k : ℕ) (c : Prepared)
    → HasHandles q
    → IsFresh call q
    → view q k ≡ some c
    → c.no_send ≡ true
    → IsKept c (view (run_call s call q) k)
      × ((reference : ℕ) (silent : Bool)
          → transmit_command s k reference silent q ≡ (false, q, none))
unfolding transmit_command transmit_found may_transmit
no_send-IsKept s call q k c valid fresh here held = (
  subst (IsKept c) (sym (mapped s call q valid fresh k)) (
      if-cases (IsKept c) (k == subject call) (becomes s call (view q k)) (view q k)
        (λ at.
          subst (λ o. IsKept c (becomes s call o)) (sym here)
            (at_handle s call q c (ap (view q) (sym ((==_iff k (subject call)).0 at)) ∙ here) held
              fresh))
        (λ other. inr (c.priority, here))),
  (λ reference silent. rw (here, transmit_found) (ground (arith, held))),
)

-- A command that waits to be passed on is given out, and leaves the queue.
pub forward_command_waiting :
    (handle : ℕ) (q : List Prepared) (c : Prepared)
    → HasHandles q
    → view q handle ≡ some c
    → c.no_send ≡ true
    → (0 < handle)
      × (forward_command handle q ≡ (some c, drop_first (find_command_handle handle) q))
unfolding forward_command released
forward_command_waiting handle q c valid here waits = elim (Bool-cases (handle == 0)) [
  | inl e ↦ absurd (ground (arith, e, here, valid.null_free, ap (view q)))
  | inr e ↦ (ground (arith, e), rw (e, here, released) (rw waits refl))
]
