-- ===== src/Client/Messages/Emptying.antt =====
-- A client that takes its messages one after the other empties the queue, and wakes it.
use rservr.Base.{ℕ, zero, suc, ◌≡◌, refl, List, [], ◌∷◌, false, length, arith}
use rservr.Client.Messages.{
  Message, Messages, Machine, message_queue_unpause, may_restore, auto_unpause_check,
}
use rservr.Client.Messages.Keeping.{remove_current_message}
use rservr.Client.Messages.Orderly.{IsIndexed, IsOrderly, length-remove_at}
use rservr.Client.Messages.Uses.{Use, takes, run_use, run_uses, may_pause, run_use-IsOrderly}

-- As many takings as there are rounds.
unfoldable pub take_all : ℕ → List Use
take_all zero = []
take_all (suc n) = takes ∷ take_all n

one_fewer :
    (out : Machine) (m : Messages) (n : ℕ)
    → IsOrderly (Unit {0}) out m
    → length m.messages ≡ suc n
    → length (run_use out takes m).messages ≡ n
unfolding run_use remove_current_message auto_unpause_check message_queue_unpause
one_fewer out m n orderly size =
    ground (arith, length-remove_at m.messages m.index, orderly.placed, size)

empty_awake :
    (out : Machine) (m : Messages)
    → IsOrderly (Unit {0}) out m
    → length m.messages ≡ 0
    → (m.messages ≡ []) × (m.paused ≡ false)
unfolding may_restore
empty_awake out m orderly size =
    (no_element m.messages size, ground (arith, orderly.awake tt, size))
  where
    no_element : (l : List Message) → length l ≡ 0 → l ≡ []
    no_element [] h = refl
    no_element (x ∷ l) h = absurd (omega (arith, h))

-- A client that takes as many messages as wait has taken them all, and the queue is not paused
-- afterwards, however it was paused before.
pub take_all-empties :
    (out : Machine) (n : ℕ) (m : Messages)
    → IsIndexed out
    → IsOrderly (Unit {0}) out m
    → length m.messages ≡ n
    → ((run_uses out (take_all n) m).messages ≡ []) × ((run_uses out (take_all n) m).paused ≡ false)
unfolding take_all run_uses may_pause
take_all-empties out zero m indexed orderly size = empty_awake out m orderly size
take_all-empties out (suc n) m indexed orderly size =
    take_all-empties out n (run_use out takes m) indexed
      (run_use-IsOrderly out indexed takes m (λ p. refl) orderly) (one_fewer out m n orderly size)
