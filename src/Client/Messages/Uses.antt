-- ===== src/Client/Messages/Uses.antt =====
-- What is done to the queue of messages of libs/client/api-message-queue.cpp. The uses after
-- `limits` are the pauses that the client makes by hand, the two steps of the thread of a timed pause,
-- new settings, and the look at the state of pausing, which wakes an empty queue. To stop the queue
-- is not among the uses.
use rservr.Base.{ℕ, ◌≡◌, List, [], ◌∷◌, Bool, true, false, arith, any}
use rservr.Client.Messages.{
  Messages, Machine, Info, Incoming, message_queue_pause, message_queue_unpause,
  message_queue_timed_pause, timeout_begins, timeout_ends, message_queue_auto_pause,
  message_queue_pause_state, may_restore,
}
use rservr.Client.Messages.Keeping.{
  add_new_message, remove_current_message, remove_message, clear_messages, remove_responses,
  set_message_queue_limit, rotate_response,
}
use rservr.Client.Messages.Orderly.{
  IsAwake, IsKept, IsOrderly, IsIndexed, arrives-IsOrderly, taken-IsOrderly, takes-IsOrderly,
  clears-IsOrderly, forgets-IsOrderly, limits-IsOrderly, rotates-IsOrderly, removes-IsOrderly,
}

pub data Use : Type 0 where
  arrives : Info → ℕ → Incoming → Use
  takes : Use
  removes : ℕ → Use
  clears : Use
  forgets : ℕ → Use
  rotates : ℕ → Use
  limits : ℕ → Use
  pauses : Use
  unpauses : Use
  timed_pauses : ℕ → Use
  begins_timeout : Use
  ends_timeout : Use
  sets_auto_pause : ℕ → ℕ → ℕ → Use
  looks : Use

unfoldable pub run_use : Machine → Use → Messages → Messages
run_use out (arrives info type incoming) m = (add_new_message out info type incoming m).1
run_use out takes m = (remove_current_message out m).1
run_use out (removes handle) m = (remove_message out handle m).1
run_use out clears m = clear_messages out m
run_use out (forgets reference) m = (remove_responses out reference m).1
run_use out (rotates reference) m = (rotate_response reference m).1
run_use out (limits limit) m = set_message_queue_limit out limit m
run_use out pauses m = (message_queue_pause out m).1
run_use out unpauses m = (message_queue_unpause m).1
run_use out (timed_pauses time) m = (message_queue_timed_pause out time m).1
run_use out begins_timeout m = timeout_begins out m
run_use out ends_timeout m = timeout_ends m
run_use out (sets_auto_pause threshold restore time) m =
    (message_queue_auto_pause out threshold restore time m).1
run_use out looks m = (message_queue_pause_state m).1

-- A use that may leave the queue paused however few messages wait: a pause by hand, the beginning of
-- a timed pause, and new settings.
unfoldable pub may_pause : Use → Bool
may_pause pauses = true
may_pause begins_timeout = true
may_pause (sets_auto_pause threshold restore time) = true
may_pause u = false

module _ {P : Type 0} (out : Machine) (m : Messages) (orderly : IsOrderly P out m) where
  unpauses-IsOrderly : IsOrderly P out (message_queue_unpause m).1
  unfolding message_queue_unpause may_restore
  unpauses-IsOrderly = ground (arith, orderly.runs, orderly.awake, orderly.within, orderly.placed)

  pauses-IsOrderly : (P → ⊥) → IsOrderly P out (message_queue_pause out m).1
  unfolding message_queue_pause
  pauses-IsOrderly never = ground (arith, orderly.runs, orderly.within, orderly.placed, never)

  timed_pauses-IsOrderly : (time : ℕ) → IsOrderly P out (message_queue_timed_pause out time m).1
  unfolding message_queue_timed_pause may_restore
  timed_pauses-IsOrderly time =
      ground (arith, orderly.runs, orderly.awake, orderly.within, orderly.placed)

  begins_timeout-IsOrderly : (P → ⊥) → IsOrderly P out (timeout_begins out m)
  unfolding timeout_begins message_queue_pause
  begins_timeout-IsOrderly never =
      ground (arith, orderly.runs, orderly.within, orderly.placed, never)

  ends_timeout-IsOrderly : IsOrderly P out (timeout_ends m)
  unfolding timeout_ends message_queue_unpause may_restore
  ends_timeout-IsOrderly =
      ground (arith, orderly.runs, orderly.awake, orderly.within, orderly.placed)

  sets_auto_pause-IsOrderly :
      (P → ⊥)
      → (threshold restore time : ℕ)
      → IsOrderly P out (message_queue_auto_pause out threshold restore time m).1
  unfolding message_queue_auto_pause
  sets_auto_pause-IsOrderly never threshold restore time =
      ground (arith, orderly.runs, orderly.within, orderly.placed, never)

  looks-IsOrderly : IsOrderly P out (message_queue_pause_state m).1
  unfolding message_queue_pause_state message_queue_unpause may_restore
  looks-IsOrderly = ground (arith, orderly.runs, orderly.awake, orderly.within, orderly.placed)

module _ {P : Type 0} (out : Machine) (indexed : IsIndexed out) where
  -- A use keeps the queue awake, if it is one that does not pause by itself.
  pub run_use-IsOrderly :
      (u : Use) (m : Messages)
      → (P → may_pause u ≡ false)
      → IsOrderly P out m
      → IsOrderly P out (run_use out u m)
  unfolding run_use may_pause
  run_use-IsOrderly (arrives info type incoming) m calm o =
      arrives-IsOrderly out m o info type incoming
  run_use-IsOrderly takes m calm o = takes-IsOrderly out m o
  run_use-IsOrderly (removes handle) m calm o = removes-IsOrderly out m o indexed handle
  run_use-IsOrderly clears m calm o = clears-IsOrderly out m o
  run_use-IsOrderly (forgets reference) m calm o = forgets-IsOrderly out m o reference
  run_use-IsOrderly (rotates reference) m calm o = rotates-IsOrderly out m o reference
  run_use-IsOrderly (limits limit) m calm o = limits-IsOrderly out m o limit
  run_use-IsOrderly pauses m calm o = pauses-IsOrderly out m o (λ p. ground (arith, calm p))
  run_use-IsOrderly unpauses m calm o = unpauses-IsOrderly out m o
  run_use-IsOrderly (timed_pauses time) m calm o = timed_pauses-IsOrderly out m o time
  run_use-IsOrderly begins_timeout m calm o =
      begins_timeout-IsOrderly out m o (λ p. ground (arith, calm p))
  run_use-IsOrderly ends_timeout m calm o = ends_timeout-IsOrderly out m o
  run_use-IsOrderly (sets_auto_pause threshold restore time) m calm o =
      sets_auto_pause-IsOrderly out m o (λ p. ground (arith, calm p)) threshold restore time
  run_use-IsOrderly looks m calm o = looks-IsOrderly out m o

unfoldable pub run_uses : Machine → List Use → Messages → Messages
run_uses out [] m = m
run_uses out (u ∷ us) m = run_uses out us (run_use out u m)

uses-IsOrderly :
    {P : Type 0} (out : Machine) (us : List Use) (m : Messages)
    → IsIndexed out
    → (P → any may_pause us ≡ false)
    → IsOrderly P out m
    → IsOrderly P out (run_uses out us m)
unfolding run_uses any
uses-IsOrderly out [] m indexed calm o = o
uses-IsOrderly out (u ∷ us) m indexed calm o =
    uses-IsOrderly out us (run_use out u m) indexed (λ p. ground (arith, calm p))
      (run_use-IsOrderly out indexed u m (λ p. ground (arith, calm p)) o)

-- Over any sequence of uses of a queue that runs, the pauses of other threads and of the thread of a
-- timed pause among them, it goes on running, keeps its limit, and the index of the current message
-- stays in range, if it was so at first. If it was paused at first only while more messages waited
-- than the share of the limit at which it restores, and no use is a pause by hand, the beginning
-- of a timed pause or a new setting, this still holds of it in the end; and after any uses it holds
-- again as soon as a message is taken.
pub run_uses-IsOrderly :
    (out : Machine) (us : List Use) (m : Messages)
    → IsIndexed out
    → IsKept m
    → IsKept (run_uses out us m)
      × (IsAwake out m → any may_pause us ≡ false → IsAwake out (run_uses out us m))
      × IsAwake out (run_use out takes (run_uses out us m))
unfolding run_use
run_uses-IsOrderly out us m indexed kept =
    let P : Type 0 = IsAwake out m × (any may_pause us ≡ false) in
    let start : IsOrderly P out m = record {
      runs = kept.runs;
      awake = λ p. p.0;
      within = kept.within;
      placed = kept.placed;
    } in
    let end = uses-IsOrderly out us m indexed (λ p. p.1) start in
    (
      record { runs = end.runs; within = end.within; placed = end.placed },
      λ awake calm. end.awake (awake, calm),
      (taken-IsOrderly out (run_uses out us m) end).awake tt,
    )
