-- ===== src/Client/Messages.antt =====
-- libs/client/api-message-queue.cpp: the messages that wait for a client. They stand in a list with
-- a limit (0 for none), one of them the current one; the queue can pause by itself when it fills.
-- The shares of the limit at which it pauses and restores are counted in `unit`ths.
pub mod Keeping
pub mod Blocking
pub mod Orderly
pub mod Uses
pub mod Emptying
pub mod Order
pub mod Responses
use rservr.Base.{
  ℕ, zero, suc, ◌+◌, ◌-◌, ◌*◌, ◌%◌, List, [], ◌∷◌, ◌++◌, Bool, true, false, not, ◌&&◌, ◌||◌, Option,
  none, some, Text, is_empty, ◌==◌, ltb, leb, if◌then◌else◌, length, find, drop_where, count,
}
use rservr.Flags.{command_none, command_response, command_remote}
use rservr.Client.Commands.{Prepared}

-- What a message holds: nothing, a text, bytes, a list of texts, or a command to pass on.
pub data Content : Type 0 where
  no_message : Content
  text : Text → Content
  binary : Text → Content
  multi : List Text → Content
  pending : ℕ → Content

-- `message_info`, a handle being the address of the record.
pub record Message : Type 0 where
  pub handle : ℕ
  pub message_type : ℕ
  pub response : ℕ
  pub content : Content
  pub command_name : Text
  pub received_from : Text
  pub received_address : Text
  pub sent_to : Text
  pub sent_address : Text
  pub last_reference : ℕ
  pub message_reference : ℕ
  pub creator_pid : ℕ
  pub priority : ℕ

-- `command_info`, and the handle that the next message gets.
pub record Info : Type 0 where
  pub address : ℕ
  pub command_name : Text
  pub orig_entity : Text
  pub orig_address : Text
  pub target_entity : Text
  pub target_address : Text
  pub orig_reference : ℕ
  pub target_reference : ℕ
  pub remote_reference : ℕ
  pub creator_pid : ℕ
  pub priority : ℕ

-- What incoming data brings: the type of a response, and the content.
pub record Incoming : Type 0 where
  pub response : ℕ
  pub content : Content

-- `index` is the position of the current message. `timeout` is set while a thread waits to end a
-- pause, and `running` is the status of the message queue.
pub record Messages : Type 0 where
  pub messages : List Message
  pub index : ℕ
  pub max_size : ℕ
  pub running : Bool
  pub paused : Bool
  pub timeout : Bool
  pub auto_pause_threshold : ℕ
  pub auto_pause_restore : ℕ
  pub auto_pause_timeout : ℕ

-- Where the container leaves its index when it removes the element at a position, and whether a
-- thread and a condition variable can be created.
pub record Machine : Type 0 where
  pub index_after : ℕ → ℕ → ℕ → ℕ
  pub can_pause : Bool
  pub can_start_thread : Bool
  pub unit : ℕ

unfoldable pub message_queue_pause : Machine → Messages → Bool × Messages
message_queue_pause out m =
    if not m.running
    then (false, m)
    else if m.paused || out.can_pause
    then (true, record m { paused = true })
    else (false, m)

unfoldable pub message_queue_unpause : Messages → Bool × Messages
message_queue_unpause m =
    if not m.running || not m.paused
    then (false, m)
    else (true, record m { paused = false; timeout = false })

-- The thread that is started pauses the queue when it first runs.
unfoldable pub message_queue_timed_pause : Machine → ℕ → Messages → Bool × Messages
message_queue_timed_pause out time m =
    if not m.running || time == 0
    then (false, m)
    else (out.can_start_thread, record m { timeout = out.can_start_thread })

-- `pause_timeout_thread`, before and after its sleep.
unfoldable pub timeout_begins : Machine → Messages → Messages
unfolding message_queue_pause
timeout_begins out m =
    let (done, m') = message_queue_pause out m in
    if not m.timeout then m else if done then m' else record m { timeout = false }

unfoldable pub timeout_ends : Messages → Messages
unfolding message_queue_unpause
timeout_ends m = if not m.timeout then m else record (message_queue_unpause m).1 { timeout = false }

unfoldable pub message_queue_auto_pause : Machine → ℕ → ℕ → ℕ → Messages → Bool × Messages
message_queue_auto_pause out threshold restore time m =
    if ltb out.unit threshold || leb out.unit restore || leb threshold restore
    then (false, m)
    else if (threshold == 0) && (not (restore == 0) || not (time == 0))
    then (false, m)
    else (
      true,
      record m {
        auto_pause_threshold = threshold;
        auto_pause_restore = restore;
        auto_pause_timeout = time;
      },
    )

-- Whether few enough messages wait, or the queue does not pause by itself.
unfoldable pub may_restore : Machine → Messages → Bool
may_restore out m =
    (m.max_size == 0)
    || (m.auto_pause_threshold == 0)
    || leb (length m.messages * out.unit) (m.max_size * m.auto_pause_restore)

unfoldable pub auto_pause_check : Machine → Messages → Messages
unfolding may_restore message_queue_unpause message_queue_timed_pause message_queue_pause
auto_pause_check out m =
    if may_restore out m
    then (message_queue_unpause m).1
    else if leb (m.max_size * m.auto_pause_threshold) (length m.messages * out.unit)
    then (if m.auto_pause_timeout == 0
        then (message_queue_pause out m).1
        else (message_queue_timed_pause out m.auto_pause_timeout m).1)
    else m

unfoldable pub auto_unpause_check : Machine → Messages → Messages
unfolding may_restore message_queue_unpause
auto_unpause_check out m = if may_restore out m then (message_queue_unpause m).1 else m

-- `message_queue_pause_state`, from a thread other than the queue's own.
unfoldable pub message_queue_pause_state : Messages → Bool × Messages
unfolding message_queue_unpause
message_queue_pause_state m =
    let m' = if is_empty m.messages then (message_queue_unpause m).1 else m in
    (m'.running && m'.paused, m')
