-- ===== src/Client/Messages/Keeping.antt =====
-- What is added to the queue of messages of libs/client/api-message-queue.cpp, found in it and
-- removed. The queue pauses or wakes by itself after each change.
use rservr.Base.{
  ℕ, zero, suc, ◌%◌, List, [], ◌∷◌, ◌++◌, Bool, true, false, not, ◌&&◌, Option, none, some,
  is_empty, ◌==◌, leb, if◌then◌else◌, length, find, drop_where, count,
}
use rservr.Flags.{command_none, command_response, command_remote}
use rservr.Client.Commands.{Prepared}
use rservr.Client.Messages.{
  Message, Info, Incoming, Messages, Machine, auto_pause_check, auto_unpause_check,
}

unfoldable pub message_from : Info → ℕ → Incoming → Message
message_from info type incoming = record {
  handle = info.address;
  message_type = type;
  response = incoming.response;
  content = incoming.content;
  command_name = info.command_name;
  received_from = info.orig_entity;
  received_address = info.orig_address;
  sent_to = info.target_entity;
  sent_address = info.target_address;
  last_reference = info.orig_reference;
  message_reference =
      if info.remote_reference == 0 then info.target_reference else info.remote_reference;
  creator_pid = info.creator_pid;
  priority = info.priority;
}

-- A command that is to be passed on is known by the reference of its sender.
unfoldable pub new_message : Info → ℕ → Incoming → Message
unfolding message_from
new_message info type incoming =
    let m = message_from info type incoming in
    if type == command_remote then record m { message_reference = info.orig_reference } else m

abbrev pub is_full : Messages → Bool
is_full m = not (m.max_size == 0) && leb m.max_size (length m.messages)

-- A message that finds no room is lost; the current one is then the first.
unfoldable pub add_new_message : Machine → Info → ℕ → Incoming → Messages → Bool × Messages
unfolding new_message auto_pause_check
add_new_message out info type incoming m = if is_full m then (false, record m { index = 0 }) else (
  true,
  auto_pause_check out
      (record m { messages = m.messages ++ (new_message info type incoming ∷ []) }),
)

unfoldable pub has_message_handle : ℕ → Message → Bool
has_message_handle handle x = x.handle == handle

unfoldable pub element_at : List Message → ℕ → Option Message
element_at [] i = none
element_at (x ∷ l) zero = some x
element_at (x ∷ l) (suc i) = element_at l i

unfoldable pub remove_at : List Message → ℕ → List Message
remove_at [] i = []
remove_at (x ∷ l) zero = l
remove_at (x ∷ l) (suc i) = x ∷ remove_at l i

-- The position of the first message that passes a test.
unfoldable pub position_of : (Message → Bool) → List Message → Option ℕ
position_of p [] = none
position_of p (x ∷ l) =
    let later : Option ℕ = elim (position_of p l) [ none ↦ none | some i ↦ some (suc i) ] in
    if p x then some zero else later

-- `remove_old_message` for the current message.
unfoldable pub remove_current_message : Machine → Messages → Bool × Messages
unfolding auto_unpause_check
remove_current_message out m =
    (true, auto_unpause_check out (record m { messages = remove_at m.messages m.index; index = 0 }))

unfoldable pub removed_at : Machine → Option ℕ → Messages → Bool × Messages
unfolding auto_unpause_check
removed_at out none m = (false, m)
removed_at out (some i) m = (
  true,
  auto_unpause_check out (record m {
    messages = remove_at m.messages i;
    index = out.index_after (length m.messages) m.index i;
  }),
)

unfoldable pub remove_message : Machine → ℕ → Messages → Bool × Messages
unfolding removed_at
remove_message out handle m =
    if handle == 0
    then (false, m)
    else removed_at out (position_of (has_message_handle handle) m.messages) m

unfoldable pub current_message : Messages → Option Message
current_message m = element_at m.messages m.index

unfoldable pub validate_message : ℕ → Messages → Option Message
validate_message handle m =
    if handle == 0 then none else find (has_message_handle handle) m.messages

unfoldable pub find_by_reference : ℕ → Message → Bool
find_by_reference reference x =
    (x.message_type == command_response) && (x.message_reference == reference)

unfoldable pub check_responses : ℕ → Messages → ℕ
check_responses reference m = count (find_by_reference reference) m.messages

unfoldable pub rotated : Option ℕ → Messages → Option Message × Messages
unfolding element_at
rotated none m = (none, record m { index = 0 })
rotated (some i) m = (element_at m.messages i, record m { index = i })

unfoldable pub rotate_response : ℕ → Messages → Option Message × Messages
unfolding rotated
rotate_response reference m =
    if is_empty m.messages
    then (none, m)
    else rotated (position_of (find_by_reference reference) m.messages) m

-- What stays are the places that are kept for responses to come.
unfoldable pub find_non_respond : Message → Bool
find_non_respond x = not (x.message_type == command_none)

unfoldable pub clear_messages : Machine → Messages → Messages
unfolding auto_unpause_check
clear_messages out m =
    auto_unpause_check out
      (record m { messages = drop_where find_non_respond m.messages; index = 0 })

unfoldable pub remove_responses : Machine → ℕ → Messages → Bool × Messages
unfolding auto_unpause_check
remove_responses out reference m = if reference == 0 then (false, m) else (
  true,
  auto_unpause_check out
      (record m { messages = drop_where (find_by_reference reference) m.messages; index = 0 }),
)

unfoldable pub answer_to : Option Message → Prepared → Bool × Prepared
answer_to none c = (false, c)
answer_to (some x) c = (
  true,
  record c {
    orig_entity = x.sent_to;
    orig_address = [];
    creator_pid = x.creator_pid;
    priority = x.priority;
    target_entity = x.received_from;
    target_address = x.received_address;
    target_reference = x.last_reference;
    remote_reference = x.message_reference;
  },
)

-- `copy_response`: the way back for an answer.
unfoldable pub copy_response : ℕ → Messages → Prepared → Bool × Prepared
unfolding answer_to validate_message
copy_response handle m c = answer_to (validate_message handle m) c

unfoldable pub take_first : ℕ → List Message → List Message
take_first zero l = []
take_first (suc n) [] = []
take_first (suc n) (x ∷ l) = x ∷ take_first n l

-- The list is cut to a limit that it exceeds.
unfoldable pub set_message_queue_limit : Machine → ℕ → Messages → Messages
unfolding take_first auto_pause_check
set_message_queue_limit out limit m =
    let cut = if limit == 0 then m.messages else take_first limit m.messages in
    auto_pause_check out (record m {
      messages = cut;
      index = if length cut == 0 then 0 else m.index % length cut;
      max_size = limit;
    })
