-- ===== src/Client/Messages/Order.antt =====
-- The queue of messages as a bounded queue: first in, first out.
use rservr.Base.{
  ℕ, zero, suc, ◌≡◌, ◌∙◌, refl, ap, List, [], ◌∷◌, ◌++◌, ◌||◌, Option, none, some, ◌==◌, ltb,
  if◌then◌else◌, length, arith,
}
use rservr.Client.Messages.{
  Message, Messages, Machine, Info, Incoming, message_queue_pause, message_queue_unpause,
  message_queue_timed_pause, auto_pause_check, auto_unpause_check,
}
use rservr.Client.Messages.Keeping.{
  new_message, add_new_message, remove_at, remove_current_message, element_at, current_message,
}

-- What arrives and is taken.
pub data Traffic : Type 0 where
  arrives : Info → ℕ → Incoming → Traffic
  takes : Traffic

unfoldable pub pass : Machine → Traffic → Messages → Messages
pass out (arrives info type incoming) m = (add_new_message out info type incoming m).1
pass out takes m = (remove_current_message out m).1

add_read : Option Message → List Message → List Message
add_read none l = l
add_read (some x) l = x ∷ l

-- The messages that are read, each before it is taken.
unfoldable pub reads : Machine → List Traffic → Messages → List Message
unfolding add_read
reads out [] m = []
reads out (arrives info type incoming ∷ ts) m =
    reads out ts (pass out (arrives info type incoming) m)
reads out (takes ∷ ts) m = add_read (current_message m) (reads out ts (pass out takes m))

unfoldable pub passes : Machine → List Traffic → Messages → Messages
passes out [] m = m
passes out (t ∷ ts) m = passes out ts (pass out t m)

-- A queue with a limit, of which 0 is none: what arrives when it is full is lost.
unfoldable pub offer : ℕ → Message → List Message → List Message
offer limit x l = if (limit == 0) || ltb (length l) limit then l ++ (x ∷ []) else l

unfoldable pub rest_of : List Message → List Message
rest_of [] = []
rest_of (x ∷ l) = l

unfoldable pub fifo : ℕ → List Traffic → List Message → List Message
unfolding offer rest_of
fifo limit [] l = l
fifo limit (arrives info type incoming ∷ ts) l =
    fifo limit ts (offer limit (new_message info type incoming) l)
fifo limit (takes ∷ ts) l = fifo limit ts (rest_of l)

first_then : List Message → List Message → List Message
first_then [] read = read
first_then (x ∷ l) read = x ∷ read

unfoldable pub fifo_reads : ℕ → List Traffic → List Message → List Message
unfolding offer rest_of first_then
fifo_reads limit [] l = []
fifo_reads limit (arrives info type incoming ∷ ts) l =
    fifo_reads limit ts (offer limit (new_message info type incoming) l)
fifo_reads limit (takes ∷ ts) l = first_then l (fifo_reads limit ts (rest_of l))

-- Nothing but the pausing differs.
abbrev IsSame : Messages → List Message → ℕ → Type 0
IsSame m l limit = (m.messages ≡ l) × (m.index ≡ 0) × (m.max_size ≡ limit)

checked-IsSame :
    (out : Machine) (m : Messages)
    → m.index ≡ 0
    → IsSame (auto_pause_check out m) m.messages m.max_size
unfolding auto_pause_check message_queue_unpause message_queue_timed_pause message_queue_pause
checked-IsSame out m first = ground arith

arrives-IsSame :
    (out : Machine) (info : Info) (type : ℕ) (incoming : Incoming) (m : Messages)
    → m.index ≡ 0
    → IsSame
        (pass out (arrives info type incoming) m)
        (offer m.max_size (new_message info type incoming) m.messages)
        m.max_size
unfolding pass add_new_message offer
arrives-IsSame out info type incoming m first = ground (
  arith,
  first,
  checked-IsSame out (record m { messages = m.messages ++ (new_message info type incoming ∷ []) })
      first,
)

dropped : (l : List Message) → remove_at l 0 ≡ rest_of l
unfolding remove_at rest_of
dropped [] = refl
dropped (x ∷ l) = refl

takes-IsSame :
    (out : Machine) (m : Messages)
    → m.index ≡ 0
    → IsSame (pass out takes m) (rest_of m.messages) m.max_size
unfolding pass remove_current_message auto_unpause_check message_queue_unpause
takes-IsSame out m first =
    ground (arith, first, dropped m.messages, ap (remove_at m.messages) first)

read_first :
    (l r s : List Message) (i : ℕ) → i ≡ 0 → r ≡ s → add_read (element_at l i) r ≡ first_then l s
unfolding add_read element_at first_then
read_first [] r s zero first same = same
read_first [] r s (suc i) first same = absurd (omega arith)
read_first (x ∷ l) r s zero first same = ap (◌∷◌ x) same
read_first (x ∷ l) r s (suc i) first same = absurd (omega arith)

-- Without rotation the messages are read and kept as in a queue with that limit, first in, first
-- out: the client reads what the queue lets out, in its order, and what waits is what the queue
-- holds.
pub passes_refines :
    (out : Machine) (ts : List Traffic) (m : Messages)
    → m.index ≡ 0
    → (reads out ts m ≡ fifo_reads m.max_size ts m.messages)
      × ((passes out ts m).messages ≡ fifo m.max_size ts m.messages)
unfolding reads passes fifo fifo_reads current_message
passes_refines out [] m first = (refl, refl)
passes_refines out (arrives info type incoming ∷ ts) m first =
    let (ms, ix, mx) = arrives-IsSame out info type incoming m first in
    let later = passes_refines out ts (pass out (arrives info type incoming) m) ix in
    (later.0 ∙ (λ i. fifo_reads (mx i) ts (ms i)), later.1 ∙ (λ i. fifo (mx i) ts (ms i)))
passes_refines out (takes ∷ ts) m first =
    let (ms, ix, mx) = takes-IsSame out m first in
    let later = passes_refines out ts (pass out takes m) ix in
    (
      read_first m.messages _ _ m.index first (later.0 ∙ (λ i. fifo_reads (mx i) ts (ms i))),
      later.1 ∙ (λ i. fifo (mx i) ts (ms i)),
    )
