-- ===== src/Server/Settings/Admission.antt =====
-- Which commands come into the queue of waiting commands: queue_client_command and
-- requeue_server_command (libs/server/api-server.cpp), and queue_new_execute
-- (libs/server/execute-module.cpp). Locks and memory are taken to be granted. The queue has a limit
-- that server_update_limits sets, but nothing asks whether the queue is full, so it is no part of the
-- model. The receipt that is sent for a new command is left out.
use rservr.Base.{
  ℕ, ◌+◌, ◌<◌, ◌≤◌, ◌≡◌, ◌↔◌, refl, List, [], ◌∷◌, Bool, true, false, leb, if◌then◌else◌, length,
  arith, count, if-cases,
}
use rservr.Queue.{insert_command, take_commands}
use rservr.Queue.Lengths.{count-insert_command, length-insert_command, length-take_commands}
use rservr.Server.{Command}
use rservr.Server.Settings.{Settings}

-- The heap, and `check_priority.counter`.
pub record Waiting : Type 0 where
  pub heap : List (ℕ × Command)
  pub counter : ℕ

-- The order of the heap, which the counter changes with.
abbrev pub Compare : Type 0
Compare = ℕ → ℕ × Command → ℕ × Command → Bool

unfoldable pub queue_new_execute : Compare → ℕ × Command → Waiting → Bool × Waiting
unfolding insert_command
queue_new_execute compare e w =
    (true, record w { heap = insert_command (compare w.counter) e w.heap })

counted : Bool × Waiting → Bool × Waiting
counted (true, w) = (true, record w { counter = w.counter + 1 })
counted (false, w) = (false, w)

unfoldable pub queue_client_command : Compare → Settings → ℕ × Command → Waiting → Bool × Waiting
unfolding queue_new_execute counted
queue_client_command compare s (handle, c) w =
    if leb s.max_commands (length w.heap)
    then (false, w)
    else counted (queue_new_execute compare (handle, record c { wait_start = w.counter }) w)

unfoldable pub requeue_server_command : Compare → ℕ × Command → Waiting → Bool × Waiting
unfolding queue_new_execute
requeue_server_command compare e w = queue_new_execute compare e w

-- What happens to the queue: `executes` moves so many commands to the cache.
pub data Step : Type 0 where
  client_queues : ℕ × Command → Step
  server_queues : ℕ × Command → Step
  executes : ℕ → Step

unfoldable pub run_step : Compare → Settings → Step → Waiting → Waiting
unfolding take_commands
run_step compare s (client_queues e) w = (queue_client_command compare s e w).1
run_step compare s (server_queues e) w = (requeue_server_command compare e w).1
run_step compare s (executes size) w = record w {
  heap = (take_commands (compare w.counter) size w.heap []).0;
}

unfoldable pub run_steps : Compare → Settings → List Step → Waiting → Waiting
run_steps compare s [] w = w
run_steps compare s (t ∷ ts) w = run_steps compare s ts (run_step compare s t w)

-- How often the server queued a command again.
unfoldable pub requeued : List Step → ℕ
requeued [] = 0
requeued (client_queues e ∷ ts) = requeued ts
requeued (server_queues e ∷ ts) = requeued ts + 1
requeued (executes size ∷ ts) = requeued ts

-- No more wait than clients may queue and the server has queued again since, and the counter is
-- never lowered.
abbrev IsWithin : Settings → ℕ → Waiting → Waiting → Type 0
IsWithin s again before after =
    (length after.heap ≤ s.max_commands + again) × (before.counter ≤ after.counter)

queue_client_command-IsWithin :
    (compare : Compare) (s : Settings) (e : ℕ × Command) (again : ℕ) (w : Waiting)
    → length w.heap ≤ s.max_commands + again
    → IsWithin s again w (queue_client_command compare s e w).1
unfolding queue_client_command queue_new_execute counted
queue_client_command-IsWithin compare s (handle, c) again w room = ground (
  arith,
  length-insert_command (compare w.counter) (handle, record c { wait_start = w.counter }) w.heap,
)

run_steps-IsWithin :
    (compare : Compare) (s : Settings) (ts : List Step) (again : ℕ) (w : Waiting)
    → length w.heap ≤ s.max_commands + again
    → IsWithin s (again + requeued ts) w (run_steps compare s ts w)
unfolding run_steps run_step requeued requeue_server_command queue_new_execute
run_steps-IsWithin compare s [] again w room = (omega (arith, room), omega arith)
run_steps-IsWithin compare s (client_queues e ∷ ts) again w room =
    let (size, count) = queue_client_command-IsWithin compare s e again w room in
    let (size', count') =
      run_steps-IsWithin compare s ts again (queue_client_command compare s e w).1 size in
    (size', omega (arith, count, count'))
run_steps-IsWithin compare s (server_queues e ∷ ts) again w room =
    let longer = length-insert_command (compare w.counter) e w.heap in
    let (size, count) =
      run_steps-IsWithin compare s ts (again + 1) (requeue_server_command compare e w).1
        (omega (arith, longer, room)) in
    (omega (arith, size), count)
run_steps-IsWithin compare s (executes n ∷ ts) again w room =
    run_steps-IsWithin compare s ts again (run_step compare s (executes n) w)
      (omega (arith, length-take_commands (compare w.counter) n w.heap [], room))

-- The entry comes to those that wait, wherever the order puts it.
abbrev pub IsAdded : ℕ × Command → Waiting → Waiting → Type 0
IsAdded e before after =
    (q : ℕ × Command → Bool) → count q after.heap ≡ count q before.heap + (if q e then 1 else 0)

-- From a queue with no more commands than clients may queue, whatever is queued and executed, never
-- do more wait than that limit and the commands that the server queued again, and the counter is not
-- lowered. A further command of a client is then queued exactly while fewer wait than the limit: it
-- comes to those that wait, with the counter as its time, and the counter goes up by one; otherwise
-- it is refused and nothing changes. A further command of the server is always queued as it is,
-- however many wait, and the counter stays.
pub run_steps_bounds :
    (compare : Compare) (s : Settings) (ts : List Step) (w : Waiting) (e : ℕ × Command)
    → length w.heap ≤ s.max_commands
    → let after = run_steps compare s ts w in
      let offered = queue_client_command compare s e after in
      let requeues = requeue_server_command compare e after in
      (length after.heap ≤ s.max_commands + requeued ts)
      × (w.counter ≤ after.counter)
      × ((offered.0 ≡ true) ↔ (length after.heap < s.max_commands))
      × (offered.0 ≡ true
          → IsAdded (e.0, record (e.1) { wait_start = after.counter }) after offered.1
            × (offered.1.counter ≡ after.counter + 1))
      × (offered.0 ≡ false → offered.1 ≡ after)
      × (requeues.0 ≡ true)
      × IsAdded e after requeues.1
      × (requeues.1.counter ≡ after.counter)
unfolding requeue_server_command queue_client_command queue_new_execute counted
run_steps_bounds compare s ts w e few =
    let after = run_steps compare s ts w in
    let (size, counter) = run_steps-IsWithin compare s ts 0 w (omega (arith, few)) in
    let stamped : ℕ × Command = (e.0, record (e.1) { wait_start = after.counter }) in
    let added = count-insert_command (compare after.counter) in
    (
      omega (arith, size),
      counter,
      (λ h. ground (arith, h), λ h. ground (arith, h)),
      if-cases
          (λ (r : Bool × Waiting).
            r.0 ≡ true → IsAdded stamped after r.1 × (r.1.counter ≡ after.counter + 1))
          (leb s.max_commands (length after.heap)) _ _ (λ f h. absurd (ground (arith, h)))
          (λ f h. ((λ q. added q stamped after.heap), refl)),
      (λ h. ground (arith, h)),
      refl,
      (λ q. added q e after.heap),
      refl,
    )
