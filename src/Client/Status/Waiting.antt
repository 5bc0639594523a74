-- ===== src/Client/Status/Waiting.antt =====
-- `cancelable_wait_command_event` ends, in time, and with the event that it waits for.
use rservr.Base.{
  ℕ, zero, suc, ◌+◌, ◌*◌, ◌^◌, ◌<◌, ◌≤◌, ◌≡◌, ◌∙◌, ◌⊎◌, sym, refl, subst, inl, inr, Bool, true,
  false, not, ◌||◌, ltb, Bool-cases, arith,
}
use rservr.Flags.{◌\/◌, check_any, event_unavailable, event_no_success}
use rservr.Flags.Tests.{check_any_or}
use rservr.Client.Status.{Cycle, wait_cycles, wait_answer, cancelable_wait_command_event}

module _ (sees : ℕ → Cycle) (mask elapse limit : ℕ) where
  -- What ends the wait before its time.
  abbrev pub halts : Cycle → Bool
  halts c = check_any c.status (mask \/ event_no_success) || not c.running || c.cancelled

  step_on :
      (fuel i current : ℕ)
      → ltb (i * elapse) limit ≡ true
      → halts (sees i) ≡ false
      → wait_cycles sees mask elapse limit (suc fuel) i current
        ≡ wait_cycles sees mask elapse limit fuel (i + 1) (sees i).status
  unfolding wait_cycles
  step_on fuel i current time still = rw (time, still) refl

  step_late :
      (fuel i current : ℕ)
      → ltb (i * elapse) limit ≡ false
      → wait_cycles sees mask elapse limit (suc fuel) i current ≡ (i, current)
  unfolding wait_cycles
  step_late fuel i current late = rw late refl

  step_halt :
      (fuel i current : ℕ)
      → ltb (i * elapse) limit ≡ true
      → halts (sees i) ≡ true
      → wait_cycles sees mask elapse limit (suc fuel) i current ≡ (i, (sees i).status)
  unfolding wait_cycles
  step_halt fuel i current time halt = rw (time, halt) refl

  step_end : (i current : ℕ) → wait_cycles sees mask elapse limit zero i current ≡ (i, current)
  unfolding wait_cycles
  step_end i current = refl

  le-mul : (i e : ℕ) → 0 < e → i ≤ i * e
  le-mul i e h = grind arith

  past : (i : ℕ) → 0 < elapse → limit < 0 + i → ltb (i * elapse) limit ≡ false
  past i moves enough = ground (arith, le-mul i elapse moves)

  -- Over, within one cycle of the limit.
  abbrev pub IsOver : ℕ → Type 0
  IsOver i =
      ((ltb (i * elapse) limit ≡ false) ⊎ (halts (sees i) ≡ true)) × (i * elapse < limit + elapse)

  -- With rounds enough for the limit, the loop of a wait ends because its time is up, the status
  -- holds an awaited event or a failure, the message queue has stopped, or the callback cancels; it
  -- has then overrun the limit by less than one cycle, if it had before.
  pub wait_cycles_ends :
      (fuel i current : ℕ)
      → 0 < elapse
      → limit < fuel + i
      → i * elapse < limit + elapse
      → IsOver (wait_cycles sees mask elapse limit fuel i current).0
  wait_cycles_ends zero i current moves enough soon =
      subst (λ r. IsOver r.0) (sym (step_end i current)) (inl (past i moves enough), soon)
  wait_cycles_ends (suc fuel) i current moves enough soon =
      elim (Bool-cases (ltb (i * elapse) limit)) [
        | inr late ↦ rw (step_late fuel i current late) (inl late, soon)
        | inl time ↦ elim (Bool-cases (halts (sees i))) [
          | inl halt ↦ rw (step_halt fuel i current time halt) (inr halt, soon)
          | inr still ↦ rw (step_on fuel i current time still) (
              wait_cycles_ends fuel (i + 1) (sees i).status moves (omega (arith, enough))
                (ground arith))
        ]
      ]

  mul_mono : (i n : ℕ) → i ≤ n → i * elapse ≤ n * elapse
  mul_mono i n h = grind arith

  -- Nothing that ends the wait is seen in a cycle.
  abbrev pub IsQuiet : Cycle → Type 0
  IsQuiet c = halts c ≡ false

  reach :
      (gap fuel i n current : ℕ)
      → n ≡ i + gap
      → gap < fuel
      → n * elapse < limit
      → ((j : ℕ) → i ≤ j → j < n → IsQuiet (sees j))
      → halts (sees n) ≡ true
      → wait_cycles sees mask elapse limit fuel i current ≡ (n, (sees n).status)
  reach gap zero i n current is_n room time quiet halt = absurd (omega arith)
  reach zero (suc fuel) i n current is_n room time quiet halt =
      let same : n ≡ i = omega arith in
      subst (λ m. wait_cycles sees mask elapse limit (suc fuel) i current ≡ (m, (sees m).status))
        (sym same)
        (step_halt fuel i current (subst (λ m. ltb (m * elapse) limit ≡ true) same (ground arith))
          (subst (λ m. halts (sees m) ≡ true) same halt))
  reach (suc gap) (suc fuel) i n current is_n room time quiet halt =
      step_on fuel i current (in_time i (omega arith)) (quiet i (omega arith) (omega arith))
      ∙ reach gap fuel (i + 1) n (sees i).status (omega (arith, is_n)) (omega (arith, room)) time
          (λ j above below. quiet j (omega (arith, above)) below) halt
    where
      in_time : (i : ℕ) → i ≤ n → ltb (i * elapse) limit ≡ true
      in_time i h = ground (arith, mul_mono i n h)

-- In the wait for an event: if the event is first seen in a cycle that begins before the time is
-- over, and before it the command has not failed, the message queue runs and the wait is not
-- cancelled, then the answer is the status with that event.
pub cancelable_wait_command_event_reports :
    (sees : ℕ → Cycle) (reference mask elapse limit n : ℕ)
    → 0 < reference
    → 0 < mask
    → 0 < elapse
    → n * elapse < limit
    → ((j : ℕ) → j < n → IsQuiet sees mask elapse limit (sees j))
    → (sees n).status < 2 ^ 32
    → check_any (sees n).status mask ≡ true
    → cancelable_wait_command_event false false sees reference mask elapse limit ≡ (sees n).status
unfolding cancelable_wait_command_event wait_answer
cancelable_wait_command_event_reports sees reference mask elapse limit n positive asked moves time
      quiet small found =
    let halt = check_any_or (sees n).status mask event_no_success small asked found in
    let arrives =
      reach sees mask elapse limit n (suc limit) 0 n event_unavailable (omega arith) (grind arith)
        time (λ j above. quiet j) (ground (arith, halt)) in
    rw arrives (ground (arith, found))
