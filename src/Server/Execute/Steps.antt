-- ===== src/Server/Execute/Steps.antt =====
-- What one round of the loop in libs/server/execute-thread.cpp takes out of the cache.
use rservr.Base.{
  ℕ, suc, ◌≤◌, ◌<◌, ◌≡◌, ◌⊎◌, inl, inr, refl, ap, List, [], ◌∷◌, Bool, true, false, ◌==◌, ==_refl,
  length, drop_where, arith, Bool-cases, Option-cases, is_some,
}
use rservr.Flags.{check_all, command_server}
use rservr.Server.{Server, Command}
use rservr.Server.Clients.{get_client_id, decrement_client_waiting}
use rservr.Server.Route.{Outside}
use rservr.Server.Execute.{
  Evaluate, set_effective_handle, forward, execute_here, execute_single, Single, remove_first,
  after_single, internal_round,
}

pub length-drop_where :
    {A : Type 0} (p : A → Bool) (l : List A) → length (drop_where p l) ≤ length l
unfolding drop_where
length-drop_where p [] = omega arith
length-drop_where p (x ∷ l) = ground (arith, length-drop_where p l)

cache-execute_here :
    (evaluate : Evaluate) (e : ℕ × Command) (rest : List (ℕ × Command)) (s : Server)
    → (execute_here evaluate e rest s).1 ≡ rest
unfolding execute_here
cache-execute_here evaluate (handle, cmd) rest s =
    elim (Option-cases (set_effective_handle s handle cmd)) [
      | inl e ↦ rw (e, execute_here)
      | inr (c, e) ↦ rw (e, execute_here)
    ]

-- The client that waits for a command is known.
abbrev pub Known : Server → ℕ → Type 0
Known s handle = is_some (get_client_id s handle) ≡ true

-- With a known client exactly the first command leaves the cache, and with an unknown one all the
-- commands of that client do.
pub cache-execute_single :
    (out : Outside) (evaluate : Evaluate) (handle : ℕ) (cmd : Command) (rest : List (ℕ × Command))
    (s : Server)
    → let r = execute_single out evaluate (handle, cmd) rest s in
      (Known s handle × (r.1 ≡ rest))
      ⊎ ((is_some (get_client_id s handle) ≡ false)
          × (r.0 ≡ false)
          × (r.1 ≡ drop_where (λ e. e.0 == handle) rest))
unfolding execute_single decrement_client_waiting drop_where forward
cache-execute_single out evaluate handle cmd rest s =
    elim (Bool-cases (is_some (get_client_id s handle))) [
      | inl k ↦ rw k (elim (Bool-cases (check_all cmd.execute_type command_server)) [
        | inl c ↦ rw c (inl (refl, cache-execute_here evaluate (handle, cmd) rest _))
        | inr c ↦ rw c (inl (refl, refl))
      ])
      | inr k ↦ rw (k, ==_refl handle) (inr (refl, refl, refl))
    ]

size-single :
    (out : Outside) (evaluate : Evaluate) (handle : ℕ) (cmd : Command) (rest : List (ℕ × Command))
    (s : Server)
    → length (execute_single out evaluate (handle, cmd) rest s).1 ≤ length rest
size-single out evaluate handle cmd rest s =
    elim (cache-execute_single out evaluate handle cmd rest s) [
      | inl (k, same) ↦ rw same (omega arith)
      | inr (k, failed, gone) ↦ rw gone (length-drop_where (λ e. e.0 == handle) rest)
    ]

size-after : (old : ℕ) (r : Single) → length (after_single old r).0 ≤ length r.1
unfolding after_single
size-after old (true, [], s) = ground arith
size-after old (true, e ∷ cache, s) = ground arith
size-after old (false, [], s) = ground arith
size-after old (false, e ∷ cache, s) = ground arith

-- A round makes the cache shorter.
pub internal_round_shrinks :
    (out : Outside) (evaluate : Evaluate) (e : ℕ × Command) (rest : List (ℕ × Command)) (s : Server)
    → length (internal_round out evaluate e rest s).0 ≤ length rest
unfolding internal_round
internal_round_shrinks out evaluate (handle, cmd) rest s = omega (
  arith,
  size-single out evaluate handle cmd rest s,
  size-after (suc (length rest)) (execute_single out evaluate (handle, cmd) rest s),
)

round-failed : (old : ℕ) (r : Single) → r.0 ≡ false → after_single old r ≡ (remove_first r.1, r.2)
unfolding after_single
round-failed old (outcome, cache, s) h = rw h

round-done :
    (old : ℕ) (r : Single) → r.0 ≡ true → length r.1 < old → after_single old r ≡ (r.1, r.2)
unfolding after_single
round-done old (outcome, cache, s) h less = ground arith

-- A round whose command is executed, or forwarded with success, takes that command alone out of the
-- cache. A round whose command fails takes one command more than the failure itself removed: with a
-- known client the command behind it, and with an unknown one the first that is left.
pub internal_round_takes :
    (out : Outside) (evaluate : Evaluate) (handle : ℕ) (cmd : Command) (rest : List (ℕ × Command))
    (s : Server)
    → let r = execute_single out evaluate (handle, cmd) rest s in
      let after = internal_round out evaluate (handle, cmd) rest s in
      (after.1 ≡ r.2)
      × (((r.0 ≡ true) × (after.0 ≡ rest))
          ⊎ ((r.0 ≡ false)
              × ((Known s handle × (after.0 ≡ remove_first rest))
                  ⊎ ((is_some (get_client_id s handle) ≡ false)
                      × (after.0 ≡ remove_first (drop_where (λ e. e.0 == handle) rest))))))
unfolding internal_round
internal_round_takes out evaluate handle cmd rest s =
    let r : Single = execute_single out evaluate (handle, cmd) rest s in
    elim (Bool-cases r.0) [
      | inl done ↦ elim (cache-execute_single out evaluate handle cmd rest s) [
        | inl (k, same) ↦
            rw (round-done (suc (length rest)) r done (rw same (omega arith)))
              (refl, inl (done, same))
        | inr (k, failed, gone) ↦ cc
      ]
      | inr bad ↦ rw (round-failed (suc (length rest)) r bad) (
        refl,
        inr (
          bad,
          elim (cache-execute_single out evaluate handle cmd rest s) [
            | inl (k, same) ↦ inl (k, ap remove_first same)
            | inr (k, failed, gone) ↦ inr (k, ap remove_first gone)
          ],
        ),
      )
    ]
