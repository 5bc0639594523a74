-- ===== src/Server/Execute/Loop.antt =====
-- The loop of `internal_execute` (libs/server/execute-thread.cpp) ends.
use rservr.Base.{
  ℕ, zero, suc, ◌≤◌, ◌≡◌, ◌⊎◌, inl, inr, refl, List, [], ◌∷◌, true, false, length, arith,
  Bool-cases, if-true, if-false, sym, ◌∙◌,
}
use rservr.Server.{Server, Command}
use rservr.Server.Route.{Outside}
use rservr.Server.Execute.{Evaluate, internal_round, internal_execute}
use rservr.Server.Execute.Steps.{internal_round_shrinks}

exits :
    (out : Outside) (evaluate : Evaluate) (fuel : ℕ) (e : ℕ × Command) (rest : List (ℕ × Command))
    (s : Server)
    → s.exiting ≡ true
    → internal_execute out evaluate (suc fuel) (e ∷ rest) s ≡ (e ∷ rest, s)
unfolding internal_execute
exits out evaluate fuel e rest s x = if-true s.exiting _ _ x

goes_on :
    (out : Outside) (evaluate : Evaluate) (fuel : ℕ) (e : ℕ × Command) (rest : List (ℕ × Command))
    (s : Server)
    → s.exiting ≡ false
    → internal_execute out evaluate (suc fuel) (e ∷ rest) s
      ≡ internal_execute out evaluate fuel
          (internal_round out evaluate e rest s).0
          (internal_round out evaluate e rest s).1
unfolding internal_execute
goes_on out evaluate fuel e rest s x = if-false s.exiting _ _ x

no_commands :
    (out : Outside) (evaluate : Evaluate) (fuel : ℕ) (s : Server)
    → internal_execute out evaluate fuel [] s ≡ ([], s)
unfolding internal_execute
no_commands out evaluate zero s = refl
no_commands out evaluate (suc fuel) s = refl

-- With at least as many rounds as there are commands in the cache, the loop ends: no command is
-- left, or the server was asked to exit.
pub internal_execute_ends :
    (out : Outside) (evaluate : Evaluate) (fuel : ℕ) (cache : List (ℕ × Command)) (s : Server)
    → length cache ≤ fuel
    → let r = internal_execute out evaluate fuel cache s in (r.0 ≡ []) ⊎ (r.1.exiting ≡ true)
internal_execute_ends out evaluate fuel [] s h = rw (no_commands out evaluate fuel s) (inl refl)
internal_execute_ends out evaluate zero (e ∷ rest) s h = absurd (omega arith)
internal_execute_ends out evaluate (suc fuel) (e ∷ rest) s h = elim (Bool-cases s.exiting) [
  | inl x ↦ rw (exits out evaluate fuel e rest s x) (inr x)
  | inr x ↦ rw (goes_on out evaluate fuel e rest s x) (
      internal_execute_ends out evaluate fuel (internal_round out evaluate e rest s).0
        (internal_round out evaluate e rest s).1
        (omega (arith, internal_round_shrinks out evaluate e rest s)))
]

-- From as many rounds as there are commands in the cache, more rounds change nothing.
pub internal_execute_stable :
    (out : Outside) (evaluate : Evaluate) (fuel more : ℕ) (cache : List (ℕ × Command)) (s : Server)
    → length cache ≤ fuel
    → length cache ≤ more
    → internal_execute out evaluate fuel cache s ≡ internal_execute out evaluate more cache s
internal_execute_stable out evaluate fuel more [] s h k =
    no_commands out evaluate fuel s ∙ sym (no_commands out evaluate more s)
internal_execute_stable out evaluate zero more (e ∷ rest) s h k = absurd (omega arith)
internal_execute_stable out evaluate (suc fuel) zero (e ∷ rest) s h k = absurd (omega arith)
internal_execute_stable out evaluate (suc fuel) (suc more) (e ∷ rest) s h k =
    elim (Bool-cases s.exiting) [
      | inl x ↦ exits out evaluate fuel e rest s x ∙ sym (exits out evaluate more e rest s x)
      | inr x ↦
          let less = internal_round_shrinks out evaluate e rest s in
          goes_on out evaluate fuel e rest s x
          ∙ (internal_execute_stable out evaluate fuel more (internal_round out evaluate e rest s).0
                (internal_round out evaluate e rest s).1 (omega (arith, less)) (omega (arith, less))
              ∙ sym (goes_on out evaluate more e rest s x))
    ]
