-- ===== src/Server/Route/Judged.antt =====
-- The end of a command whose receiver is known in `send_client_command` (libs/server/client-list.cpp):
-- it is judged and delivered, or looked up again as a command to the server itself.
use rservr.Base.{
  ℕ, ◌+◌, ◌≤◌, ◌≡◌, ◌⊎◌, refl, inl, inr, [], ◌∷◌, ◌++◌, Bool, true, false, not, ◌||◌, some, arith,
  Bool-cases, Option-cases, ltb, if◌then◌else◌, none, ◌<◌, ◌&&◌, subst, sym,
}
use rservr.Flags.{check_all, command_server, command_remote, event_error, event_discarded}
use rservr.Server.{Server, Client, Command, response, delivered}
use rservr.Server.Clients.{change_client}
use rservr.Server.Route.{
  Outside, requeue_penalty, penalty_max, respond, count_invalid, Verdict, allow, deny,
  permission_rules, retry, deliver, judge, requeue_found, reparse,
}

-- The command is answered once with the event, and nothing waits that did not.
abbrev pub Refuses : Server → Command → ℕ → Bool × Server → Type 0
Refuses s c event r =
    (r.0 ≡ false) × (r.1.sent ≡ response c event ∷ s.sent) × (r.1.waiting ≡ s.waiting)

abbrev pub again : Command → Command
again c = record c { penalty = c.penalty + requeue_penalty }

-- Why the receiver does not get the command, and the event that tells it.
abbrev pub Undelivered : Outside → Client → Client → Bool → Command → ℕ → Type 0
Undelivered out sender receiver service c event =
    ((counts : Bool) × (permission_rules sender.client_type receiver.client_type service c
        ≡ deny event counts))
    ⊎ ((permission_rules sender.client_type receiver.client_type service c ≡ allow)
        × (out.sends receiver.handle c ≡ false)
        × (((out.output_terminated receiver.handle ≡ true) × (event ≡ event_error))
            ⊎ ((out.output_terminated receiver.handle ≡ false)
                × (event ≡ event_discarded)
                × ((penalty_max < (again c).penalty) ⊎ (out.queue_open ≡ false)))))

-- Let through by the rules: written to the receiver, or, while the receiver is busy and the
-- penalty allows, put back with a higher penalty.
abbrev pub IsPassed : Outside → Client → Client → Bool → Command → Server → Bool × Server → Type 0
IsPassed out sender receiver service c s r =
    (permission_rules sender.client_type receiver.client_type service c ≡ allow)
    × (r.0 ≡ true)
    × (((out.sends receiver.handle c ≡ true)
          × (r.1.sent ≡ delivered receiver.handle c ∷ s.sent)
          × (r.1.waiting ≡ s.waiting))
        ⊎ ((out.sends receiver.handle c ≡ false)
            × (out.output_terminated receiver.handle ≡ false)
            × ((again c).penalty ≤ penalty_max)
            × (r.1.sent ≡ s.sent)
            × (r.1.waiting ≡ s.waiting ++ ((sender.handle, again c) ∷ []))))

abbrev pub IsJudged : Outside → Client → Client → Bool → Command → Server → Bool × Server → Type 0
IsJudged out sender receiver service c s r =
    ((event : ℕ) × Refuses s c event r × Undelivered out sender receiver service c event)
    ⊎ IsPassed out sender receiver service c s r

-- A command to the server itself, found again by its name.
abbrev pub is_servers : Command → Bool
is_servers found =
    check_all found.execute_type command_server && not (check_all found.execute_type command_remote)

abbrev pub Unfound : Outside → Command → ℕ → Type 0
Unfound out c event =
    ((out.find_command c ≡ none) × (event ≡ event_error))
    ⊎ ((found : Command) × (out.find_command c ≡ some found)
        × (((is_servers found ≡ false) × (event ≡ event_error))
            ⊎ ((is_servers found ≡ true) × (out.queue_open ≡ false) × (event ≡ event_discarded))))

abbrev pub IsReparsed : Outside → Client → Command → Server → Bool × Server → Type 0
IsReparsed out sender c s r =
    (found : Command) × (out.find_command c ≡ some found)
    × (is_servers found ≡ true)
    × (r.0 ≡ true)
    × (r.1.sent ≡ s.sent)
    × (r.1.waiting ≡ s.waiting ++ ((sender.handle, found) ∷ []))

abbrev pub IsLooked : Outside → Client → Command → Server → Bool × Server → Type 0
IsLooked out sender c s r =
    ((event : ℕ) × Refuses s c event r × Unfound out c event) ⊎ IsReparsed out sender c s r

retry_cases :
    (out : Outside) (sender : ℕ) (c : Command) (s : Server)
    → let r = retry out sender c s in
      (Refuses s c event_discarded r
        × ((penalty_max < (again c).penalty) ⊎ (out.queue_open ≡ false)))
      ⊎ (((again c).penalty ≤ penalty_max)
          × (r.0 ≡ true)
          × (r.1.sent ≡ s.sent)
          × (r.1.waiting ≡ s.waiting ++ ((sender, again c) ∷ [])))
unfolding retry change_client
retry_cases out sender c s = elim (Bool-cases (ltb penalty_max (c.penalty + requeue_penalty))) [
  | inl e ↦ rw e (inl ((refl, refl, refl), inl (ground (arith, e))))
  | inr e ↦ elim (Bool-cases out.queue_open) [
    | inl q ↦ rw (e, q) (inr (ground arith, refl, refl, refl))
    | inr q ↦ rw (e, q) (inl ((refl, refl, refl), inr refl))
  ]
]

deliver_cases :
    (out : Outside) (sender receiver : Client) (service : Bool) (c : Command) (s : Server)
    → permission_rules sender.client_type receiver.client_type service c ≡ allow
    → IsJudged out sender receiver service c s (deliver out sender.handle receiver.handle c s)
unfolding deliver change_client
deliver_cases out sender receiver service c s ok = elim (Bool-cases (out.sends receiver.handle c)) [
  | inl e ↦ rw e (inr (ok, refl, inl (refl, refl, refl)))
  | inr e ↦ elim (Bool-cases (out.output_terminated receiver.handle)) [
    | inl t ↦ rw (e, t) (inl (event_error, (refl, refl, refl), inr (ok, refl, inl (refl, refl))))
    | inr t ↦
        rw (e, t)
          (elim (retry_cases out sender.handle c s) [
            | inl (refused, why) ↦
                inl (event_discarded, refused, inr (ok, refl, inr (refl, refl, why)))
            | inr (fits, done, sent, waiting) ↦
                inr (ok, done, inr (refl, refl, fits, sent, waiting))
          ])
  ]
]

Verdict-cases :
    (v : Verdict) → (v ≡ allow) ⊎ ((event : ℕ) × (counts : Bool) × (v ≡ deny event counts))
Verdict-cases allow = inl refl
Verdict-cases (deny event counts) = inr (event, counts, refl)

denied :
    (handle : ℕ) (counts : Bool) (c : Command) (event : ℕ) (s : Server)
    → Refuses s c event (false, respond c event (if counts then count_invalid handle s else s))
unfolding change_client
denied handle true c event s = (refl, refl, refl)
denied handle false c event s = (refl, refl, refl)

pub judge_cases :
    (out : Outside) (sender receiver : Client) (service : Bool) (c : Command) (s : Server)
    → IsJudged out sender receiver service c s (judge out sender receiver service c s)
unfolding judge
judge_cases out sender receiver service c s =
    elim (Verdict-cases (permission_rules sender.client_type receiver.client_type service c)) [
      | inl ok ↦
          subst (IsJudged out sender receiver service c s) (sym (let_through ok))
            (deliver_cases out sender receiver service c s ok)
      | inr (event, counts, e) ↦
          subst (IsJudged out sender receiver service c s) (sym (turned_away event counts e))
            (inl (event, denied sender.handle counts c event s, inl (counts, e)))
    ]
  where
    let_through :
        permission_rules sender.client_type receiver.client_type service c ≡ allow
        → judge out sender receiver service c s ≡ deliver out sender.handle receiver.handle c s
    let_through ok = rw (ok, judge) refl

    turned_away :
        (event : ℕ) (counts : Bool)
        → permission_rules sender.client_type receiver.client_type service c ≡ deny event counts
        → judge out sender receiver service c s
          ≡ (false, respond c event (if counts then count_invalid sender.handle s else s))
    turned_away event counts e = rw (e, judge) refl

requeue_found_cases :
    (out : Outside) (sender : Client) (c found : Command) (s : Server)
    → out.find_command c ≡ some found
    → IsLooked out sender c s (requeue_found out sender.handle c found s)
unfolding requeue_found change_client
requeue_found_cases out sender c found s e =
    elim (Bool-cases (
      not (check_all found.execute_type command_server)
      || check_all found.execute_type command_remote)) [
        | inl bad ↦
            rw bad (
              inl
                (event_error, (refl, refl, refl), inr (found, e, inl (ground (arith, bad), refl))))
        | inr good ↦
            let servers : is_servers found ≡ true = ground (arith, good) in
            elim (Bool-cases out.queue_open) [
              | inl q ↦ rw (good, q) (inr (found, e, servers, refl, refl, refl))
              | inr q ↦
                  rw (good, q)
                    (inl (
                      event_discarded,
                      (refl, refl, refl),
                      inr (found, e, inr (servers, refl, refl)),
                    ))
            ]
      ]

pub reparse_cases :
    (out : Outside) (sender : Client) (c : Command) (s : Server)
    → IsLooked out sender c s (reparse out sender.handle c s)
unfolding reparse
reparse_cases out sender c s = elim (Option-cases (out.find_command c)) [
  | inl e ↦ rw (e, reparse) (inl (event_error, (refl, refl, refl), inl (refl, refl)))
  | inr (found, e) ↦
      subst (λ r. IsLooked out sender c s r) (sym (looked found e))
        (requeue_found_cases out sender c found s e)
]
  where
    looked :
        (found : Command)
        → out.find_command c ≡ some found
        → reparse out sender.handle c s ≡ requeue_found out sender.handle c found s
    looked found e = rw (e, reparse) refl
