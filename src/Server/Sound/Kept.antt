-- ===== src/Server/Sound/Kept.antt =====
-- The operations of libs/server that leave the references between the tables as they are.
use rservr.Base.{
  ℕ, ◌≡◌, ◌∙◌, refl, Bool, true, false, ◌==◌, Option, none, some, Text, Bool-cases, Option-cases,
  inl, inr, if-cases,
}
use rservr.Flags.{type_none}
use rservr.Server.{Server, Client}
use rservr.Server.Clients.{
  get_client_id, change_client, notify_register_attempt, continue_if_settled,
  continue_register_notify, manual_update, manual_update_readiness,
}
use rservr.Server.Register.{
  Refusal, accepted, silent, notified, granted, settle, take_type, finish,
  set_registered_client_type,
}
use rservr.Server.Sound.{tables, tables-change_client}

tables-notify :
    (target : Option Client) (reference : ℕ) (success : Bool) (s : Server)
    → tables (notify_register_attempt target reference success s) ≡ tables s
unfolding notify_register_attempt
tables-notify none reference success s = refl
tables-notify (some c) reference success s = elim (Bool-cases (reference == 0)) [
  | inl e ↦ rw e
  | inr e ↦ rw e
]

tables-continue_register_notify :
    (outcome : Bool) (s : Server) → tables (continue_register_notify outcome s) ≡ tables s
unfolding continue_register_notify
tables-continue_register_notify outcome s =
    if-cases (λ (r : Server). tables r ≡ tables s) _ _ _ (λ e. refl) (λ e. refl)

pub tables-continue_if_settled : (s : Server) → tables (continue_if_settled s) ≡ tables s
unfolding continue_if_settled
tables-continue_if_settled s =
    if-cases (λ (r : Server). tables r ≡ tables s) _ _ _
      (λ e. tables-continue_register_notify true s) (λ e. refl)

pub tables-manual_update :
    (c : Client) (handle : ℕ) (s : Server) → tables (manual_update c handle s) ≡ tables s
unfolding manual_update
tables-manual_update c handle s =
    tables-notify _ _ _ _
    ∙ (tables-continue_if_settled _ ∙ tables-change_client handle _ s (λ d. refl))

pub tables-manual_update_readiness :
    (s : Server) (handle : ℕ) → tables (manual_update_readiness s handle).1 ≡ tables s
unfolding manual_update_readiness
tables-manual_update_readiness s handle = elim (Option-cases (get_client_id s handle)) [
  | inl e ↦ rw (e, manual_update_readiness)
  | inr (c, e) ↦ rw (e, manual_update_readiness) (tables-manual_update c handle s)
]

tables-ready :
    (c : Client) (target : Option Client) (s : Server)
    → tables (
        notify_register_attempt target c.reference true
          (continue_if_settled (change_client c.handle (λ d. record d { fresh_client = false }) s)))
      ≡ tables s
tables-ready c target s =
    tables-notify target c.reference true _
    ∙ (tables-continue_if_settled _ ∙ tables-change_client c.handle _ s (λ b. refl))

tables-settle :
    (c : Client) (target : Option Client) (disable : Bool) (type : ℕ) (s : Server)
    → tables (settle c target disable type s) ≡ tables s
unfolding settle
tables-settle c target disable type s = elim (Bool-cases (type == type_none)) [
  | inl e ↦ rw e
  | inr e ↦ elim (Bool-cases c.fresh_client) [
    | inl f ↦ elim (Bool-cases disable) [
      | inl d ↦ rw (e, f, d) (tables-change_client c.handle _ s (λ b. refl))
      | inr d ↦ rw (e, f, d) (tables-ready c target s)
    ]
    | inr f ↦ rw (e, f)
  ]
]

tables-take_type :
    (c : Client) (target : Option Client) (name : Text) (type : ℕ) (disable : Bool) (s : Server)
    → tables (take_type c target name type disable s) ≡ tables s
unfolding take_type
tables-take_type c target name type disable s = elim (Bool-cases (granted c type == type_none)) [
  | inl e ↦ rw e (tables-settle c target disable (granted c type) _ ∙ named)
  | inr e ↦ rw e (tables-settle c target disable (granted c type) _ ∙ named)
]
  where
    named :
        tables (
          change_client c.handle
            (λ d. record d { client_type = granted c type; client_name = name })
            s)
        ≡ tables s
    named = tables-change_client c.handle _ s (λ d. refl)

tables-finish :
    (r : Refusal) (c : Client) (target : Option Client) (name : Text) (type : ℕ) (disable : Bool)
    (s : Server)
    → tables (finish r c target name type disable s).2 ≡ tables s
unfolding finish
tables-finish accepted c target name type disable s = tables-take_type c target name type disable s
tables-finish silent c target name type disable s = refl
tables-finish notified c target name type disable s = tables-notify target c.reference false s

pub tables-set_registered_client_type :
    (handle : ℕ) (name : Text) (type : ℕ) (disable : Bool) (s : Server)
    → tables (set_registered_client_type handle name type disable s).2 ≡ tables s
unfolding set_registered_client_type
tables-set_registered_client_type handle name type disable s =
    elim (Option-cases (get_client_id s handle)) [
      | inl e ↦ rw (e, set_registered_client_type)
      | inr (c, e) ↦
          rw (e, set_registered_client_type)
            (tables-finish _ c _ name _ disable _ ∙ tables-change_client handle _ s (λ d. refl))
    ]
