-- ===== src/Server/Sound.antt =====
-- The tables of the server refer to each other by handles: every service has an owner, and every
-- monitor a watcher, in the table of clients.
pub mod Kept
pub mod Changes
pub mod Removals
pub mod Requests
pub mod Everyone
use rservr.Base.{
  ℕ, ◌≡◌, ◌≢◌, ◌∙◌, sym, refl, ap, subst, List, [], ◌∷◌, ◌++◌, Bool, true, false, ◌||◌, ◌==◌,
  if◌then◌else◌, All, any, drop_where, update_first, map, arith, Bool-cases, inl, inr, keep,
}
use rservr.Server.{Server, Client, Service, ExitMonitor}
use rservr.Server.Clients.{has_handle, change_client, set_primary_service}
use rservr.Server.Clients.Laws.{KeepsHandle, map-update_first}

-- The handles of the clients, and the other tables.
abbrev pub Tables : Type 0
Tables = List ℕ × List Service × List (ℕ × ℕ) × List ExitMonitor

abbrev pub handles : List Client → List ℕ
handles cs = map (λ c. c.handle) cs

abbrev pub tables : Server → Tables
tables s = (handles s.clients, s.services, s.event_monitors, s.exit_monitors)

abbrev pub Lives : List ℕ → ℕ → Type 0
Lives hs handle = any (λ h. h == handle) hs ≡ true

abbrev pub AreSound : Tables → Type 0
AreSound (hs, services, events, exits) =
    All (λ e. Lives hs e.owner) services
    × All (λ m. Lives hs m.0) events
    × All (λ m. Lives hs m.watcher) exits

abbrev pub IsSound : Server → Type 0
IsSound s = AreSound (tables s)

module _ {A : Type 0} where
  pub All-drop_where :
      (P Q : A → Type 0) (p : A → Bool) (l : List A)
      → ((x : A) → P x → p x ≡ false → Q x)
      → All P l
      → All Q (drop_where p l)
  unfolding drop_where
  All-drop_where P Q p [] f h = tt
  All-drop_where P Q p (x ∷ l) f h = elim (Bool-cases (p x)) [
    | inl e ↦ rw e (All-drop_where P Q p l f h.1)
    | inr e ↦ rw e (f x h.0 e, All-drop_where P Q p l f h.1)
  ]

  pub All-append : (P : A → Type 0) (l m : List A) → All P l → All P m → All P (l ++ m)
  All-append P [] m h k = k
  All-append P (x ∷ l) m h k = (h.0, All-append P l m h.1 k)

  pub All-update_first :
      (P : A → Type 0) (p : A → Bool) (f : A → A) (l : List A)
      → ((x : A) → P x → P (f x))
      → All P l
      → All P (update_first p f l)
  unfolding update_first
  All-update_first P p f [] k h = tt
  All-update_first P p f (x ∷ l) k h = elim (Bool-cases (p x)) [
    | inl e ↦ rw e (k x h.0, h.1)
    | inr e ↦ rw e (h.0, All-update_first P p f l k h.1)
  ]

pub tables-change_client :
    (handle : ℕ) (f : Client → Client) (s : Server)
    → KeepsHandle f
    → tables (change_client handle f s) ≡ tables s
unfolding change_client
tables-change_client handle f s k =
    ap (λ (hs : List ℕ). (hs, s.services, s.event_monitors, s.exit_monitors))
      (map-update_first (λ c. c.handle) handle f s.clients k)

pub keeps_primary : (name : List ℕ) → KeepsHandle (set_primary_service name)
unfolding set_primary_service
keeps_primary name c = ground arith
