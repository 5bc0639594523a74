-- ===== src/Server/Settings/Limits.antt =====
-- What a limit reads after limits were set.
use Prim.Native.String.{String}
use rservr.Base.{ℕ, ◌-◌, ◌≡◌, refl, ap, inl, inr, true, false, none, some, Option-cases, arith}
use rservr.Server.Settings.{
  Settings, Limit, error_limit, invalid_limit, command_limit, queue_limit, client_limit,
  service_limit, allow_server_requeue, limit_named, change_limit, read_limit, changed_limit,
  set_limit, found_limit, get_limit,
}

-- What is kept of a value: the waiting commands leave room for those that the server queues again.
unfoldable pub kept_value : Limit → ℕ → ℕ
kept_value error_limit value = value
kept_value invalid_limit value = value
kept_value command_limit value = value
kept_value queue_limit value = value - allow_server_requeue
kept_value client_limit value = value
kept_value service_limit value = value

read-change_limit :
    (limit : Limit) (value : ℕ) (s : Settings)
    → read_limit limit (change_limit limit value s) ≡ kept_value limit value
unfolding read_limit change_limit kept_value
read-change_limit error_limit value s = refl
read-change_limit invalid_limit value s = refl
read-change_limit command_limit value s = refl
read-change_limit queue_limit value s = ground arith
read-change_limit client_limit value s = refl
read-change_limit service_limit value s = refl

-- What is left when a limit is set to what it reads.
unfoldable pub set_to_itself : Limit → Settings → Settings
set_to_itself error_limit s = s
set_to_itself invalid_limit s = s
set_to_itself command_limit s = s
set_to_itself queue_limit s = record s { max_commands = s.max_commands - allow_server_requeue }
set_to_itself client_limit s = s
set_to_itself service_limit s = s

change-read_limit :
    (limit : Limit) (s : Settings)
    → change_limit limit (read_limit limit s) s ≡ set_to_itself limit s
unfolding read_limit change_limit set_to_itself
change-read_limit error_limit s = refl
change-read_limit invalid_limit s = refl
change-read_limit command_limit s = refl
change-read_limit queue_limit s = ap (λ (n : ℕ). record s { max_commands = n }) (ground arith)
change-read_limit client_limit s = refl
change-read_limit service_limit s = refl

-- A limit with a known name is set to any value that is not negative, and is then read as that
-- value, but for the limit of waiting commands, which reads as the value less the room that is kept
-- for the server. Setting a limit to what it reads changes nothing, but for that limit: each time
-- it becomes smaller by that room, down to 0. Nothing is set under any other name, or to a negative
-- value.
pub get_limit-set_limit :
    (name : String) (value : ℕ) (s : Settings)
    → ((limit : Limit)
        → limit_named name ≡ some limit
        → ((set_limit name (some value) s).0 ≡ true)
          × (get_limit name (set_limit name (some value) s).1 ≡ some (kept_value limit value))
          × ((set_limit name (get_limit name s) s).1 ≡ set_to_itself limit s))
      × (limit_named name ≡ none
          → (set_limit name (some value) s ≡ (false, s)) × (get_limit name s ≡ none))
      × (set_limit name none s ≡ (false, s))
unfolding set_limit get_limit changed_limit found_limit
get_limit-set_limit name value s = (
  λ limit known.
      rw (known, changed_limit, found_limit)
        (refl, ap some (read-change_limit limit value s), change-read_limit limit s),
  λ unknown. rw (unknown, changed_limit, found_limit) (refl, refl),
  elim (Option-cases (limit_named name)) [
    | inl e ↦ rw (e, changed_limit) refl
    | inr (limit, e) ↦ rw (e, changed_limit) refl
  ],
)
