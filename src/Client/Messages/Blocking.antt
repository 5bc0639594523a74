-- ===== src/Client/Messages/Blocking.antt =====
-- Which messages a client lets in: the flags of libs/client/api-message-queue.cpp. Their setters
-- put all three flags at once.
use rservr.Base.{◌≡◌, refl, Bool, true, false, not, ◌||◌, List, [], ◌∷◌, arith}

pub record Blocking : Type 0 where
  pub block_message_flag : Bool
  pub allow_privileged_responses_flag : Bool
  pub allow_responses_flag : Bool
  pub block_remote_flag : Bool

abbrev pub at_start : Blocking
at_start = record {
  block_message_flag = false;
  allow_privileged_responses_flag = true;
  allow_responses_flag = true;
  block_remote_flag = true;
}

unfoldable pub block_messages : Blocking → Blocking
block_messages b = record b {
  allow_privileged_responses_flag = false;
  allow_responses_flag = false;
  block_message_flag = true;
}

unfoldable pub allow_messages : Blocking → Blocking
allow_messages b = record b {
  allow_privileged_responses_flag = true;
  allow_responses_flag = true;
  block_message_flag = false;
}

unfoldable pub allow_privileged_responses : Blocking → Blocking
allow_privileged_responses b = record b {
  allow_privileged_responses_flag = true;
  allow_responses_flag = false;
  block_message_flag = true;
}

unfoldable pub allow_responses : Blocking → Blocking
allow_responses b = record b {
  allow_privileged_responses_flag = true;
  allow_responses_flag = true;
  block_message_flag = true;
}

unfoldable pub block_remote : Blocking → Blocking
block_remote b = record b { block_remote_flag = true }

unfoldable pub allow_remote : Blocking → Blocking
allow_remote b = record b { block_remote_flag = false }

abbrev pub block_messages_status : Blocking → Bool
block_messages_status b = b.block_message_flag

unfoldable pub allow_privileged_responses_status : Blocking → Bool
allow_privileged_responses_status b =
    b.allow_privileged_responses_flag || b.allow_responses_flag || not b.block_message_flag

unfoldable pub allow_responses_status : Blocking → Bool
allow_responses_status b = b.allow_responses_flag || not b.block_message_flag

-- The calls that set the flags.
pub data Setting : Type 0 where
  blocks allows privileged responses no_remote remote : Setting

unfoldable pub set_flags : Setting → Blocking → Blocking
unfolding block_messages allow_messages allow_privileged_responses allow_responses block_remote
    allow_remote
set_flags blocks b = block_messages b
set_flags allows b = allow_messages b
set_flags privileged b = allow_privileged_responses b
set_flags responses b = allow_responses b
set_flags no_remote b = block_remote b
set_flags remote b = allow_remote b

unfoldable pub settings : List Setting → Blocking → Blocking
settings [] b = b
settings (c ∷ cs) b = settings cs (set_flags c b)

-- What is let in is graded: requests only with all responses, and these only with privileged ones.
pub record IsGraded (b : Blocking) : Type 0 where
  pub requests_need : b.block_message_flag ≡ false → b.allow_responses_flag ≡ true
  pub responses_need : b.allow_responses_flag ≡ true → b.allow_privileged_responses_flag ≡ true

set_flags-IsGraded : (c : Setting) (b : Blocking) → IsGraded b → IsGraded (set_flags c b)
unfolding set_flags
set_flags-IsGraded blocks b g = ground arith
set_flags-IsGraded allows b g = ground arith
set_flags-IsGraded privileged b g = ground arith
set_flags-IsGraded responses b g = ground arith
set_flags-IsGraded no_remote b g = record {
  requests_need = g.requests_need;
  responses_need = g.responses_need;
}
set_flags-IsGraded remote b g = record {
  requests_need = g.requests_need;
  responses_need = g.responses_need;
}

pub settings-IsGraded : (cs : List Setting) (b : Blocking) → IsGraded b → IsGraded (settings cs b)
unfolding settings
settings-IsGraded [] b g = g
settings-IsGraded (c ∷ cs) b g = settings-IsGraded cs (set_flags c b) (set_flags-IsGraded c b g)

pub at_start-IsGraded : IsGraded at_start
at_start-IsGraded = record { requests_need = λ e. refl; responses_need = λ e. refl }
