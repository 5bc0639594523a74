-- ===== src/Client/Receiving/Guards.antt =====
-- What a client admits.
use rservr.Base.{ℕ, ◌≡◌, ◌↔◌, List, true, false, arith}
use rservr.Flags.{check_all, command_response, command_remote}
use rservr.Client.Messages.{Info, Incoming}
use rservr.Client.Messages.Keeping.{is_full, add_new_message}
use rservr.Client.Messages.Blocking.{
  Setting, at_start, settings, settings-IsGraded, at_start-IsGraded, block_messages_status,
  allow_responses_status, allow_privileged_responses_status,
}
use rservr.Client.Receiving.{
  Local, Around, requirement_fail, admits_response, register_response, added,
}

-- After any settings, a client that lets requests in lets all responses in, and one that lets all
-- responses in lets the privileged ones in.
pub settings-admits_response :
    (cs : List Setting) (current : ℕ)
    → (block_messages_status (settings cs at_start) ≡ false
        → admits_response current (settings cs at_start) ≡ true)
      × (allow_responses_status (settings cs at_start) ≡ true
          → allow_privileged_responses_status (settings cs at_start) ≡ true)
unfolding admits_response allow_responses_status allow_privileged_responses_status
settings-admits_response cs current =
    let b = settings cs at_start in
    let graded = settings-IsGraded cs at_start at_start-IsGraded in
    (
      λ open_to. ground (arith, open_to),
      λ responses. ground (arith, responses, graded.requests_need, graded.responses_need),
    )

-- A response is registered exactly when the executed command is a response that is not passed on,
-- the flags admit it, it answers a command of this process, and there is room for it.
pub register_response_iff :
    (out : Around) (current : ℕ) (info : Info) (response : Incoming) (s : Local)
    → ((register_response out current info response s).0 ≡ true) ↔ (
        (check_all current command_response ≡ true)
        × (check_all current command_remote ≡ false)
        × (admits_response current s.blocking ≡ true)
        × (info.creator_pid ≡ out.getpid)
        × (is_full s.messages ≡ false))
unfolding register_response requirement_fail added add_new_message
register_response_iff out current info response s = (λ h. ground (arith, h), λ h. ground (arith, h))
