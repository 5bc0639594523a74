-- ===== src/Address/Labels/Leading.antt =====
-- `check_address_label` (libs/protocol/api-label-check.cpp) on labels that begin with the client
-- separator: the position 0 of a first separator is not above the initial `address = 0`.
use mathlib.Core.List.{append-nil}
use native.Mathlib.Nat.{add-zero}
use rservr.Base.{
  ℕ, ◌+◌, ◌≤◌, ◌≡◌, [], ◌∷◌, ◌++◌, Bool, true, false, some, none, Text, length, arith,
  length-append,
}
use rservr.Address.{client_scope_char}
use rservr.Address.Labels.{address_limit, scan, check_address_label}
use rservr.Address.Labels.Shape.{IsPlain}

scan_plain :
    (t a n pos : ℕ) (s rest : Text)
    → IsPlain s
    → length s + n ≤ address_limit
    → scan (some t) a n true pos (s ++ rest)
      ≡ scan (some t) a (n + length s) true (pos + length s) rest
unfolding scan
scan_plain t a n pos [] rest h short = rw (add-zero n, add-zero pos)
scan_plain t a n pos (c ∷ s) rest h short =
    ground (arith, scan_plain t a (n + 1) (pos + 1) s rest (h.0.1, h.1.1) (omega arith))

lone :
    (s : Text)
    → IsPlain s
    → length s ≤ address_limit
    → scan none 0 0 false 0 (client_scope_char ∷ s) ≡ false
unfolding scan
lone s h short = rw (← append-nil s) (rw (scan_plain 0 0 0 1 s [] h (omega arith)) (ground arith))

doubled :
    (s t : Text)
    → IsPlain s
    → IsPlain t
    → length s + length t ≤ address_limit
    → scan none 0 0 false 0 (client_scope_char ∷ s ++ (client_scope_char ∷ t)) ≡ true
unfolding scan
doubled s t hs ht short = rw (scan_plain 0 0 0 1 s (client_scope_char ∷ t) hs (omega arith)) (
    rw (← append-nil t) (
      rw (scan_plain (1 + length s) 0 (0 + length s) (1 + length s + 1) t [] ht (omega arith))
        (ground arith)))

-- Where the regular expression admits both texts, with `s` and `t` free of separators and together
-- no longer than an address may be: the label `?s` is refused, and the label `?s?t` is accepted.
pub leading_separator :
    (matches : Text → Bool) (s t : Text)
    → IsPlain s
    → IsPlain t
    → length s + length t ≤ address_limit
    → matches (client_scope_char ∷ s) ≡ true
    → matches (client_scope_char ∷ s ++ (client_scope_char ∷ t)) ≡ true
    → (check_address_label matches (some (client_scope_char ∷ s)) ≡ false)
      × (check_address_label matches (some (client_scope_char ∷ s ++ (client_scope_char ∷ t)))
          ≡ true)
unfolding check_address_label
leading_separator matches s t hs ht short ms mt = (
  ground (arith, lone s hs (omega arith)),
  ground (arith, doubled s t hs ht short, length-append s (client_scope_char ∷ t)),
)
