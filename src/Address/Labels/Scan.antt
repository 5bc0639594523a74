-- ===== src/Address/Labels/Scan.antt =====
-- The position-keeping loop of `check_address_label` (libs/protocol/api-label-check.cpp) and a
-- reader without positions run alike.
use rservr.Base.{
  ℕ, ◌+◌, ◌<◌, ◌≡◌, refl, [], ◌∷◌, Bool, true, false, Option, none, some, ◌==◌, ltb, Text, arith,
}
use rservr.Address.{client_scope_char, address_scope_char}
use rservr.Address.Labels.{address_limit, scan}

-- Where a reader of a route stands: before any separator, in a later client's name, or in an
-- address of which `n` bytes are read.
pub data Phase : Type 0 where
  in_name in_client : Phase
  in_address : ℕ → Phase

-- A reader without positions.
unfoldable pub accepts : Phase → Text → Bool
accepts in_name [] = true
accepts in_client [] = false
accepts (in_address n) [] = true
accepts in_name (c ∷ s) = elim (c == client_scope_char) [
  | true ↦ accepts (in_address 0) s
  | false ↦ elim (c == address_scope_char) [ true ↦ false | false ↦ accepts in_name s ]
]
accepts in_client (c ∷ s) = elim (c == client_scope_char) [
  | true ↦ accepts (in_address 0) s
  | false ↦ elim (c == address_scope_char) [ true ↦ false | false ↦ accepts in_client s ]
]
accepts (in_address n) (c ∷ s) = elim (c == client_scope_char) [
  | true ↦ false
  | false ↦ elim (c == address_scope_char) [
    | true ↦ accepts in_client s
    | false ↦ elim (ltb address_limit (n + 1)) [
      | true ↦ false
      | false ↦ accepts (in_address (n + 1)) s
    ]
  ]
]

-- The variables of the loop in each phase.
abbrev pub Stands : Phase → Option ℕ → ℕ → ℕ → Bool → ℕ → Type 0
Stands in_name none a n checking pos = (a ≡ 0) × (n ≡ 0) × (checking ≡ false) × (0 < pos)
Stands in_name (some t) a n checking pos = ⊥
Stands in_client none a n checking pos = ⊥
Stands in_client (some t) a n checking pos = (t < a) × (a < pos) × (n ≡ 0) × (checking ≡ false)
Stands (in_address m) none a n checking pos = ⊥
Stands (in_address m) (some t) a n checking pos = (a < t) × (t < pos) × (n ≡ m) × (checking ≡ true)

pub scan-accepts :
    (phase : Phase) (target : Option ℕ) (a n : ℕ) (checking : Bool) (pos : ℕ) (s : Text)
    → Stands phase target a n checking pos
    → scan target a n checking pos s ≡ accepts phase s
unfolding scan accepts
scan-accepts in_name none a n checking pos [] h = refl
scan-accepts in_name (some t) a n checking pos [] h = absurd h
scan-accepts in_client none a n checking pos [] h = absurd h
scan-accepts in_client (some t) a n checking pos [] h = ground arith
scan-accepts (in_address m) none a n checking pos [] h = absurd h
scan-accepts (in_address m) (some t) a n checking pos [] h = ground arith
scan-accepts in_name none a n checking pos (c ∷ s) h = ground (
  arith,
  scan-accepts (in_address 0) (some pos) a n true (pos + 1) s,
  scan-accepts in_name none a n checking (pos + 1) s,
)
scan-accepts in_name (some t) a n checking pos (c ∷ s) h = absurd h
scan-accepts in_client none a n checking pos (c ∷ s) h = absurd h
scan-accepts in_client (some t) a n checking pos (c ∷ s) h = ground (
  arith,
  scan-accepts (in_address 0) (some pos) a n true (pos + 1) s,
  scan-accepts in_client (some t) a n checking (pos + 1) s,
)
scan-accepts (in_address m) none a n checking pos (c ∷ s) h = absurd h
scan-accepts (in_address m) (some t) a n checking pos (c ∷ s) h = ground (
  arith,
  scan-accepts in_client (some t) pos 0 false (pos + 1) s,
  scan-accepts (in_address (m + 1)) (some t) a (n + 1) checking (pos + 1) s,
)
