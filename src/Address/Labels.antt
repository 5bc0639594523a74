-- ===== src/Address/Labels.antt =====
-- libs/protocol/api-label-check.cpp: which texts are accepted as entity names and as addresses.
-- The two regular expressions are the C library's: `matches` stands for a call of `regexec` on the
-- compiled expression, false also where it could not be compiled.
pub mod Scan
pub mod Shape
pub mod Leading
use rservr.Base.{
  ℕ, zero, suc, ◌+◌, List, [], ◌∷◌, Bool, true, false, Option, none, some, ◌&&◌, ◌==◌, ltb,
  if◌then◌else◌, Text, length, is_empty,
}
use rservr.Address.{client_scope_char, address_scope_char}

-- param.h
abbrev pub entity_limit : ℕ
entity_limit = 128

abbrev pub address_limit : ℕ
address_limit = 256

abbrev pub scope_limit : ℕ
scope_limit = 2048

unfoldable pub check_entity_label : (Text → Bool) → Option Text → Bool
check_entity_label matches none = true
check_entity_label matches (some label) =
    if ltb entity_limit (length label) then false else matches label

-- `target` starts at -1, which is `none`; `target > address` and `address > target`.
abbrev target_above : Option ℕ → ℕ → Bool
target_above none address = false
target_above (some t) address = ltb address t

abbrev address_above : ℕ → Option ℕ → Bool
address_above address none = true
address_above address (some t) = ltb t address

-- `target < 0 || target > address`
abbrev target_last : Option ℕ → ℕ → Bool
target_last none address = true
target_last (some t) address = ltb address t

-- The loop: the last position of each separator, the length of the address so far, whether an
-- address is being read, the position of `current`, and the text from there.
unfoldable pub scan : Option ℕ → ℕ → ℕ → Bool → ℕ → Text → Bool
scan target address count checking pos [] = target_last target address
scan target address count checking pos (c ∷ s) = elim (c == client_scope_char) [
  | true ↦ elim (target_above target address) [
    | true ↦ false
    | false ↦ scan (some pos) address count true (pos + 1) s
  ]
  | false ↦ elim (c == address_scope_char) [
    | true ↦ elim (address_above address target) [
      | true ↦ false
      | false ↦ scan target pos 0 false (pos + 1) s
    ]
    | false ↦ elim (checking && ltb address_limit (count + 1)) [
      | true ↦ false
      | false ↦ scan target address (if checking then count + 1 else count) checking (pos + 1) s
    ]
  ]
]

unfoldable pub check_address_label : (Text → Bool) → Option Text → Bool
unfolding scan
check_address_label matches none = true
check_address_label matches (some label) =
    if ltb scope_limit (length label)
    then false
    else if matches label
    then scan none 0 0 false 0 label
    else false

-- The first separator decides; `none` is the null pointer.
first_is_address : Text → Bool
first_is_address [] = true
first_is_address (c ∷ s) =
    if c == client_scope_char
    then false
    else if c == address_scope_char
    then true
    else first_is_address s

unfoldable pub check_next_to_address : Option Text → Bool
unfolding first_is_address
check_next_to_address none = false
check_next_to_address (some label) = first_is_address label

first_is_client : Text → Bool
first_is_client [] = false
first_is_client (c ∷ s) =
    if c == client_scope_char
    then true
    else if c == address_scope_char
    then false
    else first_is_client s

unfoldable pub check_next_to_client : Option Text → Bool
unfolding first_is_client
check_next_to_client none = false
check_next_to_client (some label) = if is_empty label then true else first_is_client label
