-- ===== src/Arguments.antt =====
-- libs/protocol/api-config-parser.cpp: the arguments of a line of a configuration file, once the line
-- is read, and the list of texts that one argument stands for.
pub mod Splitting
use mathlib.Core.List.{reverse}
use rservr.Base.{
  ℕ, ◌-◌, List, [], ◌∷◌, ◌++◌, Bool, true, false, not, Option, none, some, Text, is_empty, ◌==◌,
  ltb, if◌then◌else◌, length,
}

abbrev pub backslash : ℕ
backslash = b'\\'

-- `buffered_data`. The result, the argument that is given out, and what is left.
unfoldable pub current_argument : List Text → Option Text
current_argument [] = none
current_argument (a ∷ rest) = some a

unfoldable pub next_argument : List Text → Option Text × List Text
unfolding current_argument
next_argument [] = (none, [])
next_argument (a ∷ rest) = (current_argument rest, rest)

-- Only where no more than one argument follows the current one.
unfoldable pub remaining_line : List Text → Option Text × List Text
unfolding next_argument
remaining_line buffered =
    if ltb 2 (length buffered) then (none, buffered) else next_argument buffered

unfoldable pub number_remaining : List Text → ℕ
number_remaining buffered = length buffered - 1

-- All that follow the current one.
unfoldable pub steal_config_arguments : List Text → List Text × List Text
steal_config_arguments [] = ([], [])
steal_config_arguments (a ∷ rest) = (rest, [])

unfoldable pub concat_onto : Text → List Text → Text
concat_onto text [] = text
concat_onto text (a ∷ rest) =
    concat_onto ((if is_empty text then text else text ++ (b' ' ∷ [])) ++ a) rest

unfoldable pub convert_config_concat : List Text → Text
unfolding concat_onto
convert_config_concat arguments = concat_onto [] arguments

-- The loop of `escape_check`, which goes back over the backslashes.
unfoldable pub escape_run : Text → Bool
escape_run [] = false
escape_run (c ∷ s) = if c == backslash then not (escape_run s) else false

-- Whether what follows a text is escaped.
unfoldable pub escape_check : Text → Bool
unfolding escape_run
escape_check text = escape_run (reverse text)

unfoldable pub without_last : Text → Text
without_last [] = []
without_last (c ∷ []) = []
without_last (c ∷ d ∷ s) = c ∷ without_last (d ∷ s)

-- The loop of `argument_delim_split`: what the piece has up to `current`, what has been searched
-- from there, and what is left. Where a delimiter is escaped, the backslash goes and the search
-- starts anew behind the delimiter.
unfoldable pub split_loop : ℕ → Text → Text → Text → List Text
unfolding escape_check without_last
split_loop delimiter piece searched [] = (piece ++ searched) ∷ []
split_loop delimiter piece searched (c ∷ s) = elim (c == delimiter) [
  | false ↦ split_loop delimiter piece (searched ++ (c ∷ [])) s
  | true ↦ elim (escape_check searched) [
    | true ↦ split_loop delimiter (piece ++ (without_last searched ++ (c ∷ []))) [] s
    | false ↦ (piece ++ searched) ∷ split_loop delimiter [] [] s
  ]
]

-- The first byte is the delimiter.
unfoldable pub argument_delim_split : Text → Option (List Text)
unfolding split_loop
argument_delim_split [] = none
argument_delim_split (delimiter ∷ s) = some (split_loop delimiter [] [] s)
