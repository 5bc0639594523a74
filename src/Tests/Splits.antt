-- ===== src/Tests/Splits.antt =====
-- Arguments with delimiters in them.
use rservr.Base.{◌≡◌, refl, [], ◌∷◌, none, some, arith}
use rservr.Arguments.{
  backslash, escape_check, escape_run, without_last, split_loop, argument_delim_split,
  next_argument, remaining_line,
}
use rservr.Arguments.Splitting.{delimited, argument_delim_split-delimited}
use rservr.Tests.{ada, bob}

-- :a\:b:c
argument_delim_split_test :
    argument_delim_split (b':' ∷ b'a' ∷ backslash ∷ b':' ∷ b'b' ∷ b':' ∷ b'c' ∷ [])
    ≡ some ((b'a' ∷ b':' ∷ b'b' ∷ []) ∷ (b'c' ∷ []) ∷ [])
unfolding argument_delim_split split_loop escape_check escape_run without_last
argument_delim_split_test = refl

remaining_line_test : remaining_line (ada ∷ bob ∷ []) ≡ (some bob, bob ∷ [])
unfolding remaining_line next_argument
remaining_line_test = refl

argument_delim_split-delimited_example :
    (argument_delim_split (delimited b':' ((b'a' ∷ b':' ∷ []) ∷ ada ∷ []))
      ≡ some ((b'a' ∷ b':' ∷ []) ∷ ada ∷ []))
    × (argument_delim_split [] ≡ none)
argument_delim_split-delimited_example =
    argument_delim_split-delimited b':' (b'a' ∷ b':' ∷ []) (ada ∷ []) (omega arith) (omega arith)
      (omega arith)
