-- ===== src/Arguments/Splitting.antt =====
-- Texts that are joined with a delimiter, and split again.
use mathlib.Core.List.{reverse_aux, reverse-append, append-nil, append_assoc}
use rservr.Base.{
  ℕ, ◌≡◌, ◌≢◌, ◌∙◌, sym, refl, ap, inl, inr, List, [], ◌∷◌, ◌++◌, true, false, not, none, some,
  Text, ◌==◌, ==_iff, ==_refl, if◌then◌else◌, All, Bool-cases, arith,
}
use rservr.Address.Hops.{Free}
use rservr.Arguments.{
  backslash, escape_run, escape_check, without_last, split_loop, argument_delim_split,
}

-- A text with a backslash before each delimiter.
unfoldable pub escaped : ℕ → Text → Text
escaped delimiter [] = []
escaped delimiter (c ∷ s) =
    let rest = c ∷ escaped delimiter s in if c == delimiter then backslash ∷ rest else rest

-- The texts, escaped, each behind a delimiter.
unfoldable pub delimited : ℕ → List Text → Text
unfolding escaped
delimited delimiter [] = []
delimited delimiter (a ∷ rest) = delimiter ∷ (escaped delimiter a ++ delimited delimiter rest)

Free-append : (w : Text) (c : ℕ) → Free backslash w → c ≢ backslash → Free backslash (w ++ (c ∷ []))
Free-append [] c h n = (n, tt)
Free-append (d ∷ w) c h n = (h.0, Free-append w c h.1 n)

run_on : (c : ℕ) (s : Text) → c ≢ backslash → escape_run (c ∷ s) ≡ false
unfolding escape_run
run_on c s n = ground (arith, n)

run_over :
    (w tail : Text)
    → Free backslash w
    → escape_run tail ≡ false
    → escape_run (reverse_aux w tail) ≡ false
run_over [] tail h e = e
run_over (c ∷ w) tail h e = run_over w (c ∷ tail) h.1 (run_on c tail h.0)

-- What follows a text without backslashes is not escaped.
escape_check-Free : (w : Text) → Free backslash w → escape_check w ≡ false
unfolding escape_check escape_run
escape_check-Free w h = run_over w [] h refl

-- What follows one more backslash is.
escape_check-backslash : (w : Text) → Free backslash w → escape_check (w ++ (backslash ∷ [])) ≡ true
unfolding escape_check escape_run
escape_check-backslash w h =
    ap escape_run (reverse-append w (backslash ∷ [])) ∙ ap not (run_over w [] h refl)

without_last-append : (w : Text) (c : ℕ) → without_last (w ++ (c ∷ [])) ≡ w
unfolding without_last
without_last-append [] c = refl
without_last-append (d ∷ []) c = refl
without_last-append (d ∷ e ∷ w) c = ap (λ l. d ∷ l) (without_last-append (e ∷ w) c)

module _ (delimiter : ℕ) where
  goes_on :
      (piece searched : Text) (c : ℕ) (s : Text)
      → (c == delimiter) ≡ false
      → split_loop delimiter piece searched (c ∷ s)
        ≡ split_loop delimiter piece (searched ++ (c ∷ [])) s
  unfolding split_loop
  goes_on piece searched c s other = rw (other, split_loop) refl

  passes_escaped :
      (piece searched s : Text)
      → escape_check searched ≡ true
      → split_loop delimiter piece searched (delimiter ∷ s)
        ≡ split_loop delimiter (piece ++ (without_last searched ++ (delimiter ∷ []))) [] s
  unfolding split_loop
  passes_escaped piece searched s e = rw (==_refl delimiter, split_loop) (rw (e, split_loop) refl)

  ends_piece :
      (piece searched s : Text)
      → escape_check searched ≡ false
      → split_loop delimiter piece searched (delimiter ∷ s)
        ≡ (piece ++ searched) ∷ split_loop delimiter [] [] s
  unfolding split_loop
  ends_piece piece searched s e = rw (==_refl delimiter, split_loop) (rw (e, split_loop) refl)

  regroup : (p s a : Text) (c : ℕ) → (p ++ (s ++ (c ∷ []))) ++ a ≡ (p ++ s) ++ (c ∷ a)
  regroup p s a c =
      ap (λ l. l ++ a) (sym (append_assoc p s (c ∷ []))) ∙ append_assoc (p ++ s) (c ∷ []) a

  -- Two bytes are read where a delimiter is escaped.
  reads_delimiter :
      (piece searched s : Text)
      → delimiter ≢ backslash
      → Free backslash searched
      → split_loop delimiter piece searched (backslash ∷ delimiter ∷ s)
        ≡ split_loop delimiter (piece ++ (searched ++ (delimiter ∷ []))) [] s
  reads_delimiter piece searched s apart free =
      goes_on piece searched backslash (delimiter ∷ s) (ground (arith, apart))
      ∙ (passes_escaped piece (searched ++ (backslash ∷ [])) s
            (escape_check-backslash searched free)
          ∙ ap (λ t. split_loop delimiter (piece ++ (t ++ (delimiter ∷ []))) [] s)
              (without_last-append searched backslash))

  -- An escaped text is read back into the piece.
  abbrev IsRead : Text → Text → Text → Text → Type 0
  IsRead piece searched a rest =
      (p w : Text) × (split_loop delimiter piece searched (escaped delimiter a ++ rest)
        ≡ split_loop delimiter p w rest)
      × (p ++ w ≡ (piece ++ searched) ++ a)
      × Free backslash w

  reads_escaped :
      (a rest piece searched : Text)
      → delimiter ≢ backslash
      → Free backslash a
      → Free backslash searched
      → IsRead piece searched a rest
  unfolding escaped
  reads_escaped [] rest piece searched apart free so_far =
      (piece, searched, refl, sym (append-nil (piece ++ searched)), so_far)
  reads_escaped (c ∷ a) rest piece searched apart free so_far = elim (Bool-cases (c == delimiter)) [
    | inl e ↦
        let here : delimiter ≡ c = sym ((==_iff c delimiter).0 e) in
        let longer = piece ++ (searched ++ (delimiter ∷ [])) in
        let (p, w, same, whole, rest_free) = reads_escaped a rest longer [] apart free.1 tt in
        (
          p,
          w,
          rw e (
              ap
                (λ d.
                  split_loop delimiter piece searched
                    (backslash ∷ d ∷ (escaped delimiter a ++ rest)))
                (sym here)
              ∙ (reads_delimiter piece searched (escaped delimiter a ++ rest) apart so_far ∙ same)),
          whole
              ∙ (ap (λ l. l ++ a) (append-nil longer)
                  ∙ (regroup piece searched a delimiter
                      ∙ ap (λ d. (piece ++ searched) ++ (d ∷ a)) here)),
          rest_free,
        )
    | inr n ↦
        let (p, w, same, whole, rest_free) =
          reads_escaped a rest piece (searched ++ (c ∷ [])) apart free.1
            (Free-append searched c so_far free.0) in
        (
          p,
          w,
          rw n (goes_on piece searched c (escaped delimiter a ++ rest) n ∙ same),
          whole ∙ regroup piece searched a c,
          rest_free,
        )
  ]

  splits :
      (a : Text) (rest : List Text)
      → delimiter ≢ backslash
      → Free backslash a
      → All (Free backslash) rest
      → split_loop delimiter [] [] (escaped delimiter a ++ delimited delimiter rest) ≡ a ∷ rest
  unfolding delimited split_loop
  splits a [] apart free others =
      let (p, w, same, whole, rest_free) = reads_escaped a [] [] [] apart free tt in
      same ∙ ap (λ l. l ∷ []) whole
  splits a (b ∷ rest) apart free others =
      let tail = escaped delimiter b ++ delimited delimiter rest in
      let (p, w, same, whole, rest_free) = reads_escaped a (delimiter ∷ tail) [] [] apart free tt in
      same
      ∙ (ends_piece p w tail (escape_check-Free w rest_free)
          ∙ (ap (λ l. l ∷ split_loop delimiter [] [] tail) whole
              ∙ ap (λ l. a ∷ l) (splits b rest apart others.0 others.1)))

-- A list of one or more texts without backslashes, each put behind a delimiter other than a backslash,
-- with a backslash before each delimiter inside it, is split into the same texts. Nothing can be
-- split of an empty argument.
pub argument_delim_split-delimited :
    (delimiter : ℕ) (a : Text) (rest : List Text)
    → delimiter ≢ backslash
    → Free backslash a
    → All (Free backslash) rest
    → (argument_delim_split (delimited delimiter (a ∷ rest)) ≡ some (a ∷ rest))
      × (argument_delim_split [] ≡ none)
unfolding argument_delim_split delimited
argument_delim_split-delimited delimiter a rest apart free others =
    (ap some (splits delimiter a rest apart free others), refl)
