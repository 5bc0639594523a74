-- ===== src/Queue/Arrays.antt =====
-- Positions of an array that is a list.
use rservr.Base.{
  ℕ, zero, suc, ◌+◌, ◌<◌, ◌≡◌, ◌≢◌, ◌∙◌, sym, refl, ap, List, [], ◌∷◌, ◌++◌, Bool, some,
  if◌then◌else◌, length, count, arith, or_else,
}
use rservr.Queue.{get_element, set_element, switch_elements}

module _ {A : Type 0} where
  pub some_inj : (a b : A) → some a ≡ some b → a ≡ b
  some_inj a b e = ap (λ o. or_else o a) e

  pub get-set_same :
      (l : List A) (i : ℕ) (a b : A)
      → get_element l i ≡ some b
      → get_element (set_element l i a) i ≡ some a
  unfolding get_element set_element
  get-set_same [] i a b h = cc
  get-set_same (x ∷ l) zero a b h = refl
  get-set_same (x ∷ l) (suc i) a b h = get-set_same l i a b h

  pub get-set_other :
      (l : List A) (i j : ℕ) (a : A) → i ≢ j → get_element (set_element l j a) i ≡ get_element l i
  unfolding get_element set_element
  get-set_other [] i j a h = refl
  get-set_other (x ∷ l) zero zero a h = absurd (h refl)
  get-set_other (x ∷ l) zero (suc j) a h = refl
  get-set_other (x ∷ l) (suc i) zero a h = refl
  get-set_other (x ∷ l) (suc i) (suc j) a h = get-set_other l i j a (λ e. h (omega (arith, e)))

  -- Writing one element over another exchanges them in every count.
  pub count-set :
      (p : A → Bool) (l : List A) (i : ℕ) (a b : A)
      → get_element l i ≡ some b
      → count p (set_element l i a) + (if p b then 1 else 0) ≡ count p l + (if p a then 1 else 0)
  unfolding get_element set_element count
  count-set p [] i a b h = cc
  count-set p (x ∷ l) zero a b h = rw (some_inj x b h) (omega arith)
  count-set p (x ∷ l) (suc i) a b h = omega (arith, count-set p l i a b h)

  pub get_in : (l : List A) (i : ℕ) → i < length l → (a : A) × (get_element l i ≡ some a)
  unfolding get_element
  get_in [] i h = absurd (omega arith)
  get_in (x ∷ l) zero h = (x, refl)
  get_in (x ∷ l) (suc i) h = get_in l i (omega (arith, h))

  pub in_of_get : (l : List A) (i : ℕ) (a : A) → get_element l i ≡ some a → i < length l
  unfolding get_element
  in_of_get [] i a h = cc
  in_of_get (x ∷ l) zero a h = omega arith
  in_of_get (x ∷ l) (suc i) a h = omega (arith, in_of_get l i a h)

  pub length-set : (l : List A) (i : ℕ) (a : A) → length (set_element l i a) ≡ length l
  unfolding set_element
  length-set [] i a = refl
  length-set (x ∷ l) zero a = refl
  length-set (x ∷ l) (suc i) a = omega (arith, length-set l i a)

  pub get-append_left :
      (l m : List A) (i : ℕ) → i < length l → get_element (l ++ m) i ≡ get_element l i
  unfolding get_element
  get-append_left [] m i h = absurd (omega arith)
  get-append_left (x ∷ l) m zero h = refl
  get-append_left (x ∷ l) m (suc i) h = get-append_left l m i (omega (arith, h))

  -- What the positions hold after an exchange.
  switched :
      (l : List A) (i j : ℕ) (a b : A)
      → get_element l i ≡ some a
      → get_element l j ≡ some b
      → switch_elements l i j ≡ set_element (set_element l j a) i b
  unfolding switch_elements
  switched l i j a b h k = rw (h, k)

  pub get-switch :
      (l : List A) (i j : ℕ) (a b : A)
      → i ≢ j
      → get_element l i ≡ some a
      → get_element l j ≡ some b
      → let after = switch_elements l i j in
        (get_element after i ≡ some b)
        × (get_element after j ≡ some a)
        × ((k : ℕ) → k ≢ i → k ≢ j → get_element after k ≡ get_element l k)
        × (length after ≡ length l)
  get-switch l i j a b ne h k =
      let first = set_element l j a in
      let at_i = get-set_other l i j a ne ∙ h in
      rw (switched l i j a b h k) (
        get-set_same first i b a at_i,
        get-set_other first j i b (λ e. ne (sym e)) ∙ get-set_same l j a b k,
        (λ m p q. get-set_other first m i b p ∙ get-set_other l m j a q),
        length-set first i b ∙ length-set l j a,
      )

  -- An exchange keeps the contents.
  pub count-switch :
      (p : A → Bool) (l : List A) (i j : ℕ) (a b : A)
      → i ≢ j
      → get_element l i ≡ some a
      → get_element l j ≡ some b
      → count p (switch_elements l i j) ≡ count p l
  count-switch p l i j a b ne h k = rw (switched l i j a b h k) (
      omega (
        arith,
        count-set p (set_element l j a) i b a (get-set_other l i j a ne ∙ h),
        count-set p l j a b k,
      ))
