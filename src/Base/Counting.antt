-- ===== src/Base/Counting.antt =====
-- SELECT COUNT(*) … WHERE and UPDATE … WHERE over a table, and how the one changes the other.
use Prim.Native.Nat.{ℕ, ◌+◌, ◌≤◌}
use mathlib.Core.Path.{◌≡◌, refl}
use mathlib.Core.Bool.{Bool, true, false}
use mathlib.Core.Option.{Option, none, some}
use mathlib.Core.List.{List, [], ◌∷◌, ◌++◌}
use native.Mathlib.Omega.{arith}
use mathlib.Core.Logic.{inl, inr}
use model_lib.Base.Tests.{if◌then◌else◌, Bool-cases}

module _ {ℓ} {A : Type ℓ} where
  -- The rows that a WHERE clause selects, counted.
  unfoldable pub count_where : (A → Bool) → List A → ℕ
  count_where p [] = 0
  count_where p (x ∷ xs) = (if p x then 1 else 0) + count_where p xs

  -- UPDATE … SET f WHERE p: every selected row is replaced.
  unfoldable pub update_where : (A → Bool) → (A → A) → List A → List A
  update_where p f [] = []
  update_where p f (x ∷ xs) = (if p x then f x else x) ∷ update_where p f xs

  -- The first selected row, if there is one.
  unfoldable pub find_where : (A → Bool) → List A → Option A
  find_where p [] = none
  find_where p (x ∷ xs) = if p x then some x else find_where p xs

  pub count_where-append :
      (p : A → Bool) (xs ys : List A)
      → count_where p (xs ++ ys) ≡ count_where p xs + count_where p ys
  unfolding count_where
  count_where-append p [] ys = omega arith
  count_where-append p (x ∷ xs) ys = omega (arith, count_where-append p xs ys)

  -- An update that puts selected rows at most into `q` adds at most as many as it changes.
  pub count-update-le :
      (q p : A → Bool) (f : A → A) (xs : List A)
      → count_where q (update_where p f xs) ≤ count_where q xs + count_where p xs
  unfolding count_where update_where
  count-update-le q p f [] = omega arith
  count-update-le q p f (x ∷ xs) = ground (arith, count-update-le q p f xs)

  pub count_where-le :
      (p q : A → Bool) (xs : List A)
      → ((x : A) → p x ≡ true → q x ≡ true)
      → count_where p xs ≤ count_where q xs
  unfolding count_where
  count_where-le p q [] h = omega arith
  count_where-le p q (x ∷ xs) h = ground (arith, h x, count_where-le p q xs h)

  -- Every row of the list has the property.
  abbrev pub All {κ} : (A → Type κ) → List A → Type κ
  All P [] = Unit
  All P (x ∷ xs) = P x × All P xs

  pub All-intro {κ} : (P : A → Type κ) (xs : List A) → ((x : A) → P x) → All P xs
  All-intro P [] h = tt
  All-intro P (x ∷ xs) h = (h x, All-intro P xs h)

  -- An update that takes no new row into `q` does not raise its count.
  pub count-update_mono :
      (q p : A → Bool) (f : A → A) (xs : List A)
      → All (λ x. p x ≡ true → q (f x) ≡ true → q x ≡ true) xs
      → count_where q (update_where p f xs) ≤ count_where q xs
  unfolding count_where update_where
  count-update_mono q p f [] h = omega arith
  count-update_mono q p f (x ∷ xs) (h, hs) = ground (arith, h, count-update_mono q p f xs hs)

  pub none_of_count :
      (p : A → Bool) (xs : List A) → count_where p xs ≡ 0 → All (λ x. p x ≡ false) xs
  unfolding count_where
  none_of_count p [] h = tt
  none_of_count p (x ∷ xs) h = ground (arith, none_of_count p xs)

  pub All-mono {κ ι} :
      (P : A → Type κ) (Q : A → Type ι) (xs : List A) → ((x : A) → P x → Q x) → All P xs → All Q xs
  All-mono P Q [] f h = tt
  All-mono P Q (x ∷ xs) f (h, hs) = (f x h, All-mono P Q xs f hs)

  -- A key that one row at most has: the row found is the only one.
  pub only_found :
      (p : A → Bool) (xs : List A) (r : A)
      → count_where p xs ≤ 1
      → find_where p xs ≡ some r
      → All (λ x. p x ≡ true → x ≡ r) xs
  unfolding count_where find_where
  only_found p [] r h e = tt
  only_found p (x ∷ xs) r h e = elim (Bool-cases (p x)) [
    | inl here ↦ (
      λ _. ground arith,
      All-mono (λ y. p y ≡ false) _ xs (λ y a b. cc) (none_of_count p xs (ground arith)),
    )
    | inr there ↦ (λ a. cc, only_found p xs r (ground arith) (ground arith))
  ]

  pub find_where-true : (p : A → Bool) (xs : List A) (r : A) → find_where p xs ≡ some r → p r ≡ true
  unfolding find_where
  find_where-true p [] r e = cc
  find_where-true p (x ∷ xs) r e = elim (Bool-cases (p x)) [
    | inl here ↦ ground arith
    | inr there ↦ find_where-true p xs r (ground arith)
  ]

  -- An update that neither takes rows into `q` nor out of it.
  pub count-update_eq :
      (q p : A → Bool) (f : A → A) (xs : List A)
      → All (λ x. p x ≡ true → q (f x) ≡ q x) xs
      → count_where q (update_where p f xs) ≡ count_where q xs
  unfolding count_where update_where
  count-update_eq q p f [] h = refl
  count-update_eq q p f (x ∷ xs) (h, hs) = ground (arith, h, count-update_eq q p f xs hs)

  -- An update that takes every selected row out of the selection.
  pub count-update_none :
      (p : A → Bool) (f : A → A) (xs : List A)
      → ((x : A) → p (f x) ≡ false)
      → count_where p (update_where p f xs) ≡ 0
  unfolding count_where update_where
  count-update_none p f [] h = refl
  count-update_none p f (x ∷ xs) h = ground (arith, h x, count-update_none p f xs h)

  pub count_of_none :
      (p : A → Bool) (xs : List A) → All (λ x. p x ≡ false) xs → count_where p xs ≡ 0
  unfolding count_where
  count_of_none p [] h = refl
  count_of_none p (x ∷ xs) (h, hs) = ground (arith, h, count_of_none p xs hs)

  pub none_of_find :
      (p : A → Bool) (xs : List A) → find_where p xs ≡ none → All (λ x. p x ≡ false) xs
  unfolding find_where
  none_of_find p [] h = tt
  none_of_find p (x ∷ xs) h = ground (arith, none_of_find p xs)
