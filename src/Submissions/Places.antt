-- ===== src/Submissions/Places.antt =====
-- internal/storage/storage.go, safePath, for the keys of submissions: ids that differ have places that
-- differ.
use model_lib.Base.{
  ℕ, arith, length, length-append, codes, str_eq, is_empty, any_of, ◌||◌, if_cases, false, ◌≡◌, ◌≢◌,
  refl, sym, ap, ◌∙◌, Option, some, [], ◌∷◌, ◌++◌, Bytes,
}
use model_lib.Storage.{safe_path, has_dots, is_separator}
use model_lib.Submissions.{storage_key}

some_same : (a b : Bytes) → Option.some a ≡ some b → a ≡ b
some_same a b h = cc h

append_left_same : (xs ys zs : Bytes) → xs ++ ys ≡ xs ++ zs → ys ≡ zs
append_left_same [] ys zs h = h
append_left_same (x ∷ xs) ys zs h =
    let tails : xs ++ ys ≡ xs ++ zs = cc h in append_left_same xs ys zs tails

longer : (x : ℕ) (xs s : Bytes) → x ∷ (xs ++ s) ≢ s
longer x xs s h = omega (arith, length-append xs s, ap {A = Bytes} {B = ℕ} length h)

append_right_same : (xs ys s : Bytes) → xs ++ s ≡ ys ++ s → xs ≡ ys
append_right_same [] [] s h = refl
append_right_same [] (y ∷ ys) s h = absurd (longer y ys s (sym h))
append_right_same (x ∷ xs) [] s h = absurd (longer x xs s h)
append_right_same (x ∷ xs) (y ∷ ys) s h =
    let heads : x ≡ y = cc h in
    let tails : xs ++ s ≡ ys ++ s = cc h in
    let rest = append_right_same xs ys s tails in cc (heads, rest)

key-name : (id : Bytes) → str_eq (storage_key id) (codes ".") ≡ false
unfolding str_eq
key-name [] = refl
key-name (x ∷ []) = ground arith
key-name (x ∷ y ∷ id) = ground arith

place-join :
    (root id path : Bytes)
    → safe_path root (storage_key id) ≡ some path
    → root ++ codes "/" ++ storage_key id ≡ path
unfolding safe_path
place-join root id path h =
    if_cases (λ (o : Option Bytes). o ≡ some path → root ++ codes "/" ++ storage_key id ≡ path)
      (is_empty (storage_key id)
        || has_dots (storage_key id)
        || any_of is_separator (storage_key id))
      (λ _ e. cc e)
      (λ _ e.
        if_cases (λ (v : Bytes). v ≡ path → root ++ codes "/" ++ storage_key id ≡ path)
          (str_eq (storage_key id) (codes ".")) (λ yes_dot. cc (yes_dot, key-name id)) (λ _ v. v)
          (some_same _ path e))
      h

-- The places of two submissions differ if their ids do.
pub place-same :
    (root a b path : Bytes)
    → safe_path root (storage_key a) ≡ some path
    → safe_path root (storage_key b) ≡ some path
    → a ≡ b
unfolding safe_path
place-same root a b path ha hb = append_right_same a b (codes ".c") (
    append_left_same (root ++ codes "/") (storage_key a) (storage_key b)
      (place-join root a path ha ∙ sym (place-join root b path hb)))
