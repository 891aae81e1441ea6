-- ===== src/Base/Strings.antt =====
-- What the program uses of Go's packages strings and strconv, on byte sequences.
use Prim.Native.Nat.{ℕ, zero, suc, ◌+◌, ◌-◌, ◌≤◌}
use mathlib.Core.Path.{◌≡◌, refl, sym, ap, ◌∙◌}
use mathlib.Core.Logic.{inl, inr}
use mathlib.Core.Bool.{Bool, false, ◌&&◌, ◌||◌}
use mathlib.Core.Option.{Option, none, some}
use mathlib.Core.List.{List, [], ◌∷◌, ◌++◌, reverse}
use native.Mathlib.Omega.{arith}
use model_lib.Base.Tests.{◌==◌, leb, if◌then◌else◌, Option-cases, if_cases}
use model_lib.Base.Text.{Bytes, length, take}

abbrev pub drop {ℓ} : {A : Type ℓ} → ℕ → List A → List A
drop zero xs = xs
drop (suc n) [] = []
drop (suc n) (x ∷ xs) = drop n xs

unfoldable pub any_of : (ℕ → Bool) → Bytes → Bool
any_of p [] = false
any_of p (c ∷ cs) = p c || any_of p cs

pub any_of-append :
    (p : ℕ → Bool) (xs ys : Bytes) → any_of p (xs ++ ys) ≡ any_of p xs || any_of p ys
unfolding any_of
any_of-append p [] ys = refl
any_of-append p (x ∷ xs) ys = ground (arith, any_of-append p xs ys)

pub length-append {ℓ} : {A : Type ℓ} (xs ys : List A) → length (xs ++ ys) ≡ length xs + length ys
length-append [] ys = omega arith
length-append (x ∷ xs) ys = omega (arith, length-append xs ys)

pub length-take {ℓ} : {A : Type ℓ} (n : ℕ) (xs : List A) → n ≤ length xs → length (take n xs) ≡ n
length-take zero xs h = refl
length-take (suc n) [] h = absurd (omega arith)
length-take (suc n) (x ∷ xs) h = omega (arith, length-take n xs (omega arith))

pub length-drop {ℓ} : {A : Type ℓ} (n : ℕ) (xs : List A) → length (drop n xs) ≡ length xs - n
length-drop zero xs = omega arith
length-drop (suc n) [] = omega arith
length-drop (suc n) (x ∷ xs) = omega (arith, length-drop n xs)

abbrev pub with_front : ℕ → Option (Bytes × Bytes) → Option (Bytes × Bytes)
with_front c none = none
with_front c (some (a, b)) = some (c ∷ a, b)

-- The text before the first `c`, and the text behind it: strings.SplitN(s, c, 2) where it has two
-- parts.
unfoldable pub cut : ℕ → Bytes → Option (Bytes × Bytes)
cut c [] = none
cut c (x ∷ xs) = if x == c then some ([], xs) else with_front x (cut c xs)

pub cut-append :
    (c : ℕ) (xs ys : Bytes) → any_of (λ x. x == c) xs ≡ false → cut c (xs ++ c ∷ ys) ≡ some (xs, ys)
unfolding cut any_of
cut-append c [] ys h = ground arith
cut-append c (x ∷ xs) ys h = ground (arith, cut-append c xs ys)

pub append-cut : (c : ℕ) (s a b : Bytes) → cut c s ≡ some (a, b) → s ≡ a ++ c ∷ b
unfolding cut
append-cut c [] a b = λ h. cc
append-cut c (x ∷ xs) a b =
    if_cases (λ (o : Option (Bytes × Bytes)). o ≡ some (a, b) → x ∷ xs ≡ a ++ c ∷ b) (x == c)
      (λ here h. let same : x ≡ c = ground arith in cc (h, same))
      (λ there h. elim (Option-cases (cut c xs)) [
        | inl missing ↦ cc (h, missing)
        | inr ((a', b'), found) ↦
            let whole : some (x ∷ a', b') ≡ some (a, b) = sym (ap (with_front x) found) ∙ h in
            cc (whole, append-cut c xs a' b' found)
      ])

-- The bytes of a leading white-space character of UTF-8, and of one at the end, read backwards.
abbrev is_space : ℕ → Bool
is_space c = (c == 32) || leb 9 c && leb c 13

abbrev space_of_two : ℕ → ℕ → Bool
space_of_two a b = (a == 0xc2) && ((b == 0x85) || (b == 0xa0))

abbrev space_of_three : ℕ → ℕ → ℕ → Bool
space_of_three a b c =
    (a == 0xe1) && (b == 0x9a) && (c == 0x80)
    || (a == 0xe2)
      && (b == 0x80)
      && (leb 0x80 c && leb c 0x8a || (c == 0xa8) || (c == 0xa9) || (c == 0xaf))
    || (a == 0xe2) && (b == 0x81) && (c == 0x9f)
    || (a == 0xe3) && (b == 0x80) && (c == 0x80)

abbrev space_in_front : Bytes → ℕ
space_in_front [] = 0
space_in_front (a ∷ []) = if is_space a then 1 else 0
space_in_front (a ∷ b ∷ []) = if is_space a then 1 else if space_of_two a b then 2 else 0
space_in_front (a ∷ b ∷ c ∷ _) =
    if is_space a then 1 else if space_of_two a b then 2 else if space_of_three a b c then 3 else 0

abbrev space_at_back : Bytes → ℕ
space_at_back [] = 0
space_at_back (a ∷ []) = if is_space a then 1 else 0
space_at_back (a ∷ b ∷ []) = if is_space a then 1 else if space_of_two b a then 2 else 0
space_at_back (a ∷ b ∷ c ∷ _) =
    if is_space a then 1 else if space_of_two b a then 2 else if space_of_three c b a then 3 else 0

-- As many rounds as there are bytes are enough, since a round that goes on takes one at least.
unfoldable pub trim_by : (Bytes → ℕ) → ℕ → Bytes → Bytes
trim_by width zero s = s
trim_by width (suc fuel) s =
    let rest = trim_by width fuel (drop (width s) s) in if width s == 0 then s else rest

-- strings.TrimSpace
unfoldable pub trim_space : Bytes → Bytes
unfolding trim_by
trim_space s =
    let front = trim_by space_in_front (length s) s in
    reverse (trim_by space_at_back (length front) (reverse front))

abbrev drop_slashes : Bytes → Bytes
drop_slashes [] = []
drop_slashes (c ∷ cs) = if c == b'/' then drop_slashes cs else c ∷ cs

-- strings.TrimRight(s, "/")
unfoldable pub trim_slashes : Bytes → Bytes
trim_slashes s = reverse (drop_slashes (reverse s))
