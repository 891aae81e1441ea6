-- ===== src/Identity/Numbers.antt =====
-- The decimal numbers of cookies and tokens: what SetIdentity and CSRFToken write, parseInt64 reads.
use model_lib.Base.{
  ℕ, zero, suc, ◌+◌, ◌-◌, ◌*◌, ◌/◌, ◌%◌, ◌^◌, ◌<◌, ◌≡◌, refl, ap, ◌∙◌, arith, false, ◌==◌, ltb,
  Option, none, some, List, [], ◌∷◌, ◌++◌, Bytes, any_of, if_cases, All,
}
use model_lib.Base.Int.{pos}
use model_lib.Encoding.Base64.{IsByte}
use model_lib.Encoding.Decimal.{digits, decimal}
use model_lib.Identity.{parse_from, parse_int64}

abbrev then_parse : Option ℕ → Bytes → Option ℕ
then_parse none cs = none
then_parse (some n) cs = parse_from n cs

parse_from-append :
    (n : ℕ) (xs ys : Bytes) → parse_from n (xs ++ ys) ≡ then_parse (parse_from n xs) ys
unfolding parse_from
parse_from-append n [] ys = refl
parse_from-append n (c ∷ cs) ys =
    ground (arith, parse_from-append ((n * 10 + (c - 48)) % 2 ^ 64) cs ys)

last_digit :
    (m d : ℕ) → d < 10 → m * 10 + d < 2 ^ 64 → parse_from m ((48 + d) ∷ []) ≡ some (m * 10 + d)
unfolding parse_from
last_digit m d h fits = ground arith

one_digit : (n : ℕ) → n < 10 → parse_from 0 ((48 + n) ∷ []) ≡ some n
one_digit n h = last_digit 0 n h (omega arith) ∙ ap some (omega arith)

parse-digits :
    (fuel n : ℕ) → n < 10 ^ fuel → n < 2 ^ 64 → parse_from 0 (digits (suc fuel) n) ≡ some n
unfolding digits
parse-digits zero n h fits =
    if_cases (λ (s : Bytes). parse_from 0 s ≡ some n) (ltb n 10)
      (λ small. one_digit n (omega arith)) (λ big. absurd (ground arith))
parse-digits (suc fuel) n h fits =
    if_cases (λ (s : Bytes). parse_from 0 s ≡ some n) (ltb n 10)
      (λ small. one_digit n (ground arith))
      (λ big.
        parse_from-append 0 (digits (suc fuel) (n / 10)) ((48 + n % 10) ∷ [])
        ∙ ap (λ (o : Option ℕ). then_parse o ((48 + n % 10) ∷ []))
            (parse-digits fuel (n / 10) (omega arith) (omega arith))
        ∙ last_digit (n / 10) (n % 10) (omega arith) (omega arith)
        ∙ ap some (omega arith))

-- parseInt64 reads back what %d writes of a number below 2^63.
pub parse_int64-decimal : (n : ℕ) → n < 2 ^ 63 → parse_int64 (decimal (pos n)) ≡ some n
unfolding parse_int64 decimal
parse_int64-decimal n h = parse-digits 19 n (omega arith) (omega arith)

pub append-All {ℓ κ} :
    {A : Type ℓ} (P : A → Type κ) (xs ys : List A) → All P xs → All P ys → All P (xs ++ ys)
append-All P [] ys h k = k
append-All P (x ∷ xs) ys (h, hs) k = (h, append-All P xs ys hs k)

-- Text of bytes without a colon.
abbrev pub IsField : Bytes → Type 0
IsField s = (any_of (λ c. c == b':') s ≡ false) × (All IsByte s)

pub append-IsField : (xs ys : Bytes) → IsField xs → IsField ys → IsField (xs ++ ys)
unfolding any_of
append-IsField [] ys h k = k
append-IsField (x ∷ xs) ys (h, (b, bs)) k =
    let rest = append-IsField xs ys (ground arith, bs) k in (ground (arith, rest.0), (b, rest.1))

digit-IsField : (n : ℕ) → n < 10 → IsField ((48 + n) ∷ [])
unfolding any_of
digit-IsField n h = (ground arith, (omega arith, tt))

digits-IsField : (fuel n : ℕ) → IsField (digits fuel n)
unfolding digits any_of
digits-IsField zero n = (refl, tt)
digits-IsField (suc fuel) n =
    if_cases IsField (ltb n 10) (λ small. digit-IsField n (ground arith))
      (λ big.
        append-IsField (digits fuel (n / 10)) ((48 + n % 10) ∷ []) (digits-IsField fuel (n / 10))
          (digit-IsField (n % 10) (omega arith)))

pub decimal-IsField : (n : ℕ) → IsField (decimal (pos n))
unfolding decimal
decimal-IsField n = digits-IsField 20 n
