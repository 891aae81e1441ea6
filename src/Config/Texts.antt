-- ===== src/Config/Texts.antt =====
-- internal/config/config.go: the texts of the environment, as numbers, lists and an origin.
use model_lib.Base.{
  ℕ, zero, suc, ◌+◌, ◌-◌, ◌*◌, ◌^◌, Bool, ◌&&◌, ◌==◌, if◌then◌else◌, ltb, leb, Option, none, some,
  List, [], ◌∷◌, Bytes, codes, length, drop, take, str_eq, is_empty,
}
use model_lib.Base.Int.{ℤ, pos, negsuc}

abbrev digit_of : ℕ → Option ℕ
digit_of c = if leb 48 c && leb c 57 then some (c - 48) else none

abbrev with_digit : ℕ → Option ℕ → Option ℕ
with_digit acc none = none
with_digit acc (some d) = some (acc * 10 + d)

unfoldable pub decimal : Option ℕ → Bytes → Option ℕ
decimal none cs = none
decimal (some acc) [] = some acc
decimal (some acc) (c ∷ cs) = decimal (with_digit acc (digit_of c)) cs

abbrev unsigned : Bytes → Option ℕ
unsigned [] = none
unsigned (c ∷ cs) = decimal (some 0) (c ∷ cs)

abbrev negated : ℕ → ℤ
negated zero = pos 0
negated (suc n) = negsuc n

-- A number out of the range of an int64 is an error.
abbrev as_positive : Option ℕ → Option ℤ
as_positive none = none
as_positive (some n) = if ltb n (2 ^ 63) then some (pos n) else none

abbrev as_negative : Option ℕ → Option ℤ
as_negative none = none
as_negative (some n) = if leb n (2 ^ 63) then some (negated n) else none

-- strconv.Atoi and strconv.ParseInt(_, 10, 64), without their error.
unfoldable pub parse_int : Bytes → Option ℤ
parse_int [] = none
parse_int (c ∷ cs) =
    if c == 43
    then as_positive (unsigned cs)
    else if c == 45
    then as_negative (unsigned cs)
    else as_positive (unsigned (c ∷ cs))

abbrev pub or_default : Option ℤ → ℤ → ℤ
or_default none d = d
or_default (some v) d = v

abbrev has_prefix : Bytes → Bytes → Bool
has_prefix s p = str_eq (take (length p) s) p

-- strings.Index
unfoldable pub index_of : Bytes → Bytes → Option ℕ
index_of [] sub = if is_empty sub then some 0 else none
index_of (c ∷ cs) sub =
    if has_prefix (c ∷ cs) sub
    then some 0
    else elim (index_of cs sub) [ none ↦ none | some n ↦ some (suc n) ]

-- The public origin: the base URL up to the first slash after its scheme.
unfoldable pub origin_of : Bytes → Bytes
origin_of base = elim (index_of base (codes "://")) [
  | none ↦ base
  | some i ↦ elim (index_of (drop (i + 3) base) (codes "/")) [
    | none ↦ base
    | some h ↦ take (i + 3 + h) base
  ]
]

-- strings.Split at a comma
abbrev onto_first : ℕ → List Bytes → List Bytes
onto_first c [] = (c ∷ []) ∷ []
onto_first c (p ∷ ps) = (c ∷ p) ∷ ps

abbrev pub split_commas : Bytes → List Bytes
split_commas [] = [] ∷ []
split_commas (c ∷ cs) = if c == 44 then [] ∷ split_commas cs else onto_first c (split_commas cs)
