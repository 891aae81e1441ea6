-- ===== src/Encoding/Base64.antt =====
-- base64.RawURLEncoding: EncodeToString and DecodeString, which passes over line breaks and does not
-- ask for zero bits at the end.
use model_lib.Base.{
  ℕ, ◌+◌, ◌-◌, ◌*◌, ◌/◌, ◌%◌, ◌<◌, ◌≡◌, refl, ap, ◌∙◌, arith, Bool, false, ◌||◌, ◌&&◌, ◌==◌, leb,
  ltb, if◌then◌else◌, Option, none, some, List, [], ◌∷◌, map, Bytes, any_of, All, Option-cases, inl,
  inr,
}

abbrev pub IsByte : ℕ → Type 0
IsByte b = b < 256

abbrev pub IsSextet : ℕ → Type 0
IsSextet d = d < 64

-- The alphabet A-Z a-z 0-9 - _
unfoldable pub char_of : ℕ → ℕ
char_of d =
    if ltb d 26
    then 65 + d
    else if ltb d 52
    then 71 + d
    else if ltb d 62
    then d - 4
    else if d == 62
    then b'-'
    else b'_'

unfoldable pub sextets : Bytes → List ℕ
sextets [] = []
sextets (a ∷ []) = (a / 4) ∷ (a % 4 * 16) ∷ []
sextets (a ∷ b ∷ []) = (a / 4) ∷ (a % 4 * 16 + b / 16) ∷ (b % 16 * 4) ∷ []
sextets (a ∷ b ∷ c ∷ rest) =
    (a / 4) ∷ (a % 4 * 16 + b / 16) ∷ (b % 16 * 4 + c / 64) ∷ (c % 64) ∷ sextets rest

unfoldable pub encode : Bytes → Bytes
encode s = map char_of (sextets s)

unfoldable pub sextet_of : ℕ → Option ℕ
sextet_of c =
    if leb 65 c && leb c 90
    then some (c - 65)
    else if leb 97 c && leb c 122
    then some (c - 71)
    else if leb 48 c && leb c 57
    then some (c + 4)
    else if c == b'-'
    then some 62
    else if c == b'_'
    then some 63
    else none

abbrev is_line_break : ℕ → Bool
is_line_break c = (c == 10) || (c == 13)

abbrev onto : Option ℕ → Option (List ℕ) → Option (List ℕ)
onto none ds = none
onto (some d) none = none
onto (some d) (some ds) = some (d ∷ ds)

unfoldable pub sextets_of : Bytes → Option (List ℕ)
sextets_of [] = some []
sextets_of (c ∷ cs) =
    let rest = sextets_of cs in if is_line_break c then rest else onto (sextet_of c) rest

abbrev after_three : ℕ → ℕ → ℕ → Option Bytes → Option Bytes
after_three a b c none = none
after_three a b c (some rest) = some (a ∷ b ∷ c ∷ rest)

unfoldable pub join_sextets : List ℕ → Option Bytes
join_sextets [] = some []
join_sextets (x ∷ []) = none
join_sextets (x ∷ y ∷ []) = some ((x * 4 + y / 16) ∷ [])
join_sextets (x ∷ y ∷ z ∷ []) = some ((x * 4 + y / 16) ∷ (y % 16 * 16 + z / 4) ∷ [])
join_sextets (x ∷ y ∷ z ∷ w ∷ rest) =
    after_three (x * 4 + y / 16) (y % 16 * 16 + z / 4) (z % 4 * 64 + w) (join_sextets rest)

abbrev joined_sextets : Option (List ℕ) → Option Bytes
joined_sextets none = none
joined_sextets (some ds) = join_sextets ds

unfoldable pub decode : Bytes → Option Bytes
decode s = joined_sextets (sextets_of s)

sextet-char_of : (d : ℕ) → IsSextet d → sextet_of (char_of d) ≡ some d
unfolding sextet_of char_of
sextet-char_of d h = ground arith

char_of_range :
    (d : ℕ)
    → IsSextet d
    → (is_line_break (char_of d) ≡ false)
      × ((char_of d == b':') ≡ false)
      × ((char_of d == b'.') ≡ false)
unfolding char_of
char_of_range d h = ground arith

sextets_of-map : (ds : List ℕ) → All IsSextet ds → sextets_of (map char_of ds) ≡ some ds
unfolding sextets_of
sextets_of-map [] h = refl
sextets_of-map (d ∷ ds) (h, hs) =
    ground (arith, char_of_range d h, sextet-char_of d h, sextets_of-map ds hs)

sextets-IsSextet : (s : Bytes) → All IsByte s → All IsSextet (sextets s)
unfolding sextets
sextets-IsSextet [] h = tt
sextets-IsSextet (a ∷ []) h = omega arith
sextets-IsSextet (a ∷ b ∷ []) h = omega arith
sextets-IsSextet (a ∷ b ∷ c ∷ rest) (ha, (hb, (hc, hs))) =
    (omega arith, (omega arith, (omega arith, (omega arith, sextets-IsSextet rest hs))))

join_sextets-sextets : (s : Bytes) → All IsByte s → join_sextets (sextets s) ≡ some s
unfolding sextets join_sextets
join_sextets-sextets [] h = refl
join_sextets-sextets (a ∷ []) h = ground arith
join_sextets-sextets (a ∷ b ∷ []) h = ground arith
join_sextets-sextets (a ∷ b ∷ c ∷ rest) (ha, (hb, (hc, hs))) =
    ground (arith, join_sextets-sextets rest hs)

char_of-IsByte : (ds : List ℕ) → All IsSextet ds → All IsByte (map char_of ds)
unfolding char_of
char_of-IsByte [] h = tt
char_of-IsByte (d ∷ ds) (h, hs) = (ground arith, char_of-IsByte ds hs)

pub encode-IsByte : (s : Bytes) → All IsByte s → All IsByte (encode s)
unfolding encode
encode-IsByte s h = char_of-IsByte (sextets s) (sextets-IsSextet s h)

-- A byte sequence is read back from its encoding.
pub decode-encode : (s : Bytes) → All IsByte s → decode (encode s) ≡ some s
unfolding decode encode
decode-encode s h =
    ap joined_sextets (sextets_of-map (sextets s) (sextets-IsSextet s h)) ∙ join_sextets-sextets s h

char_of-free :
    (ds : List ℕ)
    → All IsSextet ds
    → (any_of (λ c. c == b':') (map char_of ds) ≡ false)
      × (any_of (λ c. c == b'.') (map char_of ds) ≡ false)
unfolding any_of
char_of-free [] h = (refl, refl)
char_of-free (d ∷ ds) (h, hs) = ground (arith, char_of_range d h, char_of-free ds hs)

-- An encoding has no colon and no dot.
pub encode_free :
    (s : Bytes)
    → All IsByte s
    → (any_of (λ c. c == b':') (encode s) ≡ false) × (any_of (λ c. c == b'.') (encode s) ≡ false)
unfolding encode
encode_free s h = char_of-free (sextets s) (sextets-IsSextet s h)

sextets_of_free :
    (s : Bytes) (ds : List ℕ) → sextets_of s ≡ some ds → any_of (λ c. c == b':') s ≡ false
unfolding sextets_of any_of sextet_of
sextets_of_free [] ds h = refl
sextets_of_free (c ∷ cs) ds h = elim (Option-cases (sextets_of cs)) [
  | inl missing ↦ absurd (ground arith)
  | inr (ds', found) ↦ ground (arith, sextets_of_free cs ds' found)
]

-- A text that decodes has no colon.
pub decode_free : (s out : Bytes) → decode s ≡ some out → any_of (λ c. c == b':') s ≡ false
unfolding decode
decode_free s out h = elim (Option-cases (sextets_of s)) [
  | inl missing ↦ cc (h, ap joined_sextets missing)
  | inr (ds, found) ↦ sextets_of_free s ds found
]
