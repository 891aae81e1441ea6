-- ===== src/Identity/Fresh.antt =====
-- internal/identity/identity.go: a generated participant id is one that isValidUUID takes.
use mathlib.Core.List.{append-nil}
use model_lib.Base.{
  ℕ, zero, suc, ◌+◌, ◌/◌, ◌%◌, ◌<◌, ◌≤◌, ◌≡◌, refl, ap, sym, ◌∙◌, arith, Bool, true, false, not,
  ◌&&◌, some, [], ◌∷◌, ◌++◌, Bytes, All, length, take, drop, length-append, length-take,
  length-drop,
}
use model_lib.Encoding.Base64.{IsByte}
use model_lib.Identity.{
  uuid_from, is_valid_uuid, hex, generate_participant_id, hex_digit, printed, is_hex, is_dash_place,
}

All-take : (P : ℕ → Type 0) (n : ℕ) (xs : Bytes) → All P xs → All P (take n xs)
All-take P zero xs h = tt
All-take P (suc n) [] h = tt
All-take P (suc n) (x ∷ xs) (h, hs) = (h, All-take P n xs hs)

All-drop : (P : ℕ → Type 0) (n : ℕ) (xs : Bytes) → All P xs → All P (drop n xs)
All-drop P zero xs h = h
All-drop P (suc n) [] h = tt
All-drop P (suc n) (x ∷ xs) (h, hs) = All-drop P n xs hs

-- The places of the next `n` pairs of digits, which hold no dash, and the place behind them.
abbrev is_clear : ℕ → ℕ → Bool
is_clear i zero = true
is_clear i (suc n) =
    not (is_dash_place i) && (not (is_dash_place (i + 1)) && is_clear (i + 1 + 1) n)

abbrev ahead : ℕ → ℕ → ℕ
ahead i zero = i
ahead i (suc n) = ahead (i + 1 + 1) n

digit-is_hex : (n : ℕ) → n < 16 → is_hex (hex_digit n) ≡ true
digit-is_hex n h = ground arith

and_parts : (a b : Bool) → not a && b ≡ true → (a ≡ false) × (b ≡ true)
and_parts true b h = cc
and_parts false b h = (refl, h)

hex-places :
    (b : Bytes) (i : ℕ) (rest : Bytes)
    → All IsByte b
    → is_clear i (length b) ≡ true
    → uuid_from i (hex b ++ rest) ≡ uuid_from (ahead i (length b)) rest
unfolding uuid_from hex
hex-places [] i rest h clear = refl
hex-places (x ∷ xs) i rest (h, hs) clear =
    let (here, others) = and_parts (is_dash_place i) _ clear in
    let (next, later) = and_parts (is_dash_place (i + 1)) _ others in
    rw here (
      rw (digit-is_hex (x / 16) (omega arith)) (
        rw next
          (rw (digit-is_hex (x % 16) (omega arith)) (hex-places xs (i + 1 + 1) rest hs later))))

length-hex : (b : Bytes) → length (hex b) ≡ length b + length b
unfolding hex
length-hex [] = omega arith
length-hex (x ∷ xs) = omega (arith, length-hex xs)

-- One group of digits, and the dash behind it.
group :
    (b : Bytes) (n i : ℕ) (rest : Bytes)
    → All IsByte b
    → length b ≡ n
    → is_clear i n ≡ true
    → is_dash_place (ahead i n) ≡ true
    → uuid_from i (hex b ++ (b'-' ∷ rest)) ≡ uuid_from (ahead i n + 1) rest
unfolding uuid_from
group b n i rest h size clear dash =
    hex-places b i (b'-' ∷ rest) h (ap (is_clear i) size ∙ clear)
    ∙ ap (λ m. uuid_from (ahead i m) (b'-' ∷ rest)) size
    ∙ rw dash refl

length-group :
    (b : Bytes) (n : ℕ) (rest : Bytes)
    → length b ≡ n
    → length (hex b ++ (b'-' ∷ rest)) ≡ n + n + 1 + length rest
length-group b n rest size = omega (arith, length-append (hex b) (b'-' ∷ rest), length-hex b)

module _ (b : Bytes) (bytes : All IsByte b) (size : length b ≡ 16) where
  part-IsByte : (k n : ℕ) → All IsByte (take n (drop k b))
  part-IsByte k n = All-take IsByte n (drop k b) (All-drop IsByte k b bytes)

  part-length : (k n : ℕ) → k + n ≤ 16 → length (take n (drop k b)) ≡ n
  part-length k n h = length-take n (drop k b) (omega (arith, length-drop k b))

  printed-length : length (printed b) ≡ 36
  printed-length = omega (
    arith,
    length-group (take 4 b) 4 _ (part-length 0 4 (omega arith)),
    length-group (take 2 (drop 4 b)) 2 _ (part-length 4 2 (omega arith)),
    length-group (take 2 (drop 6 b)) 2 _ (part-length 6 2 (omega arith)),
    length-group (take 2 (drop 8 b)) 2 _ (part-length 8 2 (omega arith)),
    length-hex (take 6 (drop 10 b)),
    part-length 10 6 (omega arith),
  )

  last_group : uuid_from 24 (hex (take 6 (drop 10 b))) ≡ true
  unfolding uuid_from
  last_group =
      let e : Bytes = take 6 (drop 10 b) in
      let size_e : length e ≡ 6 = part-length 10 6 (omega arith) in
      ap (uuid_from 24) (sym (append-nil (hex e)))
      ∙ hex-places e 24 [] (part-IsByte 10 6) (ap (is_clear 24) size_e)

  printed-uuid_from : uuid_from 0 (printed b) ≡ true
  printed-uuid_from =
      group (take 4 b) 4 0 _ (part-IsByte 0 4) (part-length 0 4 (omega arith)) refl refl
      ∙ group (take 2 (drop 4 b)) 2 9 _ (part-IsByte 4 2) (part-length 4 2 (omega arith)) refl refl
      ∙ group (take 2 (drop 6 b)) 2 14 _ (part-IsByte 6 2) (part-length 6 2 (omega arith)) refl refl
      ∙ group (take 2 (drop 8 b)) 2 19 _ (part-IsByte 8 2) (part-length 8 2 (omega arith)) refl refl
      ∙ last_group

-- GenerateParticipantID turns 16 random bytes into an id that isValidUUID takes.
pub generate_participant_id-is_valid_uuid :
    (b pid : Bytes)
    → All IsByte b
    → length b ≡ 16
    → generate_participant_id (some b) ≡ some pid
    → is_valid_uuid pid ≡ true
unfolding generate_participant_id is_valid_uuid
generate_participant_id-is_valid_uuid b pid bytes size made =
    let same : printed b ≡ pid = cc made in
    ap is_valid_uuid (sym same) ∙ rw (printed-length b bytes size) (printed-uuid_from b bytes size)
