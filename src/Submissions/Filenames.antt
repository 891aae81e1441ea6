-- ===== src/Submissions/Filenames.antt =====
-- internal/submissions/submissions.go: sanitizeFilename.
use model_lib.Base.{
  ℕ, zero, suc, ◌-◌, ◌≤◌, ◌≡◌, refl, ◌∙◌, arith, ◌==◌, Bool, false, ◌&&◌, ◌||◌, if◌then◌else◌, ltb,
  leb, Option, none, some, [], ◌∷◌, ◌++◌, map, Bytes, codes, length, take, drop, trim_space, any_of,
  any_of-append, length-append, length-take, length-drop, if_cases,
}

-- sanitizeFilename
abbrev pub underscored : ℕ → ℕ
underscored c = if (c == b'/') || (c == b'\\') then b'_' else c

unfoldable pub without_nul : Bytes → Bytes
without_nul [] = []
without_nul (c ∷ cs) = let rest = without_nul cs in if c == 0 then rest else c ∷ rest

abbrev pub after_dot : Option ℕ → ℕ → Option ℕ
after_dot none c = if c == b'.' then some 0 else none
after_dot (some i) c = some (suc i)

-- strings.LastIndex(s, ".")
unfoldable pub last_dot : Bytes → Option ℕ
last_dot [] = none
last_dot (c ∷ cs) = after_dot (last_dot cs) c

abbrev pub short_extension : Bytes → Option ℕ → Bytes
short_extension name none = codes ".c"
short_extension name (some i) =
    if ltb 0 i && leb (length name - i) 10 then drop i name else codes ".c"

unfoldable pub shortened : Bytes → Bytes
shortened name =
    if ltb 255 (length name)
    then take (255 - length (short_extension name (last_dot name))) name
      ++ short_extension name (last_dot name)
    else name

unfoldable pub sanitize_filename : Bytes → Bytes
sanitize_filename name = shortened (without_nul (map underscored (trim_space name)))

-- The characters that a stored name does not have.
abbrev pub is_forbidden : ℕ → Bool
is_forbidden c = (c == b'/') || (c == b'\\') || (c == 0)

without_nul-clean : (s : Bytes) → any_of is_forbidden (without_nul (map underscored s)) ≡ false
unfolding without_nul any_of
without_nul-clean [] = refl
without_nul-clean (c ∷ cs) = ground (arith, without_nul-clean cs)

any_of-take : (p : ℕ → Bool) (n : ℕ) (s : Bytes) → any_of p s ≡ false → any_of p (take n s) ≡ false
unfolding any_of
any_of-take p zero s h = refl
any_of-take p (suc n) [] h = refl
any_of-take p (suc n) (c ∷ cs) h = ground (arith, any_of-take p n cs)

any_of-drop : (p : ℕ → Bool) (n : ℕ) (s : Bytes) → any_of p s ≡ false → any_of p (drop n s) ≡ false
unfolding any_of
any_of-drop p zero s h = h
any_of-drop p (suc n) [] h = refl
any_of-drop p (suc n) (c ∷ cs) h = any_of-drop p n cs (ground arith)

-- The extension that is kept: it has no new character, and at most ten.
short_extension-clean :
    (s : Bytes) (o : Option ℕ)
    → any_of is_forbidden s ≡ false
    → (any_of is_forbidden (short_extension s o) ≡ false) × (length (short_extension s o) ≤ 10)
unfolding any_of
short_extension-clean s none h = (refl, omega arith)
short_extension-clean s (some i) h =
    if_cases (λ (e : Bytes). (any_of is_forbidden e ≡ false) × (length e ≤ 10))
      (ltb 0 i && leb (length s - i) 10)
      (λ short. (any_of-drop is_forbidden i s h, ground (arith, length-drop i s)))
      (λ _. (refl, omega arith))

shortened-clean :
    (s : Bytes)
    → any_of is_forbidden s ≡ false
    → (any_of is_forbidden (shortened s) ≡ false) × (length (shortened s) ≤ 255)
unfolding shortened
shortened-clean s h =
    let e : Bytes = short_extension s (last_dot s) in
    let (clean, small) = short_extension-clean s (last_dot s) h in
    if_cases (λ (t : Bytes). (any_of is_forbidden t ≡ false) × (length t ≤ 255))
      (ltb 255 (length s))
      (λ long. (
        any_of-append is_forbidden (take (255 - length e) s) e
            ∙ rw (any_of-take is_forbidden (255 - length e) s h) clean,
        ground (arith, length-append (take (255 - length e) s) e, length-take (255 - length e) s),
      ))
      (λ fits. (h, ground arith))

-- The name that is stored for an uploaded file has no slash, no backslash and no NUL byte, and is at
-- most 255 bytes long.
pub sanitize_filename-clean :
    (name : Bytes)
    → (any_of is_forbidden (sanitize_filename name) ≡ false)
      × (length (sanitize_filename name) ≤ 255)
unfolding sanitize_filename
sanitize_filename-clean name =
    shortened-clean (without_nul (map underscored (trim_space name)))
      (without_nul-clean (trim_space name))
