-- ===== src/Identity/Cookies.antt =====
-- internal/identity/identity.go: the cookie that SetIdentity makes, and which cookies Resolve takes.
use model_lib.Base.{
  ℕ, ◌+◌, ◌^◌, ◌<◌, ◌≡◌, refl, ap, sym, ◌∙◌, arith, Bool, true, false, ◌==◌, leb, ltb,
  if◌then◌else◌, Option, none, some, [], ◌∷◌, ◌++◌, Bytes, any_of, if_cases, All, cut, cut-append,
  append-cut, str_eq, str_eq_iff, str_eq_refl,
}
use model_lib.Base.Int.{ℤ, pos, leb_ℤ, ◌+ℤ◌}
use model_lib.Encoding.Base64.{IsByte, encode-IsByte, encode, decode, decode-encode, encode_free}
use model_lib.Encoding.Decimal.{decimal}
use model_lib.Identity.{
  Identity, CookieProvider, HttpRequest, Resolved, ok, err, expired_cookie, required, guard, ◌>>=◌,
  is_valid_uuid, uuid_from, parse_int64, signed64, unexpired, cookie_value, set_identity, resolve,
}
use model_lib.Identity.Numbers.{IsField, decimal-IsField, parse_int64-decimal, append-All}

uuid_from-IsField : (i : ℕ) (s : Bytes) → uuid_from i s ≡ true → IsField s
unfolding uuid_from any_of
uuid_from-IsField i [] h = (refl, tt)
uuid_from-IsField i (c ∷ cs) h =
    let rest = uuid_from-IsField (i + 1) cs (ground arith) in
    (ground (arith, rest.0), (ground arith, rest.1))

pub uuid-IsField : (s : Bytes) → is_valid_uuid s ≡ true → IsField s
unfolding is_valid_uuid
uuid-IsField s h = uuid_from-IsField 0 s (ground arith)

-- What a chain that succeeds says of its first step.
pub after_step :
    {A B : Type 0} {C : Type 0} (m : Resolved A) (f : A → Resolved B) (b : B)
    → (m >>= f) ≡ ok b
    → ((a : A) → m ≡ ok a → f a ≡ ok b → C)
    → C
after_step (err e) f b h k = cc h
after_step (ok a) f b h k = k a refl h

pub after_required :
    {A B : Type 0} {C : Type 0} (o : Option A) (f : A → Resolved B) (b : B)
    → (required o >>= f) ≡ ok b
    → ((a : A) → o ≡ some a → f a ≡ ok b → C)
    → C
after_required none f b h k = cc h
after_required (some a) f b h k = k a refl h

pub after_guard :
    {B : Type 0} {C : Type 0} (t : Bool) (f : Unit {0} → Resolved B) (b : B)
    → (guard t >>= f) ≡ ok b
    → (t ≡ true → f tt ≡ ok b → C)
    → C
after_guard true f b h k = k refl h
after_guard false f b h k = cc h

unexpired-ok :
    (now : ℕ) (i j : Identity)
    → unexpired now i ≡ ok j
    → (leb_ℤ (pos now) j.expires_at ≡ true) × (i ≡ j)
unexpired-ok now i j =
    if_cases (λ (x : Resolved Identity). x ≡ ok j → (leb_ℤ (pos now) j.expires_at ≡ true) × (i ≡ j))
      (leb_ℤ (pos now) i.expires_at)
      (λ on_time h.
        let same : i ≡ j = cc h in
        (ap (λ (x : Identity). leb_ℤ (pos now) x.expires_at) (sym same) ∙ on_time, same))
      (λ _ h. cc h)

module _ (mac : Bytes → Bytes → Bytes) (p : CookieProvider) where
  -- What a cookie that Resolve takes consists of.
  pub record IssuedFacts (r : HttpRequest) (id : Identity) : Type 0 where
    pub sig_text : Bytes
    pub payload : Bytes
    pub issued : Bytes
    pub expires : Bytes
    pub issued_at : ℕ
    pub expires_at : ℕ
    pub carried : r.cookie ≡ some (sig_text ++ b'.' ∷ payload)
    pub signed : decode sig_text ≡ some (mac p.hmac_secret payload)
    pub says : decode payload ≡ some (id.participant_id ++ (b':' ∷ (issued ++ (b':' ∷ expires))))
    pub uuid : is_valid_uuid id.participant_id ≡ true
    pub issue_time : (parse_int64 issued ≡ some issued_at) × (id.issued_at ≡ signed64 issued_at)
    pub expiry_time :
        (parse_int64 expires ≡ some expires_at) × (id.expires_at ≡ signed64 expires_at)

  -- A cookie that Resolve takes is a payload behind an encoding of its keyed hash, in which the
  -- participant id is a UUID and the time of expiry is not past.
  pub resolve-IssuedFacts :
      (now : ℕ) (r : HttpRequest) (id : Identity)
      → resolve mac p now r ≡ ok id
      → IssuedFacts r id × (leb_ℤ (pos now) id.expires_at ≡ true)
  unfolding resolve
  resolve-IssuedFacts now r id h = after_required r.cookie _ id h λ value e1 h1.
      after_required (cut b'.' value) _ id h1 λ (sig_text, payload) e2 h2.
        after_required (decode sig_text) _ id h2 λ sig e3 h3.
          after_guard (str_eq sig (mac p.hmac_secret payload)) _ id h3 λ e4 h4.
            after_required (decode payload) _ id h4 λ text e5 h5.
              after_required (cut b':' text) _ id h5 λ (pid, times) e6 h6.
                after_required (cut b':' times) _ id h6 λ (issued, expires) e7 h7.
                  after_guard (is_valid_uuid pid) _ id h7 λ e8 h8.
                    after_required (parse_int64 issued) _ id h8 λ issued_at e9 h9.
                      after_required (parse_int64 expires) _ id h9 λ expires_at e10 h10.
                        let (on_time, same) = unexpired-ok now _ id h10 in
                        (
                          record {
                            sig_text = sig_text;
                            payload = payload;
                            issued = issued;
                            expires = expires;
                            issued_at = issued_at;
                            expires_at = expires_at;
                            carried = e1 ∙ ap some (append-cut b'.' value sig_text payload e2);
                            signed =
                                e3 ∙ ap some ((str_eq_iff sig (mac p.hmac_secret payload)).0 e4);
                            says =
                                e5
                                ∙ ap some (
                                    append-cut b':' text pid times e6
                                    ∙ ap (λ (t : Bytes). pid ++ (b':' ∷ t))
                                        (append-cut b':' times issued expires e7)
                                    ∙ ap
                                        (λ (i : Identity).
                                          i.participant_id ++ (b':' ∷ (issued ++ (b':' ∷ expires))))
                                        same);
                            uuid =
                                ap (λ (i : Identity). is_valid_uuid i.participant_id) (sym same)
                                ∙ e8;
                            issue_time = (e9, ap (λ (i : Identity). i.issued_at) (sym same));
                            expiry_time = (e10, ap (λ (i : Identity). i.expires_at) (sym same));
                          },
                          on_time,
                        )

  -- What `resolve` answers where each step of its chain succeeds.
  resolve_chain :
      (now : ℕ) (r : HttpRequest) (sig_text payload pid issued expires : Bytes) (a e : ℕ)
      → r.cookie ≡ some (sig_text ++ (b'.' ∷ payload))
      → any_of (λ c. c == b'.') sig_text ≡ false
      → decode sig_text ≡ some (mac p.hmac_secret payload)
      → decode payload ≡ some (pid ++ (b':' ∷ (issued ++ (b':' ∷ expires))))
      → IsField issued
      → is_valid_uuid pid ≡ true
      → parse_int64 issued ≡ some a
      → parse_int64 expires ≡ some e
      → resolve mac p now r
        ≡ unexpired now
            (record { participant_id = pid; issued_at = signed64 a; expires_at = signed64 e })
  unfolding resolve
  resolve_chain now r sig_text payload pid issued expires a e carried free signed says clean uuid at
        until =
      rw carried (
        rw (cut-append b'.' sig_text payload free) (
          rw signed (
            rw (str_eq_refl (mac p.hmac_secret payload)) (
              rw says (
                rw (cut-append b':' pid (issued ++ (b':' ∷ expires)) (uuid-IsField pid uuid).0) (
                  rw (cut-append b':' issued expires clean.0)
                    (rw uuid (rw at (rw until refl)))))))))

pub pos-signed64 : (n : ℕ) → n < 2 ^ 63 → signed64 n ≡ pos n
pos-signed64 n h =
    if_cases (λ (z : ℤ). z ≡ pos n) (ltb n (2 ^ 63)) (λ _. refl) (λ e. absurd (ground arith))

pos-add : (a b : ℕ) → pos a +ℤ pos b ≡ pos (a + b)
pos-add a b =
    if_cases (λ (z : ℤ). z ≡ pos (a + b)) (leb 0 (a + b)) (λ _. ap pos (omega arith))
      (λ e. absurd (ground arith))

-- A keyed hash of bytes is bytes.
abbrev pub KeepsBytes : (Bytes → Bytes → Bytes) → Type 0
KeepsBytes mac = (secret message : Bytes) → All IsByte message → All IsByte (mac secret message)

-- The text that SetIdentity signs.
abbrev pub cookie_text : Bytes → ℕ → ℕ → Bytes
cookie_text pid now until = pid ++ (b':' ∷ (decimal (pos now) ++ (b':' ∷ decimal (pos until))))

cookie_text-bytes :
    (pid : Bytes) (now until : ℕ)
    → is_valid_uuid pid ≡ true
    → All IsByte (cookie_text pid now until)
cookie_text-bytes pid now until uuid = append-All IsByte pid _ (uuid-IsField pid uuid).1 (
  omega arith,
  append-All IsByte (decimal (pos now)) _ (decimal-IsField now).1
      (omega arith, (decimal-IsField until).1),
)

pub cookie_value_lem :
    (mac : Bytes → Bytes → Bytes) (p : CookieProvider) (now m : ℕ) (pid : Bytes)
    → p.max_age_seconds ≡ pos m
    → cookie_value mac p now pid
      ≡ encode (mac p.hmac_secret (encode (cookie_text pid now (now + m))))
        ++ (b'.' ∷ encode (cookie_text pid now (now + m)))
unfolding cookie_value
cookie_value_lem mac p now m pid age = rw age (rw (pos-add now m) refl)

plus_zero : (n : ℕ) → n + 0 ≡ n
plus_zero n = omega arith

-- The cookie that SetIdentity makes for a valid participant id at second `now`, sent back at second
-- `later`: until it expires, Resolve answers that participant and the two times, and from then on
-- that the cookie has expired. The keyed hash gives bytes, the age is not negative, and the time of
-- expiry is below 2^63.
pub resolve-set_identity :
    (mac : Bytes → Bytes → Bytes) (p : CookieProvider) (now m later : ℕ) (pid : Bytes)
    (r : HttpRequest)
    → KeepsBytes mac
    → p.max_age_seconds ≡ pos m
    → now + m < 2 ^ 63
    → is_valid_uuid pid ≡ true
    → r.cookie ≡ some (set_identity mac p now pid).value
    → resolve mac p later r ≡ (
        if leb later (now + m)
        then ok (record { participant_id = pid; issued_at = pos now; expires_at = pos (now + m) })
        else err expired_cookie)
unfolding set_identity
resolve-set_identity mac p now m later pid r keeps age fits uuid carried =
    let text : Bytes = cookie_text pid now (now + m) in
    let text_bytes : All IsByte text = cookie_text-bytes pid now (now + m) uuid in
    let payload : Bytes = encode text in
    let sig : Bytes = mac p.hmac_secret payload in
    let sig_bytes : All IsByte sig = keeps p.hmac_secret payload (encode-IsByte text text_bytes) in
    resolve_chain mac p later r (encode sig) payload pid (decimal (pos now))
      (decimal (pos (now + m))) now (now + m)
      (carried ∙ ap some (cookie_value_lem mac p now m pid age)) (encode_free sig sig_bytes).1
      (decode-encode sig sig_bytes) (decode-encode text text_bytes) (decimal-IsField now) uuid
      (parse_int64-decimal now (omega arith)) (parse_int64-decimal (now + m) (omega arith))
    ∙ rw (pos-signed64 now (omega arith)) (
        rw (pos-signed64 (now + m) (omega arith))
          (rw (plus_zero later) (rw (plus_zero (now + m)) refl)))
