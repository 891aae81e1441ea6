-- ===== src/Identity/Tokens.antt =====
-- internal/identity/identity.go: CSRF tokens, and why a token is no cookie.
use model_lib.Base.{
  ℕ, ◌+◌, ◌*◌, ◌%◌, ◌^◌, ◌<◌, ◌≤◌, ◌≡◌, refl, ap, sym, ◌∙◌, arith, Bool, true, false, not, some, [],
  ◌∷◌, ◌++◌, Bytes, All, cut, cut-append, append-cut, str_eq, str_eq_iff, str_eq_refl, is_empty,
}
use model_lib.Base.Int.{ℤ, pos}
use model_lib.Encoding.Base64.{IsByte, encode, decode, decode-encode, encode_free}
use model_lib.Encoding.Decimal.{decimal}
use model_lib.Identity.{
  Identity, CookieProvider, HttpRequest, Resolved, ok, err, guard, is_valid_uuid, parse_int64,
  is_older, succeeds, csrf_token, check_csrf_token, verify_csrf_token, resolve,
}
use model_lib.Identity.Numbers.{decimal-IsField, parse_int64-decimal, append-All}
use model_lib.Identity.Cookies.{
  KeepsBytes, pos-signed64, after_required, after_guard, after_step, uuid-IsField,
}

abbrev token_text : Bytes → ℕ → Bytes
token_text pid now = pid ++ (b':' ∷ decimal (pos now))

token_text-bytes :
    (pid : Bytes) (now : ℕ) → is_valid_uuid pid ≡ true → All IsByte (token_text pid now)
token_text-bytes pid now uuid =
    append-All IsByte pid _ (uuid-IsField pid uuid).1 (omega arith, (decimal-IsField now).1)

succeeds_iff : (m : Resolved (Unit {0})) → succeeds m ≡ true → m ≡ ok tt
succeeds_iff (ok u) h = refl
succeeds_iff (err e) h = cc

guard-true : (b : Bool) → guard b ≡ ok tt → b ≡ true
guard-true true h = refl
guard-true false h = cc

not-true : (b : Bool) → not b ≡ true → b ≡ false
not-true true h = cc
not-true false h = refl

nonempty : (xs ys : Bytes) → is_empty (xs ++ (b'.' ∷ ys)) ≡ false
nonempty [] ys = refl
nonempty (x ∷ xs) ys = refl

module _ (mac : Bytes → Bytes → Bytes) (p : CookieProvider) where
  -- What a token that VerifyCSRFToken accepts consists of.
  pub record TokenFacts (now now_ns : ℕ) (r : HttpRequest) : Type 0 where
    pub payload : Bytes
    pub text : Bytes
    pub stamp : Bytes
    pub ts : ℕ
    pub id : Identity
    pub presented : r.csrf_token ≡ encode (mac p.hmac_secret text) ++ (b'.' ∷ payload)
    pub decoded : decode payload ≡ some text
    pub owner : resolve mac p now r ≡ ok id
    pub says : text ≡ id.participant_id ++ (b':' ∷ stamp)
    pub made_at : parse_int64 stamp ≡ some ts
    pub recent : is_older p.csrf_token_duration now_ns ts ≡ false

  -- A token that VerifyCSRFToken accepts carries the encoding of the keyed hash of its text, which is the
  -- id of the participant whose cookie came with it and a time that is not older than the duration.
  pub verify_csrf_token-TokenFacts :
      (now now_ns : ℕ) (r : HttpRequest)
      → verify_csrf_token mac p now now_ns r ≡ true
      → TokenFacts now now_ns r
  unfolding verify_csrf_token check_csrf_token
  verify_csrf_token-TokenFacts now now_ns r h =
      after_guard (not (is_empty r.csrf_token)) _ tt (succeeds_iff _ h) λ e0 h0.
        after_required (cut b'.' r.csrf_token) _ tt h0 λ (sig_text, payload) e1 h1.
          after_required (decode payload) _ tt h1 λ text e2 h2.
            after_required (cut b':' text) _ tt h2 λ (pid, stamp) e3 h3.
              after_required (parse_int64 stamp) _ tt h3 λ ts e4 h4.
                after_step (resolve mac p now r) _ tt h4 λ id e5 h5.
                  after_guard (str_eq id.participant_id pid) _ tt h5 λ e6 h6.
                    after_guard (not (is_older p.csrf_token_duration now_ns ts)) _ tt h6 λ e7 h7.
                      let same : id.participant_id ≡ pid =
                        (str_eq_iff id.participant_id pid).0 e6 in
                      let signed : sig_text ≡ encode (mac p.hmac_secret text) =
                        (str_eq_iff sig_text (encode (mac p.hmac_secret text))).0
                          (guard-true _ h7) in
                      record {
                        payload = payload;
                        text = text;
                        stamp = stamp;
                        ts = ts;
                        id = id;
                        presented =
                            append-cut b'.' r.csrf_token sig_text payload e1
                            ∙ ap (λ (t : Bytes). t ++ (b'.' ∷ payload)) signed;
                        decoded = e2;
                        owner = e5;
                        says =
                            append-cut b':' text pid stamp e3
                            ∙ ap (λ (t : Bytes). t ++ (b':' ∷ stamp)) (sym same);
                        made_at = e4;
                        recent = not-true _ e7;
                      }

older_iff :
    (made now_ns d : ℕ)
    → made + 62_135_596_800 < 2 ^ 63
    → now_ns ≤ made * 10 ^ 9 + d
    → is_older (pos d) now_ns made ≡ false
older_iff made now_ns d fits h =
    rw (small_mod (made + 62_135_596_800) fits)
      (rw (pos-signed64 (made + 62_135_596_800) fits) (ground arith))
  where
    small_mod : (n : ℕ) → n < 2 ^ 63 → n % 2 ^ 64 ≡ n
    small_mod n h = omega arith

-- A token that CSRFToken made at second `made` for the participant of the request's cookie is accepted
-- up to the end of its duration `d`. The keyed hash gives bytes, the participant id is a UUID, and the
-- second, counted from the year 1, is below 2^63.
pub verify_csrf_token-csrf_token :
    (mac : Bytes → Bytes → Bytes) (p : CookieProvider) (made now now_ns d : ℕ) (r : HttpRequest)
    (id : Identity)
    → KeepsBytes mac
    → made + 62_135_596_800 < 2 ^ 63
    → is_valid_uuid id.participant_id ≡ true
    → p.csrf_token_duration ≡ pos d
    → now_ns ≤ made * 10 ^ 9 + d
    → resolve mac p now r ≡ ok id
    → r.csrf_token ≡ csrf_token mac p made id.participant_id
    → verify_csrf_token mac p now now_ns r ≡ true
unfolding verify_csrf_token check_csrf_token csrf_token resolve
verify_csrf_token-csrf_token mac p made now now_ns d r id keeps fits uuid lasts recent owner
      presented =
    let pid : Bytes = id.participant_id in
    let text : Bytes = token_text pid made in
    let text_bytes : All IsByte text = token_text-bytes pid made uuid in
    let sig : Bytes = mac p.hmac_secret text in
    let sig_bytes : All IsByte sig = keeps p.hmac_secret text text_bytes in
    let young : is_older p.csrf_token_duration now_ns made ≡ false =
      ap (λ (limit : ℤ). is_older limit now_ns made) lasts ∙ older_iff made now_ns d fits recent in
    rw presented (
      rw (nonempty (encode sig) (encode text)) (
        rw (cut-append b'.' (encode sig) (encode text) (encode_free sig sig_bytes).1) (
          rw (decode-encode text text_bytes) (
            rw (cut-append b':' pid (decimal (pos made)) (uuid-IsField pid uuid).0) (
              rw (parse_int64-decimal made (omega arith)) (
                rw owner
                  (rw (str_eq_refl pid) (rw young (rw (str_eq_refl (encode sig)) refl)))))))))
