-- ===== src/Identity.antt =====
-- internal/identity/identity.go. The keyed hash `mac secret message` is a parameter; times are the
-- seconds or nanoseconds of the clock since 1970, and an int64 is its bit pattern.
mod Provider
pub mod Numbers
pub mod Cookies
pub mod Tokens
pub mod Fresh
pub mod Addresses
pub mod Tests
unfoldable pub use Provider.*
use model_lib.Base.{
  ℕ, ◌+◌, ◌-◌, ◌*◌, ◌/◌, ◌%◌, ◌^◌, Bool, true, false, not, ◌&&◌, ◌||◌, ◌==◌, leb, ltb,
  if◌then◌else◌, Option, none, some, [], ◌∷◌, ◌++◌, Bytes, codes, length, take, drop, str_eq,
  is_empty, cut, trim_space, trim_slashes,
}
use model_lib.Base.Int.{ℤ, pos, negsuc, pos_part, neg_part, leb_ℤ, ◌+ℤ◌}
use model_lib.Config.{Config, is_trusted_proxy}
use model_lib.Encoding.Base64.{encode, decode}
use model_lib.Encoding.Decimal.{decimal}

-- The loop of isValidUUID; bytes from 128 on belong to characters that it refuses.
abbrev pub is_hex : ℕ → Bool
is_hex c = leb b'0' c && leb c b'9' || leb b'a' c && leb c b'f' || leb b'A' c && leb c b'F'

abbrev pub is_dash_place : ℕ → Bool
is_dash_place i = (i == 8) || (i == 13) || (i == 18) || (i == 23)

unfoldable pub uuid_from : ℕ → Bytes → Bool
uuid_from i [] = true
uuid_from i (c ∷ cs) = (if is_dash_place i then c == b'-' else is_hex c) && uuid_from (i + 1) cs

unfoldable pub is_valid_uuid : Bytes → Bool
unfolding uuid_from
is_valid_uuid s = (length s == 36) && uuid_from 0 s

-- The loop of parseInt64: the accumulator wraps.
unfoldable pub parse_from : ℕ → Bytes → Option ℕ
parse_from n [] = some n
parse_from n (c ∷ cs) =
    if leb b'0' c && leb c b'9' then parse_from ((n * 10 + (c - b'0')) % 2 ^ 64) cs else none

abbrev pub signed64 : ℕ → ℤ
signed64 w = if ltb w (2 ^ 63) then pos w else negsuc (2 ^ 64 - w - 1)

unfoldable pub parse_int64 : Bytes → Option ℕ
unfolding parse_from
parse_int64 s = parse_from 0 s

-- The name of the identity cookie.
abbrev pub cookie_name : Bytes
cookie_name = codes "hustack_sid"

-- time.Since(time.Unix(ts, 0)) > limit. time.Unix counts from the year 1, and wraps; the distance is
-- exact here, while Go stops at 292 years, which is past every limit.
abbrev pub is_older : ℤ → ℕ → ℕ → Bool
is_older limit now_ns ts =
    let at = signed64 ((ts + 62_135_596_800) % 2 ^ 64) in
    not (
      leb (now_ns + 62_135_596_800 * 10 ^ 9 + neg_part at * 10 ^ 9 + neg_part limit)
        (pos_part at * 10 ^ 9 + pos_part limit))

-- VerifyOrigin
unfoldable pub verify_origin : CookieProvider → HttpRequest → Bool
verify_origin p r =
    if is_empty r.origin
    then true
    else str_eq (trim_slashes r.origin) (trim_slashes p.public_base_origin)

abbrev pub hex_digit : ℕ → ℕ
hex_digit n = if ltb n 10 then 48 + n else 87 + n

unfoldable pub hex : Bytes → Bytes
hex [] = []
hex (b ∷ bs) = hex_digit (b / 16) ∷ hex_digit (b % 16) ∷ hex bs

-- The five groups that GenerateParticipantID prints.
abbrev pub printed : Bytes → Bytes
printed b =
    hex (take 4 b)
    ++ (b'-'
        ∷ (hex (take 2 (drop 4 b))
            ++ (b'-'
                ∷ (hex (take 2 (drop 6 b))
                    ++ (b'-' ∷ (hex (take 2 (drop 8 b)) ++ (b'-' ∷ hex (take 6 (drop 10 b)))))))))

-- GenerateParticipantID, from the 16 bytes of the random source, or its error.
unfoldable pub generate_participant_id : Option Bytes → Option Bytes
generate_participant_id none = none
generate_participant_id (some b) = some (printed b)

abbrev pub unexpired : ℕ → Identity → Resolved Identity
unexpired now id = if leb_ℤ (pos now) id.expires_at then ok id else err expired_cookie

-- ClearIdentity
unfoldable pub clear_identity : CookieProvider → SetCookie
clear_identity p = record { name = cookie_name; value = []; max_age = negsuc 0; secure = p.secure }

abbrev pub succeeds : Resolved (Unit {0}) → Bool
succeeds (ok _) = true
succeeds (err e) = false

module _ (mac : Bytes → Bytes → Bytes) where
  -- The value of the cookie that SetIdentity makes.
  unfoldable pub cookie_value : CookieProvider → ℕ → Bytes → Bytes
  cookie_value p now pid =
      let payload =
        pid
        ++ (codes ":"
            ++ (decimal (pos now) ++ (codes ":" ++ decimal (pos now +ℤ p.max_age_seconds)))) in
      encode (mac p.hmac_secret (encode payload)) ++ (codes "." ++ encode payload)

  -- SetIdentity, at second `now`, for a largest age whose nanoseconds fit an int64
  unfoldable pub set_identity : CookieProvider → ℕ → Bytes → SetCookie
  set_identity p now pid = record {
    name = cookie_name;
    value = cookie_value p now pid;
    max_age = p.max_age_seconds;
    secure = p.secure;
  }

  -- Resolve, at second `now`
  unfoldable pub resolve : CookieProvider → ℕ → HttpRequest → Resolved Identity
  resolve p now r = do
    value ← required r.cookie
    (sig_text, payload) ← required (cut b'.' value)
    sig ← required (decode sig_text)
    guard (str_eq sig (mac p.hmac_secret payload))
    text ← required (decode payload)
    (pid, times) ← required (cut b':' text)
    (issued, expires) ← required (cut b':' times)
    guard (is_valid_uuid pid)
    issued_at ← required (parse_int64 issued)
    expires_at ← required (parse_int64 expires)
    unexpired now (record {
      participant_id = pid;
      issued_at = signed64 issued_at;
      expires_at = signed64 expires_at;
    })

  -- CSRFToken, at second `now`
  unfoldable pub csrf_token : CookieProvider → ℕ → Bytes → Bytes
  csrf_token p now pid =
      let text = pid ++ (codes ":" ++ decimal (pos now)) in
      encode (mac p.hmac_secret text) ++ (codes "." ++ encode text)

  -- VerifyCSRFToken, at nanosecond `now_ns`; Resolve reads the clock at second `now`.
  unfoldable pub check_csrf_token : CookieProvider → ℕ → ℕ → HttpRequest → Resolved (Unit {0})
  check_csrf_token p now now_ns r = do
    guard (not (is_empty r.csrf_token))
    (sig_text, data_text) ← required (cut b'.' r.csrf_token)
    text ← required (decode data_text)
    (pid, stamp) ← required (cut b':' text)
    ts ← required (parse_int64 stamp)
    id ← resolve p now r
    guard (str_eq id.participant_id pid)
    guard (not (is_older p.csrf_token_duration now_ns ts))
    guard (str_eq sig_text (encode (mac p.hmac_secret text)))

  unfoldable pub verify_csrf_token : CookieProvider → ℕ → ℕ → HttpRequest → Bool
  verify_csrf_token p now now_ns r = succeeds (check_csrf_token p now now_ns r)

abbrev pub before_comma : Bytes → Bytes
before_comma s = elim (cut b',' s) [ none ↦ s | some (a, _) ↦ a ]

abbrev pub first_of : Option Bytes → Option Bytes → Bytes → Bytes
first_of (some a) y d = a
first_of none (some b) d = b
first_of none none d = d

abbrev pub if_parsed {ℓ} : {Ip : Type ℓ} → Bytes → Option Ip → Option Bytes
if_parsed candidate none = none
if_parsed candidate (some ip) = some candidate

-- net.ParseIP, and net.SplitHostPort without the port, are parameters.
module _ {Ip : Type 0} (parse_ip : Bytes → Option Ip) (split_host : Bytes → Option Bytes) where
  -- The host of RemoteAddr, or all of it where it has no port.
  abbrev pub remote_host : HttpRequest → Bytes
  remote_host r = elim (split_host r.remote_addr) [ none ↦ r.remote_addr | some host ↦ host ]

  abbrev pub parsed : Bytes → Option Bytes
  parsed candidate = if_parsed candidate (parse_ip candidate)

  -- The address in a header, where there is one.
  abbrev pub header_ip : Bytes → Bytes → Option Bytes
  header_ip value text = if is_empty value then none else parsed (trim_space text)

  module _ {Network : Type 0} (contains : Network → Ip → Bool) where
    abbrev pub trusts : Config Network → Option Ip → Bool
    trusts cfg none = false
    trusts cfg (some ip) = is_trusted_proxy Network contains cfg ip

    abbrev pub is_proxy : Config Network → HttpRequest → Bool
    is_proxy cfg r = cfg.use_trusted_proxy_headers && trusts cfg (parse_ip (remote_host r))

    -- ExtractClientIP
    unfoldable pub extract_client_ip : Config Network → HttpRequest → Bytes
    extract_client_ip cfg r =
        if is_proxy cfg r
        then first_of (header_ip r.forwarded_for (before_comma r.forwarded_for))
            (header_ip r.real_ip r.real_ip) (remote_host r)
        else remote_host r
