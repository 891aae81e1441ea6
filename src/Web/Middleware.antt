-- ===== src/Web/Middleware.antt =====
-- internal/web/middleware.go, and Server.Handler: a request passes the recovery, the identity, the
-- security headers and the log, in this order, on its way to the handler that the router finds.
use model_lib.Base.{
  ℕ, Bool, ◌||◌, if◌then◌else◌, Option, none, some, List, take, [], ◌∷◌, ◌++◌, Bytes, codes, str_eq,
}
use model_lib.Base.Int.{ℤ, negsuc}
use model_lib.Config.{Config}
use model_lib.Identity.{
  Identity, CookieProvider, SetCookie, Resolved, ok, err, resolve, set_identity,
  generate_participant_id, new_cookie_provider,
}
use model_lib.RateLimit.{KeyStore}
use model_lib.Submissions.{Submit, World, new_service}
use model_lib.Web.Log.{Entry, log_writer_of, pid_of}
use model_lib.Web.{
  Writer, Response, Handled, answered, panicked, Readiness, Poll, set_header, http_error,
  handle_healthz, handle_readyz, handle_index, handle_submission_page, handle_create_submission,
  handle_get_submission,
}

-- What the router finds for a request; `other` is its own answer, or a static file.
pub data Route : Type 0 where
  healthz readyz index create other : Route
  submission_page get : Bytes → Route

-- A request, with what the clocks, the limiter, the checks and the random source come to, and the UUID
-- that is drawn for the log.
pub record Incoming : Type 0 where
  pub method : Bytes
  pub path : Bytes
  pub route : Route
  pub submit : Submit
  pub poll : Poll
  pub ready : Readiness
  pub random : Option Bytes
  pub log_uuid : Bytes

-- securityHeaders
unfoldable pub security_headers : Writer → Writer
security_headers w = set_header (codes "X-Frame-Options") (codes "DENY") (
    set_header (codes "Permissions-Policy")
      (codes "camera=(), microphone=(), geolocation=(), interest-cohort=()")
      (set_header (codes "Referrer-Policy") (codes "strict-origin-when-cross-origin") (
        set_header (codes "X-Content-Type-Options") (codes "nosniff") (
          set_header (codes "Content-Security-Policy")
            (codes
              "default-src 'self'; style-src 'self' 'unsafe-inline'; script-src 'self'; img-src 'self'; connect-src 'self'; form-action 'self'; frame-ancestors 'none'")
            w))))

abbrev pub add_cookie : SetCookie → Writer → Writer
add_cookie c w = record { header = w.header; cookies = w.cookies ++ c ∷ [] }

-- time.Time{} as a Unix time
abbrev pub zero_time : ℤ
zero_time = negsuc 62_135_596_799

abbrev pub new_visitor : Bytes → Identity
new_visitor pid = record { participant_id = pid; issued_at = zero_time; expires_at = zero_time }

-- A handler of the visitor and the writer; `T` is what it changes.
abbrev pub Handler : Type 0 → Type 0
Handler T = Option Identity → Writer → T → Handled × T

abbrev pub is_exempt : Bytes → Bool
is_exempt path = str_eq path (codes "/healthz") || str_eq path (codes "/readyz")

abbrev pub entry : Incoming → Option Identity → Response → Entry
entry r visitor response = record {
  req_id = take 8 r.log_uuid;
  method = r.method;
  path = r.path;
  status = (log_writer_of response).status_code;
  pid = pid_of visitor;
}

module _ {T : Type 0} where
  abbrev pub logged :
      Incoming → Option Identity → Handled × T → List Entry → Handled × (T × List Entry)
  logged r visitor (answered response, t) log =
      (answered response, (t, log ++ entry r visitor response ∷ []))
  -- A panic passes by what follows the call of the handler.
  logged r visitor (panicked w, t) log = (panicked w, (t, log))

  -- reqLogMiddleware
  unfoldable pub with_log : Incoming → Handler T → Handler (T × List Entry)
  with_log r next visitor w (t, log) = logged r visitor (next visitor w t) log

  abbrev pub with_security : Handler T → Handler T
  with_security next visitor w = next visitor (security_headers w)

  abbrev pub with_fresh :
      (Bytes → Bytes → Bytes)
      → CookieProvider
      → ℕ
      → Option Bytes
      → Handler T
      → Writer
      → T
      → Handled × T
  with_fresh mac p now none next w t = (answered (http_error w (codes "internal error") 500), t)
  with_fresh mac p now (some pid) next w t =
      next (some (new_visitor pid)) (add_cookie (set_identity mac p now pid) w) t

  abbrev pub with_resolved :
      (Bytes → Bytes → Bytes)
      → CookieProvider
      → ℕ
      → Option Bytes
      → Handler T
      → Resolved Identity
      → Writer
      → T
      → Handled × T
  with_resolved mac p now random next (ok visitor) w t = next (some visitor) w t
  with_resolved mac p now random next (err e) w t =
      with_fresh mac p now (generate_participant_id random) next w t

  -- identityMiddleware, which the mux has not given an identity yet
  unfoldable pub with_identity :
      (Bytes → Bytes → Bytes) → CookieProvider → Incoming → Handler T → Writer → T → Handled × T
  with_identity mac p r next w t =
      if is_exempt r.path
      then next none w t
      else with_resolved mac p r.submit.now r.random next
          (resolve mac p r.submit.now r.submit.request) w t

  -- recoverMiddleware
  abbrev pub with_recovery : Handled × T → Response × T
  with_recovery (answered response, t) = (response, t)
  with_recovery (panicked w, t) = (http_error w (codes "internal error") 500, t)

module _ (mac : Bytes → Bytes → Bytes) (sha : Bytes → Bytes) (K : KeyStore) {Network Ip : Type 0}
    (parse_ip : Bytes → Option Ip) (split_host : Bytes → Option Bytes)
    (contains : Network → Ip → Bool) (cfg : Config Network)
    (others : Incoming → Writer → Response) where
  open K use {Store}

  -- The handlers behind the router.
  unfoldable pub dispatch_route : Incoming → Route → Handler (Store × World)
  dispatch_route r healthz visitor w t = (answered (handle_healthz w), t)
  dispatch_route r readyz visitor w t = (answered (handle_readyz r.ready w), t)
  dispatch_route r index visitor w t =
      (answered (handle_index mac (new_service cfg) r.submit.now visitor w), t)
  dispatch_route r other visitor w t = (answered (others r w), t)
  dispatch_route r create visitor w (t, v) =
      let (response, u, z) =
        handle_create_submission mac sha K parse_ip split_host contains cfg r.submit visitor w t
          v in
      (answered response, (u, z))
  dispatch_route r (submission_page id) visitor w (t, v) =
      let (response, s) = handle_submission_page id visitor w v.db in
      (answered response, (t, record v { db = s }))
  dispatch_route r (get id) visitor w (t, v) =
      let (handled, u, s) =
        handle_get_submission K cfg.poll_rate_per_minute (record r.poll { submission_id = id })
          visitor w t v.db in
      (handled, (u, record v { db = s }))

  -- Handler
  unfoldable pub serve :
      Incoming → Writer → (Store × World) × List Entry → Response × ((Store × World) × List Entry)
  serve r w t = with_recovery (
      with_identity mac (new_cookie_provider cfg) r
        (with_security (with_log r (dispatch_route r r.route))) w t)
