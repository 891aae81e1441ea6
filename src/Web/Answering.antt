-- ===== src/Web/Answering.antt =====
-- internal/web: what the handlers behind the router answer, with a visitor and without.
use model_lib.Base.{
  ℕ, ◌≡◌, refl, arith, Bool, true, false, ltb, if_cases, Option, none, some, Bytes, length,
  is_empty,
}
use model_lib.Base.Int.{ℤ}
use model_lib.Config.{Config}
use model_lib.Database.{Session}
use model_lib.Identity.{Identity, is_valid_uuid}
use model_lib.RateLimit.{KeyStore}
use model_lib.Submissions.{World}
use model_lib.Web.{
  Writer, Response, Handled, answered, Poll, polled, handle_index, handle_submission_page,
  handle_create_submission, handle_get_submission,
}
use model_lib.Web.Middleware.{
  Route, healthz, readyz, index, create, other, submission_page, get, Incoming, dispatch_route,
}
use model_lib.Web.Headers.{
  SecuredFacts, ProperFacts, json-ProperFacts, typed-ProperFacts, http_error-ProperFacts,
  rate_limit-ProperFacts, created-ProperFacts, submission-ProperFacts, page-ProperFacts,
  healthz-ProperFacts, readyz-ProperFacts,
}

-- The router knows the two paths without an identity.
abbrev pub IsOpen : Route → Type 0
IsOpen healthz = Unit
IsOpen readyz = Unit
IsOpen other = Unit
IsOpen route = ⊥

-- A handler answered, with the security headers, and not with the status 401.
pub record AnsweredFacts (y : Handled) : Type 0 where
  pub response : Response
  pub same : y ≡ answered response
  pub proper : ProperFacts response

proper : (response : Response) → ProperFacts response → AnsweredFacts (answered response)
proper response h = record { response = response; same = refl; proper = h }

uuid_length : (s : Bytes) → is_valid_uuid s ≡ true → ltb (length s) 8 ≡ false
unfolding is_valid_uuid
uuid_length s h = ground arith

module _ (K : KeyStore) (rate : ℤ) (w : Writer) (h : SecuredFacts w) where
  open K use {Store}

  polled-AnsweredFacts :
      (id participant : Bytes) (x : Option (Bool × ℕ) × Store) (s : Session)
      → is_valid_uuid participant ≡ true
      → AnsweredFacts (polled K rate w id participant x s).0
  polled-AnsweredFacts id participant (some (false, n), t) s uuid =
      proper _ (rate_limit-ProperFacts w h n)
  polled-AnsweredFacts id participant (some (true, n), t) s uuid =
      proper _ (submission-ProperFacts w h _)
  polled-AnsweredFacts id participant (none, t) s uuid =
      rw (uuid_length participant uuid) (proper _ (submission-ProperFacts w h _))

  get-AnsweredFacts :
      (p : Poll) (visitor : Identity) (t : Store) (s : Session)
      → is_valid_uuid visitor.participant_id ≡ true
      → AnsweredFacts (handle_get_submission K rate p (some visitor) w t s).0
  unfolding handle_get_submission
  get-AnsweredFacts p visitor t s uuid =
      if_cases (λ (y : Handled × Store × Session). AnsweredFacts y.0) (is_empty p.submission_id)
        (λ _. proper _ (json-ProperFacts w 400 _ h refl)) (λ _. polled-AnsweredFacts _ _ _ s uuid)

page-AnsweredFacts :
    (id : Bytes) (visitor : Identity) (w : Writer) (s : Session)
    → SecuredFacts w
    → AnsweredFacts (answered (handle_submission_page id (some visitor) w s).0)
unfolding handle_submission_page
page-AnsweredFacts id visitor w s h =
    if_cases (λ (y : Response × Session). AnsweredFacts (answered y.0)) (is_empty id)
      (λ _. proper _ (http_error-ProperFacts w _ 404 h refl))
      (λ _. proper _ (page-ProperFacts w h id _))

module _ (mac : Bytes → Bytes → Bytes) (sha : Bytes → Bytes) (K : KeyStore) {Network Ip : Type 0}
    (parse_ip : Bytes → Option Ip) (split_host : Bytes → Option Bytes)
    (contains : Network → Ip → Bool) (cfg : Config Network)
    (others : Incoming → Writer → Response) where
  open K use {Store}

  pub dispatch_route-AnsweredFacts :
      (r : Incoming) (route : Route) (visitor : Identity) (w : Writer) (t : Store × World)
      → is_valid_uuid visitor.participant_id ≡ true
      → SecuredFacts w
      → ProperFacts (others r w)
      → AnsweredFacts
          (dispatch_route mac sha K parse_ip split_host contains cfg others r route
            (some visitor)
            w
            t).0
  unfolding dispatch_route handle_index handle_create_submission
  dispatch_route-AnsweredFacts r healthz visitor w t uuid h rest =
      (proper _ (healthz-ProperFacts w h))
  dispatch_route-AnsweredFacts r readyz visitor w t uuid h rest =
      (proper _ (readyz-ProperFacts w h r.ready))
  dispatch_route-AnsweredFacts r index visitor w t uuid h rest =
      (proper _ (typed-ProperFacts w 200 _ _ h refl))
  dispatch_route-AnsweredFacts r create visitor w t uuid h rest =
      (proper _ (created-ProperFacts w h _))
  dispatch_route-AnsweredFacts r other visitor w t uuid h rest = (proper _ rest)
  dispatch_route-AnsweredFacts r (submission_page id) visitor w t uuid h rest =
      (page-AnsweredFacts id visitor w t.1.db h)
  dispatch_route-AnsweredFacts r (get id) visitor w t uuid h rest =
      get-AnsweredFacts K cfg.poll_rate_per_minute w h (record r.poll { submission_id = id })
        visitor t.0 t.1.db uuid

  pub open-AnsweredFacts :
      (r : Incoming) (route : Route) (w : Writer) (t : Store × World)
      → IsOpen route
      → SecuredFacts w
      → ProperFacts (others r w)
      → AnsweredFacts
          (dispatch_route mac sha K parse_ip split_host contains cfg others r route none w t).0
  unfolding dispatch_route
  open-AnsweredFacts r healthz w t free h rest = (proper _ (healthz-ProperFacts w h))
  open-AnsweredFacts r readyz w t free h rest = (proper _ (readyz-ProperFacts w h r.ready))
  open-AnsweredFacts r other w t free h rest = (proper _ rest)
  open-AnsweredFacts r index w t free h rest = absurd free
  open-AnsweredFacts r create w t free h rest = absurd free
  open-AnsweredFacts r (submission_page id) w t free h rest = absurd free
  open-AnsweredFacts r (get id) w t free h rest = absurd free
