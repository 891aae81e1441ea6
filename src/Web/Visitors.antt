-- ===== src/Web/Visitors.antt =====
-- internal/web: every request that reaches a handler has a visitor whose id is a UUID.
use mathlib.Core.Path.{subst}
use model_lib.Web.Log.{Entry}
use model_lib.Web.Answering.{
  IsOpen, AnsweredFacts, dispatch_route-AnsweredFacts, open-AnsweredFacts,
}
use model_lib.Base.{
  sym, ap, ◌∙◌, List, [], ◌∷◌, ◌++◌, ◌≡◌, refl, Bool, true, false, if_cases, Option, none, some,
  Bytes, length, All,
}
use model_lib.Config.{Config}
use model_lib.Encoding.Base64.{IsByte}
use model_lib.Identity.{
  Identity, IdentityError, CookieProvider, Resolved, ok, err, is_valid_uuid,
  generate_participant_id, resolve, new_cookie_provider,
}
use model_lib.Identity.Cookies.{resolve-IssuedFacts}
use model_lib.Identity.Fresh.{generate_participant_id-is_valid_uuid}
use model_lib.RateLimit.{KeyStore}
use model_lib.Submissions.{World}
use model_lib.Web.{Writer, Response, Handled, answered, panicked}
use model_lib.Web.Middleware.{
  Incoming, with_identity, with_resolved, with_fresh, with_security, is_exempt, dispatch_route,
  security_headers, new_visitor, entry, logged, with_log, Handler,
}
use model_lib.Web.Headers.{SecuredFacts, ProperFacts, security_headers-SecuredFacts}

-- The participant of a request: the one of its cookie, or, where the cookie is refused, a new one.
pub data Visits (mac : Bytes → Bytes → Bytes) (p : CookieProvider) (r : Incoming)
    (visitor : Identity) : Type 0 where
  returning : resolve mac p r.submit.now r.submit.request ≡ ok visitor → Visits mac p r visitor
  arriving :
      (e : IdentityError) (pid : Bytes)
      → resolve mac p r.submit.now r.submit.request ≡ err e
      → generate_participant_id r.random ≡ some pid
      → visitor ≡ new_visitor pid
      → Visits mac p r visitor

-- Only the two paths without an identity have no visitor.
abbrev pub IsVisitor :
    (Bytes → Bytes → Bytes) → CookieProvider → Incoming → Option Identity → Type 0
IsVisitor mac p r none = is_exempt r.path ≡ true
IsVisitor mac p r (some visitor) =
    (is_exempt r.path ≡ false)
    × (is_valid_uuid visitor.participant_id ≡ true)
    × Visits mac p r visitor

-- A handler answered properly, and the log has one more line about it.
pub record NotedFacts (mac : Bytes → Bytes → Bytes) (p : CookieProvider) (T : Type 0) (r : Incoming)
    (log : List Entry) (y : Handled × (T × List Entry)) : Type 0 where
  pub response : Response
  pub same : y.0 ≡ answered response
  pub proper : ProperFacts response
  pub visitor : Option Identity
  pub who : IsVisitor mac p r visitor
  pub noted : y.1.1 ≡ log ++ entry r visitor response ∷ []

pub answered_same : (a b : Response) → answered a ≡ answered b → a ≡ b
answered_same a b h = cc h

with_log-NotedFacts :
    (mac : Bytes → Bytes → Bytes) (p : CookieProvider) (T : Type 0) (r : Incoming)
    (log : List Entry) (next : Handler T) (visitor : Option Identity) (w : Writer) (t : T)
    → IsVisitor mac p r visitor
    → AnsweredFacts (next visitor w t).0
    → NotedFacts mac p T r log (with_log r next visitor w (t, log))
unfolding with_log
with_log-NotedFacts mac p T r log next visitor w t who h = noted (next visitor w t) h
  where
    noted :
        (x : Handled × T) → AnsweredFacts x.0 → NotedFacts mac p T r log (logged r visitor x log)
    noted (answered response, u) a = record {
      response = response;
      same = refl;
      proper = subst ProperFacts (sym (answered_same _ _ a.same)) a.proper;
      visitor = visitor;
      who = who;
      noted = refl;
    }
    noted (panicked v, u) a = cc (a.same)

-- What a request comes to behind the recovery.
pub data ServedFacts (mac : Bytes → Bytes → Bytes) (p : CookieProvider) (T : Type 0) (r : Incoming)
    (log : List Entry) (y : Handled × (T × List Entry)) : Type 0 where
  handled : NotedFacts mac p T r log y → ServedFacts mac p T r log y
  no_random :
      (response : Response)
      → r.random ≡ none
      → y.0 ≡ answered response
      → response.status ≡ 500
      → y.1.1 ≡ log
      → ServedFacts mac p T r log y

pub serve-ServedFacts :
    (mac : Bytes → Bytes → Bytes) (sha : Bytes → Bytes) (K : KeyStore) (Network Ip : Type 0)
    (parse_ip : Bytes → Option Ip) (split_host : Bytes → Option Bytes)
    (contains : Network → Ip → Bool) (cfg : Config Network) (others : Incoming → Writer → Response)
    (r : Incoming) (w : Writer) (t : KeyStore.Store K × World) (log : List Entry)
    → ((b : Bytes) → r.random ≡ some b → All IsByte b × (length b ≡ 16))
    → (is_exempt r.path ≡ true → IsOpen r.route)
    → ((v : Writer) → SecuredFacts v → ProperFacts (others r v))
    → ServedFacts mac (new_cookie_provider cfg) (KeyStore.Store K × World) r log (
        with_identity mac
          (new_cookie_provider cfg)
          r
          (with_security (
            with_log r
              (dispatch_route mac sha K parse_ip split_host contains cfg others r r.route)))
          w
          (t, log))
unfolding with_identity generate_participant_id
serve-ServedFacts mac sha K Network Ip parse_ip split_host contains cfg others r w t log random
      routed rest =
    if_cases Q (is_exempt r.path)
      (λ exempt. handled (
        with_log-NotedFacts mac (new_cookie_provider cfg) T r log route none _ t exempt (
          open-AnsweredFacts mac sha K parse_ip split_host contains cfg others r r.route _ t
            (routed exempt) (security_headers-SecuredFacts w)
            (rest _ (security_headers-SecuredFacts w)))))
      (λ asked. resolved asked (resolve mac provider r.submit.now r.submit.request) refl)
  where
    T : Type 0
    T = KeyStore.Store K × World

    provider : CookieProvider
    provider = new_cookie_provider cfg

    Q : Handled × (T × List Entry) → Type 0
    Q = ServedFacts mac provider T r log

    route : Handler T
    route = dispatch_route mac sha K parse_ip split_host contains cfg others r r.route

    known :
        (visitor : Identity) (v : Writer)
        → is_exempt r.path ≡ false
        → is_valid_uuid visitor.participant_id ≡ true
        → Visits mac provider r visitor
        → Q (with_log r route (some visitor) (security_headers v) (t, log))
    known visitor v asked uuid whose = handled (
        with_log-NotedFacts mac provider T r log route (some visitor) _ t (asked, uuid, whose)
          (dispatch_route-AnsweredFacts mac sha K parse_ip split_host contains cfg others r r.route
            visitor _ t uuid (security_headers-SecuredFacts v)
            (rest _ (security_headers-SecuredFacts v))))

    fresh :
        is_exempt r.path ≡ false
        → (e : IdentityError) → resolve mac provider r.submit.now r.submit.request ≡ err e
        → (b : Option Bytes) → r.random ≡ b
        → (o : Option Bytes) → generate_participant_id b ≡ o
        → Q (with_fresh mac provider r.submit.now o (with_security (with_log r route)) w (t, log))
    fresh asked e refused none same none made = no_random _ same refl refl refl
    fresh asked e refused none same (some pid) made = cc made
    fresh asked e refused (some b) same none made = cc made
    fresh asked e refused (some b) same (some pid) made =
        let (bytes, size) = random b same in
        known (new_visitor pid) _ asked
          (generate_participant_id-is_valid_uuid b pid bytes size made)
          (arriving e pid refused (ap generate_participant_id same ∙ made) refl)

    resolved :
        is_exempt r.path ≡ false
        → (x : Resolved Identity) → resolve mac provider r.submit.now r.submit.request ≡ x
        → Q (
            with_resolved mac provider r.submit.now r.random
              (with_security (with_log r route))
              x
              w
              (t, log))
    resolved asked (ok visitor) same =
        let facts =
          (resolve-IssuedFacts mac provider r.submit.now r.submit.request visitor same).0 in
        known visitor w asked facts.uuid (returning same)
    resolved asked (err e) same = fresh asked e same r.random refl _ refl
