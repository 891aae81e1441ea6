-- ===== src/Web/Headers.antt =====
-- internal/web/web.go: every handler keeps the security headers, and what it answers without a visitor.
use model_lib.Base.{
  ℕ, ◌==◌, ◌≡◌, ◌≢◌, refl, arith, Bool, true, false, not, ◌&&◌, leb, some, if_cases, Bytes, codes,
  str_eq,
}
use model_lib.Database.{DbError}
use model_lib.Storage.{StorageError}
use model_lib.Submissions.{
  Answer, SubmissionError, csrf_invalid, origin_not_allowed, rate_limited, body_too_large,
  unknown_part, multiple_text, both_sources, multiple_files, invalid_extension, no_source,
  upsert_failed, store_failed, create_failed, lookup_failed, not_owned, CreateResult,
  SubmissionResult,
}
use model_lib.Web.Log.{log_writer_of, call_all, call_log_writer}
use model_lib.Web.{
  index_page, result_page, no_body, json_error, json_created, json_submission, plain, Writer,
  Response, Body, set_header, respond, write_json, http_error, retry_after_header, rate_limit_json,
  create_error_json, created_json, submission_json, submission_page, database_error_json,
  store_error_json, Readiness, handle_readyz, handle_healthz,
}
use model_lib.Web.Middleware.{security_headers}

-- The headers that securityHeaders sets.
pub record SecuredFacts (w : Writer) : Type 0 where
  pub frame : w.header (codes "X-Frame-Options") ≡ codes "DENY"
  pub content_type : w.header (codes "X-Content-Type-Options") ≡ codes "nosniff"
  pub referrer : w.header (codes "Referrer-Policy") ≡ codes "strict-origin-when-cross-origin"
  pub content :
      w.header (codes "Content-Security-Policy")
      ≡ codes
          "default-src 'self'; style-src 'self' 'unsafe-inline'; script-src 'self'; img-src 'self'; connect-src 'self'; form-action 'self'; frame-ancestors 'none'"

pub security_headers-SecuredFacts : (w : Writer) → SecuredFacts (security_headers w)
unfolding security_headers str_eq
security_headers-SecuredFacts w = record {
  frame = refl;
  content_type = refl;
  referrer = refl;
  content = refl;
}

-- A response with these headers that does not ask for an identity.
pub record ProperFacts (r : Response) : Type 0 where
  pub secured : SecuredFacts r.writer
  pub known : r.status ≢ 401
  pub sent : (log_writer_of r).response_writer ≡ some r.status
  pub logged : (log_writer_of r).status_code ≡ r.status

set_header-SecuredFacts :
    (name value : Bytes) (w : Writer)
    → str_eq name (codes "X-Frame-Options") ≡ false
    → str_eq name (codes "X-Content-Type-Options") ≡ false
    → str_eq name (codes "Referrer-Policy") ≡ false
    → str_eq name (codes "Content-Security-Policy") ≡ false
    → SecuredFacts w
    → SecuredFacts (set_header name value w)
set_header-SecuredFacts name value w f c r p h = record {
  frame = rw f h.frame;
  content_type = rw c h.content_type;
  referrer = rw r h.referrer;
  content = rw p h.content;
}

typed-SecuredFacts :
    (value : Bytes) (w : Writer)
    → SecuredFacts w
    → SecuredFacts (set_header (codes "Content-Type") value w)
unfolding str_eq
typed-SecuredFacts value w h =
    set_header-SecuredFacts (codes "Content-Type") value w refl refl refl refl h

delayed-SecuredFacts :
    (value : Bytes) (w : Writer) → SecuredFacts w → SecuredFacts (retry_after_header value w)
unfolding str_eq
delayed-SecuredFacts value w h =
    set_header-SecuredFacts (codes "Retry-After") value w refl refl refl refl h

-- A status that a handler gives a body: not 401, final, and 200 for a page.
abbrev pub is_proper : ℕ → Body → Bool
is_proper n (index_page bytes mib token) = n == 200
is_proper n (result_page id endpoint) = n == 200
is_proper n b = leb 200 n && not (n == 401)

is_other_status : (n : ℕ) (b : Body) → is_proper n b ≡ true → n ≢ 401
is_other_status n (index_page bytes mib token) h e = ground arith
is_other_status n (result_page id endpoint) h e = ground arith
is_other_status n no_body h e = ground arith
is_other_status n (json_error t) h e = ground arith
is_other_status n (json_created r) h e = ground arith
is_other_status n (json_submission r) h e = ground arith
is_other_status n (plain t) h e = ground arith

-- What is written of such a response: the status, to the client and to the log.
is_written :
    (w : Writer) (n : ℕ) (b : Body)
    → is_proper n b ≡ true
    → ((log_writer_of (respond w n b)).response_writer ≡ some n)
      × ((log_writer_of (respond w n b)).status_code ≡ n)
unfolding log_writer_of call_all call_log_writer
is_written w n (index_page bytes mib token) h = ground arith
is_written w n (result_page id endpoint) h = ground arith
is_written w n no_body h = ground arith
is_written w n (json_error t) h = ground arith
is_written w n (json_created r) h = ground arith
is_written w n (json_submission r) h = ground arith
is_written w n (plain t) h = ground arith

pub respond-ProperFacts :
    (w : Writer) (n : ℕ) (b : Body)
    → SecuredFacts w
    → is_proper n b ≡ true
    → ProperFacts (respond w n b)
respond-ProperFacts w n b h other = record {
  secured = h;
  known = is_other_status n b other;
  sent = (is_written w n b other).0;
  logged = (is_written w n b other).1;
}

pub json-ProperFacts :
    (w : Writer) (n : ℕ) (b : Body)
    → SecuredFacts w
    → is_proper n b ≡ true
    → ProperFacts (write_json w n b)
json-ProperFacts w n b h other = respond-ProperFacts _ n b (typed-SecuredFacts _ w h) other

pub typed-ProperFacts :
    (w : Writer) (n : ℕ) (type : Bytes) (b : Body)
    → SecuredFacts w
    → is_proper n b ≡ true
    → ProperFacts (respond (set_header (codes "Content-Type") type w) n b)
typed-ProperFacts w n type b h other = respond-ProperFacts _ n b (typed-SecuredFacts type w h) other

pub http_error-ProperFacts :
    (w : Writer) (text : Bytes) (n : ℕ)
    → SecuredFacts w
    → is_proper n (plain text) ≡ true
    → ProperFacts (http_error w text n)
unfolding str_eq
http_error-ProperFacts w text n h other =
    let typed = typed-SecuredFacts (codes "text/plain; charset=utf-8") w h in
    respond-ProperFacts _ n _
      (record {
        frame = typed.frame;
        content_type = refl;
        referrer = typed.referrer;
        content = typed.content;
      })
      other

module _ (w : Writer) (h : SecuredFacts w) where
  delayed-ProperFacts :
      (value : Bytes) (n : ℕ) (b : Body)
      → is_proper n b ≡ true
      → ProperFacts (write_json (retry_after_header value w) n b)
  delayed-ProperFacts value n b other =
      json-ProperFacts _ n b (delayed-SecuredFacts value w h) other

  pub rate_limit-ProperFacts : (n : ℕ) → ProperFacts (rate_limit_json w n)
  rate_limit-ProperFacts n = delayed-ProperFacts _ 429 _ refl

  database_error-ProperFacts : (e : DbError) → ProperFacts (database_error_json w e)
  database_error-ProperFacts DbError.global_capacity = delayed-ProperFacts _ 503 _ refl
  database_error-ProperFacts DbError.participant_queued_quota = json-ProperFacts w 409 _ h refl
  database_error-ProperFacts e = json-ProperFacts w 500 _ h refl

  store_error-ProperFacts : (e : StorageError) → ProperFacts (store_error_json w e)
  store_error-ProperFacts StorageError.empty_source = json-ProperFacts w 400 _ h refl
  store_error-ProperFacts StorageError.size_exceeded = json-ProperFacts w 413 _ h refl
  store_error-ProperFacts StorageError.contains_nul = json-ProperFacts w 400 _ h refl
  store_error-ProperFacts e = json-ProperFacts w 500 _ h refl

  create_error-ProperFacts : (e : SubmissionError) → ProperFacts (create_error_json w e)
  unfolding create_error_json
  create_error-ProperFacts (rate_limited n) = rate_limit-ProperFacts n
  create_error-ProperFacts origin_not_allowed = json-ProperFacts w 403 _ h refl
  create_error-ProperFacts csrf_invalid = json-ProperFacts w 403 _ h refl
  create_error-ProperFacts body_too_large = delayed-ProperFacts _ 413 _ refl
  create_error-ProperFacts both_sources = json-ProperFacts w 400 _ h refl
  create_error-ProperFacts no_source = json-ProperFacts w 400 _ h refl
  create_error-ProperFacts invalid_extension = json-ProperFacts w 400 _ h refl
  create_error-ProperFacts multiple_files = json-ProperFacts w 400 _ h refl
  create_error-ProperFacts multiple_text = json-ProperFacts w 400 _ h refl
  create_error-ProperFacts unknown_part = json-ProperFacts w 400 _ h refl
  create_error-ProperFacts (store_failed e) = store_error-ProperFacts e
  create_error-ProperFacts (create_failed e) = database_error-ProperFacts e
  create_error-ProperFacts (upsert_failed e) = database_error-ProperFacts e
  create_error-ProperFacts (lookup_failed e) = database_error-ProperFacts e
  create_error-ProperFacts e = json-ProperFacts w 500 _ h refl

  pub created-ProperFacts : (a : Answer CreateResult) → ProperFacts (created_json w a)
  created-ProperFacts (Answer.ok r) = json-ProperFacts w 202 _ h refl
  created-ProperFacts (Answer.err e) = create_error-ProperFacts e

  pub submission-ProperFacts : (a : Answer SubmissionResult) → ProperFacts (submission_json w a)
  submission-ProperFacts (Answer.ok row) = json-ProperFacts w 200 _ h refl
  submission-ProperFacts (Answer.err not_owned) = json-ProperFacts w 404 _ h refl
  submission-ProperFacts (Answer.err e) = json-ProperFacts w 500 _ h refl

  pub page-ProperFacts :
      (id : Bytes) (a : Answer SubmissionResult) → ProperFacts (submission_page w id a)
  page-ProperFacts id (Answer.ok row) = typed-ProperFacts w 200 _ _ h refl
  page-ProperFacts id (Answer.err not_owned) = http_error-ProperFacts w _ 404 h refl
  page-ProperFacts id (Answer.err e) = http_error-ProperFacts w _ 500 h refl

  pub healthz-ProperFacts : ProperFacts (handle_healthz w)
  unfolding handle_healthz
  healthz-ProperFacts = typed-ProperFacts w 200 _ _ h refl

  pub readyz-ProperFacts : (r : Readiness) → ProperFacts (handle_readyz r w)
  unfolding handle_readyz
  readyz-ProperFacts r =
      if_cases ProperFacts (not r.db_reached) (λ _. typed-ProperFacts w 503 _ _ h refl)
        (λ _.
          if_cases ProperFacts (not r.redis_reached) (λ _. typed-ProperFacts w 503 _ _ h refl)
            (λ _.
              if_cases ProperFacts (not r.temp_made) (λ _. typed-ProperFacts w 503 _ _ h refl)
                (λ _.
                  if_cases ProperFacts (not r.temp_closed) (λ _. respond-ProperFacts w 503 _ h refl)
                    (λ _. typed-ProperFacts w 200 _ _ h refl))))
