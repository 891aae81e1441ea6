-- ===== src/Web/Tests.antt =====
-- Requests to the server.
use model_lib.RateLimit.{KeyStore}
use model_lib.Submissions.{World}
use model_lib.Web.Answering.{IsOpen}
use model_lib.Web.Log.{
  render_template, failed_late, Call, write_header, call_all, new_log_writer, settled,
}
use model_lib.Web.Logging.{LogFacts, serve-LogFacts, first_header, first_call, call_all-StatusFacts}
use model_lib.Base.{
  ℕ, ◌≡◌, refl, arith, true, some, List, [], ◌∷◌, Bytes, codes, length, str_eq, All,
}
use model_lib.Identity.{new_cookie_provider}
use model_lib.Identity.Tests.{alice_id, plain_mac, any_ip, before_port, never, random}
use model_lib.Web.{
  Writer, Response, Poll, respond, no_body, handle_get_submission, handle_submission_page,
}
use model_lib.Web.Middleware.{Incoming, index, is_exempt, serve}
use mathlib.Core.Path.{subst}
use model_lib.Base.Int.{pos}
use model_lib.Config.Tests.{default_config}
use model_lib.Database.{Session, served}
use model_lib.Database.Reading.{rows_of}
use model_lib.Database.Statements.{new_submission}
use model_lib.Encoding.Base64.{IsByte}
use model_lib.RateLimit.Memory.{key_memory}
use model_lib.Submissions.Tests.{submit, world, no_rows, no_keys}
use model_lib.Web.Headers.{respond-ProperFacts}
use model_lib.Web.Privacy.{SameForFacts, handle_get_submission-private}

abbrev empty_writer : Writer
empty_writer = record { header = λ n. []; cookies = [] }

abbrev poll : Poll
poll = record { submission_id = codes "s"; now = 0; redis_clock = 0; outcome = served }

-- The start page, with no cookie that is valid.
abbrev visit : Incoming
visit = record {
  method = codes "GET";
  path = codes "/";
  route = index;
  submit = submit [];
  poll = poll;
  ready = record { db_reached = true; redis_reached = true; temp_made = true; temp_closed = true };
  random = some random;
  log_uuid = codes "4f6e0c1a-0000-4000-8000-000000000000";
}

-- The router's own answer.
abbrev nothing_here : Incoming → Writer → Response
nothing_here r w = respond w 404 no_body

random_bytes : (b : Bytes) → visit.random ≡ some b → All IsByte b × (length b ≡ 16)
random_bytes b h = subst (λ (c : Bytes). All IsByte c × (length c ≡ 16)) same (omega arith, refl)
  where
    same : random ≡ b
    same = cc h

not_exempt : is_exempt visit.path ≡ true → IsOpen visit.route
unfolding str_eq
not_exempt h = cc h

serve-LogFacts_example :
    LogFacts plain_mac
      (new_cookie_provider default_config)
      (KeyStore.Store key_memory × World)
      visit
      []
      (serve plain_mac
        (λ c. c)
        key_memory
        any_ip
        before_port
        never
        default_config
        nothing_here
        visit
        empty_writer
        ((no_keys, world), []))
serve-LogFacts_example =
    serve-LogFacts plain_mac (λ c. c) key_memory ℕ Bytes any_ip before_port never default_config
      nothing_here visit empty_writer (no_keys, world) [] random_bytes not_exempt
      (λ v h. respond-ProperFacts v 404 no_body h refl)

-- A page that fails late: the log has 500, and the client 200.
abbrev late : List Call
late = render_template failed_late

call_all-StatusFacts_example :
    ((call_all late new_log_writer).status_code ≡ first_header late)
    × (settled (call_all late new_log_writer).response_writer ≡ first_call late)
    × ((code : ℕ) (rest : List Call)
        → late ≡ write_header code ∷ rest
        → (call_all late new_log_writer).status_code
          ≡ settled (call_all late new_log_writer).response_writer)
call_all-StatusFacts_example = call_all-StatusFacts late (refl, (refl, (refl, tt)))

abbrev without_row : Session
without_row = record { committed = no_rows; work = no_rows; script = []; now = 7 }

-- A submission of bob's has the id that alice asks for.
abbrev with_row : Session
with_row = record without_row {
  committed = record no_rows {
    submissions = new_submission (codes "s") (codes "bob") [] (codes "s.c") 5 [] 3 ∷ [];
  };
}

same_for_alice : SameForFacts alice_id.participant_id with_row without_row
unfolding rows_of str_eq
same_for_alice = record { scripts = refl; rows = refl }

handle_get_submission-private_example :
    ((handle_get_submission key_memory
        (pos 60)
        poll
        (some alice_id)
        empty_writer
        no_keys
        with_row).0
      ≡ (handle_get_submission key_memory
          (pos 60)
          poll
          (some alice_id)
          empty_writer
          no_keys
          without_row).0)
    × ((handle_submission_page poll.submission_id (some alice_id) empty_writer with_row).0
        ≡ (handle_submission_page poll.submission_id (some alice_id) empty_writer without_row).0)
handle_get_submission-private_example =
    handle_get_submission-private key_memory (pos 60) poll alice_id empty_writer no_keys with_row
      without_row same_for_alice
