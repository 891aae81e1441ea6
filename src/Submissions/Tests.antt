-- ===== src/Submissions/Tests.antt =====
-- An upload of one text with a byte order mark, and what it leaves.
use model_lib.Base.{
  inl, inr, sym, arith, true, false, ◌≡◌, ◌≢◌, refl, none, some, List, [], ◌∷◌, Bytes, codes,
  length, str_eq, str_eq_iff, any_of, ◌≤◌, trim_by, trim_space, trim_slashes, cut, count_where,
  update_where, find_where,
}
use model_lib.Submissions.{
  create_failed, Part, no_upload, ok, err, World, NextPart, part, Service, Submit, storage_key,
  create_submission, read_parts, take_part, take_text, take_file, save_part, store_upload, upload,
  check_request, multiple_text,
}
use model_lib.Database.{
  participant_queued_quota, served, Tables, queued, statement, direct, begin, transaction,
}
use model_lib.Submissions.History.{IsApart, create_all-PolledFacts, create_all}
use model_lib.Submissions.Polling.{PolledFacts}
use model_lib.Submissions.Succeeding.{RoomFacts, create_submission-succeeds}
use model_lib.Storage.{
  is_nul, is_visible, Chunk, more, eof, save_stream, safe_path, save_each, conclude, limited,
  commit_to, delete, validate_extension, has_suffix,
}
use model_lib.Submissions.Taking.{TakenFacts, text, read_parts-TakenFacts}
use model_lib.Base.Int.{pos}
use model_lib.Encoding.Base64.{
  encode, decode, sextets, sextets_of, join_sextets, char_of, sextet_of,
}
use model_lib.Encoding.Decimal.{digits, decimal}
use model_lib.Database
use model_lib.Database.Lifecycle.{create_submission_queued, create_locked}
use model_lib.Database.Participants.{upsert, upsert_participant}
use model_lib.Database.Statements.{admissible}
use model_lib.Identity.{
  verify_origin, verify_csrf_token, check_csrf_token, resolve, csrf_token, cookie_value,
  set_identity, is_valid_uuid, uuid_from, parse_from, parse_int64,
}
use model_lib.Identity.Tests.{alice, provider, with_token, plain_mac}
use model_lib.RateLimit.{
  allow_participant_submit, allow_ip_submit, token_bucket, script, charge, refill, stamp,
}
use model_lib.RateLimit.Memory.{key_memory, Entry}
use model_lib.Storage
use model_lib.Storage.Accepting.{whole, IsUnbroken}
use model_lib.Submissions.Filenames.{sanitize_filename, sanitize_filename-clean, is_forbidden}
use model_lib.Submissions.Readers.{strip_bom, without_bom, strip_bom-without_bom, peek}

abbrev pub service : Service
service = record {
  provider = provider;
  root = codes "/data";
  max_source_bytes = 6;
  submit_rate_per_minute = pos 10;
  submit_rate_per_hour = pos 60;
  ip_submit_rate_per_minute = pos 30;
  queue_max_depth = pos 100;
  max_queued_per_participant = pos 1;
}

abbrev pieces : List Chunk
pieces =
    record { bytes = 0xef ∷ 0xbb ∷ []; end = more }
    ∷ record { bytes = 0xbf ∷ codes "int "; end = more }
    ∷ record { bytes = codes "x;"; end = eof }
    ∷ []

abbrev pub text_part : NextPart
text_part = part (record {
  form_name = codes "source_text";
  file_name = [];
  content = pieces;
  temp = codes "/data/.tmp-1";
})

abbrev pub submit : List NextPart → Submit
submit parts = record {
  request = with_token;
  body = some parts;
  participant = alice;
  client_ip = codes "192.0.2.1";
  now = 1050;
  now_ns = 1_050_000_000_000;
  limiter_now = 1_050_000;
  redis_clock = 1_050_000;
  by_minute = served;
  by_hour = served;
  by_ip = served;
  submission_id = codes "id";
}

abbrev pub no_rows : Tables
no_rows = record { participants = []; submissions = []; outbox = []; next_outbox_id = 1 }

abbrev pub world : World
world = record {
  disk = record { files = λ k. none; faults = []; removals = [] };
  db = record { committed = no_rows; work = no_rows; script = []; now = 7 };
}

abbrev pub no_keys : Bytes → Entry
no_keys k = none

abbrev pub path : Bytes
path = codes "/data/id.c"

pub safe : safe_path (codes "/data") (storage_key (codes "id")) ≡ some path
unfolding safe_path any_of str_eq
safe = refl

pub elsewhere : path ≢ codes "/data/.tmp-1"
unfolding str_eq
elsewhere e = cc ((str_eq_iff path (codes "/data/.tmp-1")).1 e)

sanitize_filename-clean_example :
    (any_of is_forbidden (sanitize_filename (codes " ../a\\b.c ")) ≡ false)
    × (length (sanitize_filename (codes " ../a\\b.c ")) ≤ 255)
sanitize_filename-clean_example = sanitize_filename-clean (codes " ../a\\b.c ")

strip_bom-without_bom_example :
    (whole (strip_bom pieces) ≡ without_bom (whole pieces)) × IsUnbroken (strip_bom pieces)
strip_bom-without_bom_example =
    strip_bom-without_bom pieces (inl (refl, inl (refl, inr (refl, refl))))

the_mark_goes : whole (strip_bom pieces) ≡ codes "int x;"
unfolding strip_bom peek str_eq
the_mark_goes = refl

unfoldable pub uploads : Unit {0}
unfolding create_submission check_request upload store_upload read_parts take_part take_text
    take_file save_part strip_bom peek str_eq any_of trim_by trim_space trim_slashes cut
    verify_origin verify_csrf_token check_csrf_token resolve csrf_token cookie_value set_identity
    is_valid_uuid uuid_from parse_from parse_int64 encode decode sextets sextets_of join_sextets
    char_of sextet_of digits decimal allow_participant_submit allow_ip_submit token_bucket script
    charge refill stamp save_stream save_each conclude limited safe_path Storage.commit
    Database.commit commit_to delete validate_extension has_suffix begin statement direct
    transaction upsert upsert_participant create_submission_queued create_locked count_where
    update_where find_where admissible
uploads = tt

pub accepted :
    (create_submission plain_mac
      (λ c. c)
      service
      key_memory
      (submit (text_part ∷ []))
      no_keys
      world).0
    ≡ ok (record { submission_id = codes "id"; status = queued })
unfolding uploads
accepted = refl

abbrev pub after_upload : World
after_upload =
    (create_submission plain_mac (λ c. c) service key_memory (submit (text_part ∷ [])) no_keys
      world).2

-- The same request again, under another id and with a participant whose quota is used up.
abbrev again : Submit
again = record (submit (text_part ∷ [])) { submission_id = codes "id2" }

safe_again :
    safe_path (codes "/data") (storage_key again.submission_id) ≡ some (codes "/data/id2.c")
unfolding safe_path any_of str_eq
safe_again = refl

other_id : again.submission_id ≢ codes "id"
unfolding str_eq
other_id e = cc ((str_eq_iff again.submission_id (codes "id")).1 e)

not_temp : codes "/data/id2.c" ≢ codes "/data/.tmp-1"
unfolding str_eq
not_temp e = cc ((str_eq_iff (codes "/data/id2.c") (codes "/data/.tmp-1")).1 e)

-- The second call is refused: the participant has a queued submission already.
refused_again :
    (create_submission plain_mac
      (λ c. c)
      service
      key_memory
      again
      (create_submission plain_mac
        (λ c. c)
        service
        key_memory
        (submit (text_part ∷ []))
        no_keys
        world).1
      after_upload).0
    ≡ err (create_failed participant_queued_quota)
unfolding uploads
refused_again = refl

apart :
    IsApart plain_mac
      (λ c. c)
      service
      key_memory
      (codes "id")
      (again ∷ [])
      (create_submission plain_mac
        (λ c. c)
        service
        key_memory
        (submit (text_part ∷ []))
        no_keys
        world).1
      after_upload
unfolding uploads
apart = ((codes "/data/id2.c", safe_again, other_id, ((refl, refl), tt), (not_temp, tt)), tt)

create_all-PolledFacts_example :
    PolledFacts
      (λ c. c)
      (submit (text_part ∷ []))
      path
      world
      (record { submission_id = codes "id"; status = queued })
      (create_all plain_mac
        (λ c. c)
        service
        key_memory
        (submit (text_part ∷ []) ∷ again ∷ [])
        no_keys
        world).1
create_all-PolledFacts_example =
    create_all-PolledFacts plain_mac (λ c. c) service key_memory (submit (text_part ∷ [])) path
      no_keys world (record { submission_id = codes "id"; status = queued }) (again ∷ []) safe
      ((refl, refl), tt) (elsewhere, tt) accepted apart

two_texts :
    (create_submission plain_mac
      (λ c. c)
      service
      key_memory
      (submit (text_part ∷ text_part ∷ []))
      no_keys
      world).0
    ≡ err multiple_text
unfolding uploads
two_texts = refl

abbrev text_upload : Part
text_upload = record {
  form_name = codes "source_text";
  file_name = [];
  content = pieces;
  temp = codes "/data/.tmp-1";
}

clean_source :
    (any_of is_nul (without_bom (whole pieces)) ≡ false)
    × (any_of is_visible (without_bom (whole pieces)) ≡ true)
    × (length (without_bom (whole pieces)) ≡ 6)
unfolding any_of without_bom str_eq
clean_source = (refl, refl, refl)

read_parts-TakenFacts_example :
    TakenFacts
      (λ c. c)
      6
      world
      text_upload
      (without_bom (whole pieces))
      (read_parts (λ c. c) 6 (part text_upload ∷ []) no_upload world)
read_parts-TakenFacts_example =
    read_parts-TakenFacts (λ c. c) 6 world text_upload (text refl)
      (inl (refl, inl (refl, inr (refl, refl)))) refl (omega (arith, clean_source.2)) clean_source.0
      clean_source.1

passed :
    (check_request plain_mac (λ c. c) service key_memory (submit (part text_upload ∷ [])) no_keys).0
    ≡ ok tt
unfolding uploads
passed = refl

room : RoomFacts service (submit (part text_upload ∷ [])) no_rows
unfolding count_where
room = record { system = refl; quota = refl; new = refl }

create_submission-succeeds_example :
    (create_submission plain_mac
      (λ c. c)
      service
      key_memory
      (submit (part text_upload ∷ []))
      no_keys
      world).0
    ≡ ok (record { submission_id = codes "id"; status = queued })
create_submission-succeeds_example =
    create_submission-succeeds plain_mac (λ c. c) service key_memory
      (submit (part text_upload ∷ [])) path no_keys world no_rows no_rows 7 text_upload passed refl
      (text refl) (inl (refl, inl (refl, inr (refl, refl)))) (omega (arith, clean_source.2))
      clean_source.0 clean_source.1 refl refl room safe refl refl refl (λ e. elsewhere (sym e))
