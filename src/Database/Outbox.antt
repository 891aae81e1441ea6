-- ===== src/Database/Outbox.antt =====
-- internal/database/database.go: ProcessNextOutbox. The delivery is an argument, with the state
-- `W` that it changes; so is the set of events that other dispatchers hold locked.
pub mod Steps
pub mod Choosing
pub mod Dispatching
pub mod Progress
use model_lib.Base.{
  ℕ, ◌+◌, ◌*◌, ◌^◌, Bool, true, false, not, ◌&&◌, Option, none, some, List, [], ◌∷◌, Bytes, leb,
  ltb, ◌==◌, if◌then◌else◌, find_where, update_where, length, take,
}
use model_lib.Database.{
  Tables, OutboxRow, OutboxEvent, DbError, Result, ok, err, Session, Sql, ◌>>◌, begin, statement,
  commit, rolled_back,
}
use model_lib.Database.Statements.{has_id, select}

-- o.delivered_at IS NULL AND o.available_at <= NOW(), and not locked by another transaction
abbrev pub is_undelivered : OutboxRow → Bool
is_undelivered o = elim o.delivered_at [ none ↦ true | some _ ↦ false ]

abbrev pub is_due : (ℕ → Bool) → ℕ → OutboxRow → Bool
is_due locked now o = is_undelivered o && (leb o.available_at now && not (locked o.id))

-- JOIN submissions s ON s.id=o.submission_id
abbrev pub joined : Tables → OutboxRow → Option OutboxEvent
joined t o = elim (find_where (has_id o.submission_id) t.submissions) [
  | none ↦ none
  | some r ↦ some (record {
    id = o.id;
    submission_id = o.submission_id;
    participant_id = r.participant_id;
    event_type = o.event_type;
    attempt_count = o.attempt_count;
  })
]

-- ORDER BY o.id … LIMIT 1
abbrev pub earlier : Option OutboxEvent → Option OutboxEvent → Option OutboxEvent
earlier none y = y
earlier (some x) none = some x
earlier (some x) (some y) = if leb x.id y.id then some x else some y

unfoldable pub first_due : (ℕ → Bool) → ℕ → Tables → List OutboxRow → Option OutboxEvent
first_due locked now t [] = none
first_due locked now t (o ∷ rest) =
    earlier (if is_due locked now o then joined t o else none) (first_due locked now t rest)

abbrev pub min : ℕ → ℕ → ℕ
min a b = if ltb a b then a else b

-- time.Second << min(e.AttemptCount, 20), at most maxBackoff; in microseconds. An int64 of
-- nanoseconds holds 2^20 seconds.
unfoldable pub backoff_for : ℕ → ℕ → ℕ
backoff_for max_backoff attempts =
    let backoff = 1_000_000 * 2 ^ min attempts 20 in
    if ltb max_backoff backoff then max_backoff else backoff

abbrev pub clipped : Bytes → Bytes
clipped msg = if ltb 512 (length msg) then take 512 msg else msg

abbrev pub update_event :
    (ℕ → OutboxRow → OutboxRow) → (OutboxRow → Bool) → ℕ → Tables → Option (Tables × Unit {0})
update_event f p now t = some (record t { outbox = update_where p (f now) t.outbox }, tt)

abbrev pub postponed : Bytes → ℕ → ℕ → OutboxRow → OutboxRow
postponed msg backoff now o = record o {
  attempt_count = o.attempt_count + 1;
  last_error = some msg;
  available_at = now + backoff;
}

abbrev pub delivered : ℕ → OutboxRow → OutboxRow
delivered now o = record o { delivered_at = some now; last_error = none }

-- The UPDATE after the delivery, by its error, and the commit.
unfoldable pub settle : ℕ → OutboxEvent → Option Bytes → Sql Unit
settle max_backoff e (some msg) = do
  statement (
      update_event (postponed (clipped msg) (backoff_for max_backoff e.attempt_count))
        (λ o. o.id == e.id))
  commit
settle max_backoff e none = do
  statement (update_event delivered (λ o. o.id == e.id && is_undelivered o))
  commit

unfoldable pub claim_next : (ℕ → Bool) → Sql (Option OutboxEvent)
claim_next locked s =
    (begin >> statement (λ now. select (λ t. first_due locked now t t.outbox) now)) s

-- The two results of the call, and what it leaves behind.
pub record Processed (W : Type 0) : Type 0 where
  pub processed : Bool
  pub error : Option DbError
  pub session : Session
  pub world : W

abbrev error_of : Result Unit → Option DbError
error_of (ok _) = none
error_of (err e) = some e

module _ {W : Type 0} (deliver : OutboxEvent → W → Option Bytes × W) (max_backoff : ℕ) where
  abbrev settled : W → Result (Unit {0}) × Session → Processed W
  settled w (r, s) = record {
    processed = true;
    error = error_of r;
    session = rolled_back s;
    world = w;
  }

  unfoldable pub process_claimed : Result (Option OutboxEvent) → Session → W → Processed W
  process_claimed (err e) s w = record {
    processed = false;
    error = some e;
    session = rolled_back s;
    world = w;
  }
  process_claimed (ok none) s w = record {
    processed = false;
    error = none;
    session = rolled_back s;
    world = w;
  }
  process_claimed (ok (some e)) s w =
      let (failure, w') = deliver e w in settled w' (settle max_backoff e failure s)

  unfoldable pub process_next_outbox : (ℕ → Bool) → Session → W → Processed W
  unfolding process_claimed claim_next settle
  process_next_outbox locked s w = process_claimed (claim_next locked s).0 (claim_next locked s).1 w
