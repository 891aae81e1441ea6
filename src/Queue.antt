-- ===== src/Queue.antt =====
-- internal/queue/queue.go: the Redis Stream that carries submissions to the workers. Redis is a
-- parameter, the record StreamServer, which states what the stream commands document; the client's
-- answers are a script, as for the database. A deadline that passes is a call without an answer.
pub mod Memory
use model_lib.Base.{
  ℕ, Bool, true, false, Option, none, some, List, [], ◌∷◌, Bytes, codes, ◌≡◌, ◌≢◌, ◌⊎◌, str_eq,
  is_empty, if◌then◌else◌, take,
}
use model_lib.Database.{Outcome, served, refused, lost, outcome, later}

-- A value of the map[string]any of a message: a string, or another type.
pub data Value : Type 0 where
  text : Bytes → Value
  other : Value

abbrev pub Fields : Type 0
Fields = List (Bytes × Value)

-- redis.XMessage
pub record Message : Type 0 where
  pub id : Bytes
  pub values : Fields

-- The stream and its consumer group. `live` is the entry under an id, as long as the group will
-- still hand it out: it is in the stream, and not yet delivered or pending. `issued` tells the ids
-- that XADD has given; an id is given once.
pub record StreamServer : Type 1 where
  pub Server : Type 0
  pub live : Server → Bytes → Option Fields
  pub issued : Server → Bytes → Bool
  pub xadd : Fields → Server → Bytes × Server
  pub xreadgroup : Server → Option Message × Server
  pub xautoclaim : ℕ → Server → Option Message × Server
  pub xack : Bytes → Server → Server
  pub xdel : Bytes → Server → Server
  pub xadd_fresh : (f : Fields) (s : Server) → issued s (xadd f s).0 ≡ false
  pub xadd_live : (f : Fields) (s : Server) → live (xadd f s).1 (xadd f s).0 ≡ some f
  pub xadd_others :
      (f : Fields) (s : Server) (id : Bytes)
      → (xadd f s).0 ≢ id
      → (live (xadd f s).1 id ≡ live s id)
  pub xadd_issued :
      (f : Fields) (s : Server) (id : Bytes) → issued s id ≡ true → issued (xadd f s).1 id ≡ true
  pub live_issued : (s : Server) (id : Bytes) (f : Fields) → live s id ≡ some f → issued s id ≡ true
  pub read_live :
      (s : Server) (m : Message) → (xreadgroup s).0 ≡ some m → live s m.id ≡ some m.values
  pub read_keeps : (s : Server) (id : Bytes) → live (xreadgroup s).1 id ≡ live s id
  pub read_issued : (s : Server) (id : Bytes) → issued (xreadgroup s).1 id ≡ issued s id
  pub claim_live :
      (idle : ℕ) (s : Server) (m : Message)
      → (xautoclaim idle s).0 ≡ some m
      → live s m.id ≡ some m.values
  pub claim_keeps : (idle : ℕ) (s : Server) (id : Bytes) → live (xautoclaim idle s).1 id ≡ live s id
  pub claim_issued :
      (idle : ℕ) (s : Server) (id : Bytes) → issued (xautoclaim idle s).1 id ≡ issued s id
  pub ack_others : (k : Bytes) (s : Server) (id : Bytes) → k ≢ id → live (xack k s) id ≡ live s id
  pub ack_keeps_or_ends :
      (k : Bytes) (s : Server) (id : Bytes)
      → (live (xack k s) id ≡ live s id) ⊎ (live (xack k s) id ≡ none)
  pub ack_issued : (k : Bytes) (s : Server) (id : Bytes) → issued (xack k s) id ≡ issued s id
  pub del_others : (k : Bytes) (s : Server) (id : Bytes) → k ≢ id → live (xdel k s) id ≡ live s id
  pub del_keeps_or_ends :
      (k : Bytes) (s : Server) (id : Bytes)
      → (live (xdel k s) id ≡ live s id) ⊎ (live (xdel k s) id ≡ none)
  pub del_issued : (k : Bytes) (s : Server) (id : Bytes) → issued (xdel k s) id ≡ issued s id

-- JobItem
pub record JobItem : Type 0 where
  pub stream_id : Bytes
  pub submission_id : Bytes
  pub participant_id : Bytes

-- ErrNoJob, ErrInvalidItem, or an error of the client.
pub data QueueError : Type 0 where
  no_job invalid_item redis_failed : QueueError

pub data Reply (A : Type 0) : Type 0 where
  ok : A → Reply A
  err : QueueError → Reply A

abbrev lookup : Bytes → Fields → Option Value
lookup key [] = none
lookup key ((k, v) ∷ rest) = if str_eq k key then some v else lookup key rest

abbrev non_empty_text : Option Value → Option Bytes
non_empty_text (some (text [])) = none
non_empty_text (some (text (c ∷ cs))) = some (c ∷ cs)
non_empty_text _ = none

-- stringField, with its second result as the constructor.
unfoldable pub string_field : Fields → Bytes → Option Bytes
string_field values key = non_empty_text (lookup key values)

abbrev pub submission_key : Bytes
submission_key = codes "submission_id"

abbrev pub participant_key : Bytes
participant_key = codes "participant_id"

-- the Values of XAddArgs
abbrev pub job_fields : Bytes → Bytes → Fields
job_fields submission participant =
    (submission_key, text submission) ∷ (participant_key, text participant) ∷ []

-- isBusyGroup
unfoldable pub is_busy_group : Bytes → Bool
is_busy_group message = str_eq (take 9 message) (codes "BUSYGROUP")

module _ (R : StreamServer) where
  open R use {Server, xadd, xreadgroup, xautoclaim, xack, xdel}

  pub record Client : Type 0 where
    pub server : Server
    pub script : List Outcome

  abbrev consume : Client → Client
  consume c = record c { script = later c.script }

  -- A command that changes the server unless it was refused, and answers only if it was served.
  abbrev pub command_by : {A : Type 0} → Outcome → A × Server → Client → Reply A × Client
  command_by served (a, s) c = (ok a, record c { server = s })
  command_by refused (a, s) c = (err redis_failed, c)
  command_by lost (a, s) c = (err redis_failed, record c { server = s })

  unfoldable pub command : {A : Type 0} → (Server → A × Server) → Client → Reply A × Client
  command f c = command_by (outcome c.script) (f c.server) (consume c)

  unfoldable pub enqueue : Bytes → Bytes → Client → Reply Bytes × Client
  enqueue submission participant c =
      if is_empty submission
      then (err invalid_item, c)
      else if is_empty participant
      then (err invalid_item, c)
      else command (xadd (job_fields submission participant)) c

  abbrev pub then_delete : Bytes → Reply (Unit {0}) × Client → Reply (Unit {0}) × Client
  then_delete id (ok _, c) = command (λ s. (tt, xdel id s)) c
  then_delete id (err e, c) = (err e, c)

  unfoldable pub ack : Bytes → Client → Reply (Unit {0}) × Client
  ack id c = then_delete id (command (λ s. (tt, xack id s)) c)

  abbrev pub discarded : Reply (Unit {0}) × Client → Reply JobItem × Client
  discarded (ok _, c) = (err invalid_item, c)
  discarded (err e, c) = (err e, c)

  abbrev pub item_or_discard :
      Message → Option Bytes → Option Bytes → Client → Reply JobItem × Client
  item_or_discard m (some sid) (some pid) c =
      (ok (record { stream_id = m.id; submission_id = sid; participant_id = pid }), c)
  item_or_discard m _ _ c = discarded (ack m.id c)

  unfoldable pub parse_or_discard : Message → Client → Reply JobItem × Client
  parse_or_discard m c =
      item_or_discard m (string_field m.values submission_key)
        (string_field m.values participant_key) c

  abbrev pub received : Reply (Option Message) × Client → Reply JobItem × Client
  received (ok none, c) = (err no_job, c)
  received (ok (some m), c) = parse_or_discard m c
  received (err e, c) = (err e, c)

  unfoldable pub claim : Client → Reply JobItem × Client
  claim c = received (command xreadgroup c)

  unfoldable pub claim_stale : ℕ → Client → Reply JobItem × Client
  claim_stale min_idle c = received (command (xautoclaim min_idle) c)

-- EnsureConsumerGroup, by the error text of XGROUP CREATE.
unfoldable pub ensure_consumer_group : Option Bytes → Reply (Unit {0})
unfolding is_busy_group
ensure_consumer_group none = ok tt
ensure_consumer_group (some message) = if is_busy_group message then ok tt else err redis_failed
