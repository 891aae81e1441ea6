-- ===== src/Pipeline/Transport.antt =====
-- What the queue's calls do to the entries that the consumer group still hands out.
use model_lib.Pipeline.Moving.{
  Moved, Moved-refl, Moved-trans, Moved-weaken, xadd-Moved, still-Moved, command_rule, ack-Moved,
  nothing,
}
use mathlib.Core.Path.{subst}
use model_lib.Base.{
  ◌||◌, ℕ, ◌≡◌, refl, ◌∙◌, ◌⊎◌, inl, inr, ap, arith, Bool, true, false, Option, none, some, [], ◌∷◌,
  Bytes, Bool-cases, str_eq, str_eq_iff, is_empty, if_cases,
}
use model_lib.Database.{OutboxEvent, later}
use model_lib.Queue
use model_lib.Queue.{
  StreamServer, Client, Fields, Message, JobItem, Reply, ok, err, string_field, submission_key,
  participant_key, job_fields, enqueue, parse_or_discard, claim, claim_stale,
}
use model_lib.Worker
use model_lib.Worker.{deliver, next_job}

module _ (R : StreamServer) where
  open R use {Server, live, issued, xadd, xreadgroup, xautoclaim, xack, xdel}

  abbrev pub IsMalformed : Fields → Type 0
  IsMalformed f = (string_field f submission_key ≡ none) ⊎ (string_field f participant_key ≡ none)

  -- What a worker learns from a claim: the entry of its job is there and names its submission, and
  -- only malformed entries may be gone.
  pub record JobFacts (s : Server) (x : Reply JobItem × Client R) : Type 0 where
    pub gone : Bytes → Bool
    pub moved : Moved R gone s x.1.server
    pub malformed : (k : Bytes) (f : Fields) → gone k ≡ true → live s k ≡ some f → IsMalformed f
    pub job :
        (j : JobItem)
        → x.0 ≡ ok j
        → (f : Fields) × (live x.1.server j.stream_id ≡ some f)
          × (string_field f submission_key ≡ some j.submission_id)

  no_job-JobFacts :
      (s : Server) (e : Queue.QueueError) (c : Client R)
      → Moved R nothing s c.server
      → JobFacts s (err e, c)
  no_job-JobFacts s e c a = record {
    gone = nothing;
    moved = a;
    malformed = λ k f g h. cc;
    job = λ j g. cc;
  }

  discarded-JobFacts :
      (s : Server) (m : Message) (c : Client R) (y : Reply (Unit {0}) × Client R)
      → Moved R nothing s c.server
      → Moved R (str_eq m.id) c.server y.1.server
      → live s m.id ≡ some m.values
      → IsMalformed m.values
      → JobFacts s (Queue.discarded R y)
  discarded-JobFacts s m c (err e, d) a b here bad = record {
    gone = str_eq m.id;
    moved = Moved-trans R (Moved-weaken R _ (λ k h. refl) a) b;
    malformed = λ k f g h. subst IsMalformed (same k f g h) bad;
    job = λ j g. cc;
  }
    where
      same : (k : Bytes) (f : Fields) → str_eq m.id k ≡ true → live s k ≡ some f → m.values ≡ f
      same k f g h = cc (here, h, ap (live s) ((str_eq_iff m.id k).0 g))
  discarded-JobFacts s m c (ok u, d) a b here bad = record {
    gone = str_eq m.id;
    moved = Moved-trans R (Moved-weaken R _ (λ k h. refl) a) b;
    malformed = λ k f g h. subst IsMalformed (same k f g h) bad;
    job = λ j g. cc;
  }
    where
      same : (k : Bytes) (f : Fields) → str_eq m.id k ≡ true → live s k ≡ some f → m.values ≡ f
      same k f g h = cc (here, h, ap (live s) ((str_eq_iff m.id k).0 g))

  item_or_discard-JobFacts :
      (s : Server) (m : Message) (c : Client R) (sid pid : Option Bytes)
      → Moved R nothing s c.server
      → live s m.id ≡ some m.values
      → string_field m.values submission_key ≡ sid
      → string_field m.values participant_key ≡ pid
      → JobFacts s (Queue.item_or_discard R m sid pid c)
  item_or_discard-JobFacts s m c (some sid) (some pid) a here e f = record {
    gone = nothing;
    moved = a;
    malformed = λ k g h. cc;
    job = λ j g.
        let same : m.id ≡ j.stream_id = cc (ap stream_of g) in
        let named : some sid ≡ some j.submission_id = cc (ap submission_of g) in
        (
          m.values,
          subst (λ k. live c.server k ≡ some m.values) same (a.kept m.id m.values refl here),
          e ∙ named,
        );
  }
    where
      stream_of : Reply JobItem → Bytes
      stream_of (ok j) = j.stream_id
      stream_of (err _) = []

      submission_of : Reply JobItem → Option Bytes
      submission_of (ok j) = some j.submission_id
      submission_of (err _) = none
  item_or_discard-JobFacts s m c (some sid) none a here e f =
      discarded-JobFacts s m c _ a (ack-Moved R m.id c) here (inr f)
  item_or_discard-JobFacts s m c none pid a here e f =
      discarded-JobFacts s m c _ a (ack-Moved R m.id c) here (inl e)

  parse_or_discard-JobFacts :
      (s : Server) (m : Message) (c : Client R)
      → Moved R nothing s c.server
      → live s m.id ≡ some m.values
      → JobFacts s (parse_or_discard R m c)
  unfolding parse_or_discard
  parse_or_discard-JobFacts s m c a here = item_or_discard-JobFacts s m c _ _ a here refl refl

  received-JobFacts :
      (s : Server) (x : Reply (Option Message) × Client R)
      → Moved R nothing s x.1.server
      → ((m : Message) → x.0 ≡ ok (some m) → live s m.id ≡ some m.values)
      → JobFacts s (Queue.received R x)
  received-JobFacts s (ok none, c) a h = no_job-JobFacts s _ c a
  received-JobFacts s (ok (some m), c) a h = parse_or_discard-JobFacts s m c a (h m refl)
  received-JobFacts s (err e, c) a h = no_job-JobFacts s e c a

  claim-JobFacts : (c : Client R) → JobFacts c.server (claim R c)
  unfolding claim
  claim-JobFacts c =
      command_rule R (λ x. JobFacts c.server (Queue.received R x)) xreadgroup c
        (received-JobFacts c.server
          (
            ok (xreadgroup c.server).0,
            record { server = (xreadgroup c.server).1; script = later c.script },
          )
          moved (λ m e. R.read_live c.server m (cc e)))
        (received-JobFacts c.server (err Queue.redis_failed, _) (Moved-refl R nothing c.server)
          (λ m e. cc))
        (received-JobFacts c.server (err Queue.redis_failed, _) moved (λ m e. cc))
    where
      moved : Moved R nothing c.server (xreadgroup c.server).1
      moved = still-Moved R c.server _ (R.read_keeps c.server) (R.read_issued c.server)

  claim_stale-JobFacts : (idle : ℕ) (c : Client R) → JobFacts c.server (claim_stale R idle c)
  unfolding claim_stale
  claim_stale-JobFacts idle c =
      command_rule R (λ x. JobFacts c.server (Queue.received R x)) (xautoclaim idle) c
        (received-JobFacts c.server
          (
            ok (xautoclaim idle c.server).0,
            record { server = (xautoclaim idle c.server).1; script = later c.script },
          )
          moved (λ m e. R.claim_live idle c.server m (cc e)))
        (received-JobFacts c.server (err Queue.redis_failed, _) (Moved-refl R nothing c.server)
          (λ m e. cc))
        (received-JobFacts c.server (err Queue.redis_failed, _) moved (λ m e. cc))
    where
      moved : Moved R nothing c.server (xautoclaim idle c.server).1
      moved = still-Moved R c.server _ (R.claim_keeps idle c.server) (R.claim_issued idle c.server)

  or_claim-JobFacts :
      (s : Server) (x : Reply JobItem × Client R) → JobFacts s x → JobFacts s (Worker.or_claim R x)
  or_claim-JobFacts s (ok j, c) f = f
  or_claim-JobFacts s (err Queue.invalid_item, c) f = f
  or_claim-JobFacts s (err Queue.redis_failed, c) f = f
  or_claim-JobFacts s (err Queue.no_job, c) f = record {
    gone = λ k. f.gone k || g.gone k;
    moved =
        Moved-trans R (Moved-weaken R _ (λ k h. ground arith) f.moved)
          (Moved-weaken R _ (λ k h. ground arith) g.moved);
    malformed = λ k v h a. elim (Bool-cases (f.gone k)) [
      | inl first ↦ f.malformed k v first a
      | inr left ↦ g.malformed k v (ground arith) (f.moved.kept k v left a)
    ];
    job = g.job;
  }
    where
      g : JobFacts c.server (claim R c)
      g = claim-JobFacts c

  -- The claims at the head of consumeLoop end no entry but a malformed one, and the entry of a job
  -- that they return is still there and names the submission of the job.
  pub next_job-JobFacts : (idle : ℕ) (c : Client R) → JobFacts c.server (next_job R idle c)
  unfolding next_job
  next_job-JobFacts idle c = or_claim-JobFacts c.server _ (claim_stale-JobFacts idle c)

  submission_of_job :
      (sid pid : Bytes)
      → is_empty sid ≡ false
      → string_field (job_fields sid pid) submission_key ≡ some sid
  unfolding string_field str_eq
  submission_of_job [] pid h = cc
  submission_of_job (c ∷ cs) pid h = refl

  participant_of_job :
      (sid pid : Bytes)
      → is_empty pid ≡ false
      → string_field (job_fields sid pid) participant_key ≡ some pid
  unfolding string_field str_eq
  participant_of_job sid [] h = cc
  participant_of_job sid (c ∷ cs) h = refl

  -- What a receiver's answer tells of the stream: nothing is gone, and an event that was handed over
  -- has a new entry that names it.
  pub record Handed (e : OutboxEvent) (s : Server) (x : Option Bytes × Client R) : Type 0 where
    pub moved : Moved R nothing s x.1.server
    pub entry :
        x.0 ≡ none
        → (k : Bytes) × (f : Fields) × (live x.1.server k ≡ some f)
          × (issued s k ≡ false)
          × (string_field f submission_key ≡ some e.submission_id)
          × (string_field f participant_key ≡ some e.participant_id)

  -- A delivery ends no entry, and if it answers without an error there is a new entry, under an id
  -- not given before, from which stringField reads the submission and the participant of the event.
  pub deliver-Handed :
      (message : Bytes) (e : OutboxEvent) (c : Client R) → Handed e c.server (deliver R message e c)
  unfolding deliver enqueue
  deliver-Handed message e c =
      if_cases Q (is_empty e.submission_id) (λ _. no_entry (Moved-refl R _ _))
        λ a.
          if_cases Q (is_empty e.participant_id) (λ _. no_entry (Moved-refl R _ _))
            λ b.
              command_rule R Q (xadd (job_fields e.submission_id e.participant_id)) c
                (record {
                  moved = xadd-Moved R _ c.server;
                  entry = λ _. (
                    _,
                    _,
                    R.xadd_live _ _,
                    R.xadd_fresh _ _,
                    submission_of_job e.submission_id e.participant_id a,
                    participant_of_job e.submission_id e.participant_id b,
                  );
                })
                (no_entry (Moved-refl R _ _)) (no_entry (xadd-Moved R _ c.server))
    where
      Q : Reply Bytes × Client R → Type 0
      Q x = Handed e c.server (Worker.delivery R message x)

      no_entry :
          {d : Client R} → Moved R nothing c.server d.server → Handed e c.server (some message, d)
      no_entry a = record { moved = a; entry = λ h. cc }
