-- ===== src/Pipeline/Coverage.antt =====
-- What each kind of step keeps of Sound: a change of the tables, of the stream, of one worker.
use model_lib.Base.{
  ℕ, ◌≡◌, ◌≤◌, ◌<◌, refl, ◌∙◌, ◌⊎◌, inl, inr, ap, arith, Bool, true, false, ◌==◌, Option, none,
  some, Bytes, Bool-cases, str_eq, str_eq_iff, str_eq_refl, if_cases,
}
use model_lib.Database.{Tables, OutboxEvent}
use model_lib.Database.Change.{Limits, Change}
use model_lib.Database.Quota.{Change-WithinLimits}
use model_lib.Database.Outbox.{first_due}
use model_lib.Database.Outbox.Steps.{settled_tables}
use model_lib.Queue.{StreamServer, Fields, Client, string_field, submission_key, JobItem}
use model_lib.Worker.{Pc, idle, starting, working, failing, finishing, acking}
use model_lib.Pipeline.{queued_count, pending_count}
use model_lib.Pipeline.Events.{Announced, Change-Announced, Change-EventIds}
use model_lib.Pipeline.Dispatching.{settled-EventIds, postponed-pending, delivered-pending}
use model_lib.Pipeline.Transport.{IsMalformed, Handed}
use model_lib.Pipeline.Moving.{Moved}
use model_lib.Pipeline.System.{System, Sound, Waiting, Covered, holds, bound, set_pc}

module _ (R : StreamServer) (lim : Limits) (x : System R) where
  open R use {Server, live, issued}

  Waiting-tables :
      {id : Bytes} (u : Tables) → Waiting R id x → Waiting R id (record x { tables = u })
  Waiting-tables u a = record {
    entry = a.entry;
    fields = a.fields;
    participant = a.participant;
    there = a.there;
    names = a.names;
    complete = a.complete;
    free = a.free;
  }

  -- A call of the database.
  pub Change-Sound :
      (u : Tables) → Change lim x.tables u → Sound R lim x → Sound R lim (record x { tables = u })
  Change-Sound u c s = record {
    within = Change-WithinLimits s.within c;
    events = Change-EventIds c s.events;
    known = s.known;
    named = s.named;
    covered = λ id q. elim (Announced.queued_before (Change-Announced c) id q) [
      | inl pending ↦ inl pending
      | inr (before, kept) ↦ still id kept (s.covered id before)
    ];
  }
    where
      still :
          (id : Bytes)
          → pending_count id x.tables ≤ pending_count id u
          → Covered R id x
          → Covered R id (record x { tables = u })
      still id kept (inl pending) = inl (omega arith)
      still id kept (inr a) = inr (Waiting-tables u a)

  -- A run of queue commands: what is gone is malformed, or in the hands of a worker that is done
  -- with it.
  pub Moved-Sound :
      (gone : Bytes → Bool) (t : Server)
      → Moved R gone x.server t
      → ((k : Bytes) (f : Fields)
          → gone k ≡ true
          → live x.server k ≡ some f
          → IsMalformed R f ⊎ ((w : ℕ) × (bound (x.pcs w) k ≡ true)))
      → Sound R lim x
      → Sound R lim (record x { server = t })
  Moved-Sound gone t m why s = record {
    within = s.within;
    events = s.events;
    known = λ w k h. m.ids k (s.known w k h);
    named = λ w j f at here.
        s.named w j f at (m.old j.stream_id f (s.known w j.stream_id (held w j at)) here);
    covered = λ id q. still id (s.covered id q);
  }
    where
      held : (w : ℕ) (j : JobItem) → x.pcs w ≡ starting j → holds (x.pcs w) j.stream_id ≡ true
      held w j at = rw at (str_eq_refl j.stream_id)

      stays : (id : Bytes) (a : Waiting R id x) → gone a.entry ≡ false
      stays id a = elim (Bool-cases (gone a.entry)) [
        | inr left ↦ left
        | inl lost ↦ elim (why a.entry a.fields lost a.there) [
          | inl (inl e) ↦ cc (e, a.names)
          | inl (inr e) ↦ cc (e, a.complete)
          | inr (w, e) ↦ cc (e, a.free w)
        ]
      ]

      still : (id : Bytes) → Covered R id x → Covered R id (record x { server = t })
      still id (inl pending) = inl pending
      still id (inr a) = inr (record {
        entry = a.entry;
        fields = a.fields;
        participant = a.participant;
        there = m.kept a.entry a.fields (stays id a) a.there;
        names = a.names;
        complete = a.complete;
        free = a.free;
      })

  -- A worker goes on: it takes a job that the stream names, or ties itself to a delivery only when
  -- the submission that the delivery names is not queued.
  pub Pc-Sound :
      (w : ℕ) (pc : Pc)
      → ((k : Bytes) → holds pc k ≡ true → issued x.server k ≡ true)
      → ((j : JobItem) (f : Fields)
          → pc ≡ starting j
          → live x.server j.stream_id ≡ some f
          → string_field f submission_key ≡ some j.submission_id)
      → ((k id : Bytes) (f : Fields)
          → bound pc k ≡ true
          → live x.server k ≡ some f
          → string_field f submission_key ≡ some id
          → 0 < queued_count id x.tables
          → bound (x.pcs w) k ≡ true)
      → Sound R lim x
      → Sound R lim (record x { pcs = set_pc w pc x.pcs })
  Pc-Sound w pc fresh job tied s = record {
    within = s.within;
    events = s.events;
    known = λ v k.
        if_cases (λ (p : Pc). holds p k ≡ true → issued x.server k ≡ true) (v == w) (λ _. fresh k)
          (λ _. s.known v k);
    named = λ v j f.
        if_cases
          (λ (p : Pc).
            p ≡ starting j
            → live x.server j.stream_id ≡ some f
            → string_field f submission_key ≡ some j.submission_id)
          (v == w) (λ _. job j f) (λ _. s.named v j f);
    covered = λ id q. still id q (s.covered id q);
  }
    where
      still :
          (id : Bytes)
          → 0 < queued_count id x.tables
          → Covered R id x
          → Covered R id (record x { pcs = set_pc w pc x.pcs })
      still id q (inl pending) = inl pending
      still id q (inr a) = inr (record {
        entry = a.entry;
        fields = a.fields;
        participant = a.participant;
        there = a.there;
        names = a.names;
        complete = a.complete;
        free = λ v.
            if_cases (λ (p : Pc). bound p a.entry ≡ false) (v == w)
              (λ _. elim (Bool-cases (bound pc a.entry)) [
                | inl now ↦ cc (a.free w, tied a.entry id a.fields now a.there a.names q)
                | inr not ↦ not
              ])
              (λ _. a.free v);
      })

  -- An event is handed over, and the transaction commits: a submission whose event is delivered has
  -- the new entry, and every other one keeps its events.
  pub Handed-Sound :
      (max_backoff now : ℕ) (locked : ℕ → Bool) (e : OutboxEvent) (old : Server)
      (failure : Option Bytes) (c : Client R)
      → first_due locked now x.tables x.tables.outbox ≡ some e
      → Handed R e old (failure, c)
      → x.server ≡ c.server
      → ((w : ℕ) (k : Bytes) → holds (x.pcs w) k ≡ true → issued old k ≡ true)
      → Sound R lim x
      → Sound R lim (record x { tables = settled_tables max_backoff now e failure x.tables })
  Handed-Sound max_backoff now locked e old (some msg) c found h here known s = record {
    within = s.within;
    events = settled-EventIds max_backoff now e x.tables (some msg) s.events;
    known = s.known;
    named = s.named;
    covered = λ id q. still id (s.covered id q);
  }
    where
      still :
          (id : Bytes)
          → Covered R id x
          → Covered R id
              (record x { tables = settled_tables max_backoff now e (some msg) x.tables })
      still id (inl pending) =
          inl (rw (postponed-pending max_backoff now e x.tables msg id) pending)
      still id (inr a) = inr (Waiting-tables _ a)
  Handed-Sound max_backoff now locked e old none c found h here known s = record {
    within = s.within;
    events = settled-EventIds max_backoff now e x.tables none s.events;
    known = s.known;
    named = s.named;
    covered = λ id q. still id (s.covered id q) (Bool-cases (str_eq e.submission_id id));
  }
    where
      refute : (p q : Bool) → (p ≡ true → q ≡ true) → q ≡ false → p ≡ false
      refute true q a b = cc (a refl, b)
      refute false q a b = refl

      not_bound :
          (pc : Pc) (k : Bytes)
          → (holds pc k ≡ true → issued old k ≡ true)
          → issued old k ≡ false
          → bound pc k ≡ false
      not_bound idle k a b = refl
      not_bound (starting j) k a b = refl
      not_bound (working j) k a b = refute _ _ a b
      not_bound (failing j) k a b = refute _ _ a b
      not_bound (finishing j) k a b = refute _ _ a b
      not_bound (acking i) k a b = refute _ _ a b

      still :
          (id : Bytes)
          → Covered R id x
          → (str_eq e.submission_id id ≡ true) ⊎ (str_eq e.submission_id id ≡ false)
          → Covered R id (record x { tables = settled_tables max_backoff now e none x.tables })
      still id _ (inl same) =
          let (k, f, there, fresh, names, complete) = h.entry refl in
          inr (record {
            entry = k;
            fields = f;
            participant = e.participant_id;
            there = rw here there;
            names = names ∙ ap some ((str_eq_iff e.submission_id id).0 same);
            complete = complete;
            free = λ w. not_bound (x.pcs w) k (known w k) fresh;
          })
      still id (inl pending) (inr other) =
          inl (
            rw (delivered-pending max_backoff now e x.tables locked id s.events found other)
              pending)
      still id (inr a) (inr other) = inr (Waiting-tables _ a)
