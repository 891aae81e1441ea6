-- ===== src/Pipeline/Moving.antt =====
-- internal/queue/queue.go: what a command does to the entries that the consumer group still hands out.
use model_lib.Base.{
  ◌≡◌, sym, ◌∙◌, ◌≢◌, ◌⊎◌, inl, inr, ap, Bool, true, false, none, some, Bytes, str_eq, str_eq_iff,
}
use model_lib.Database.{outcome, later}
use model_lib.Database.Rules.{outcome_cases}
use model_lib.Queue
use model_lib.Queue.{StreamServer, Client, Fields, Reply, ok, err, command, ack}

abbrev pub nothing : Bytes → Bool
nothing k = false

module _ (R : StreamServer) where
  open R use {Server, live, issued, xadd, xreadgroup, xautoclaim, xack, xdel}

  -- Entries outside `gone` stay, ids stay issued, and no entry comes back or changes.
  pub record Moved (gone : Bytes → Bool) (s t : Server) : Type 0 where
    pub kept : (k : Bytes) (f : Fields) → gone k ≡ false → live s k ≡ some f → live t k ≡ some f
    pub ids : (k : Bytes) → issued s k ≡ true → issued t k ≡ true
    pub old : (k : Bytes) (f : Fields) → issued s k ≡ true → live t k ≡ some f → live s k ≡ some f

  pub Moved-refl : (gone : Bytes → Bool) (s : Server) → Moved gone s s
  Moved-refl gone s = record { kept = λ k f a b. b; ids = λ k a. a; old = λ k f a b. b }

  pub Moved-trans :
      {gone : Bytes → Bool} {s t u : Server} → Moved gone s t → Moved gone t u → Moved gone s u
  Moved-trans a b = record {
    kept = λ k f g h. b.kept k f g (a.kept k f g h);
    ids = λ k h. b.ids k (a.ids k h);
    old = λ k f g h. a.old k f g (b.old k f (a.ids k g) h);
  }

  pub Moved-weaken :
      {gone : Bytes → Bool} (more : Bytes → Bool) {s t : Server}
      → ((k : Bytes) → more k ≡ false → gone k ≡ false)
      → Moved gone s t
      → Moved more s t
  Moved-weaken more w a = record {
    kept = λ k f g h. a.kept k f (w k g) h;
    ids = a.ids;
    old = a.old;
  }

  pub xadd-Moved : (f : Fields) (s : Server) → Moved nothing s (xadd f s).1
  xadd-Moved f s = record {
    kept = λ k g a h. R.xadd_others f s k (fresh k (R.live_issued s k g h)) ∙ h;
    ids = λ k h. R.xadd_issued f s k h;
    old = λ k g a h. sym (R.xadd_others f s k (fresh k a)) ∙ h;
  }
    where
      fresh : (k : Bytes) → issued s k ≡ true → (xadd f s).0 ≢ k
      fresh k h e = cc (R.xadd_fresh f s, ap (issued s) e)

  -- A command that leaves every entry.
  pub still-Moved :
      (s t : Server)
      → ((k : Bytes) → live t k ≡ live s k)
      → ((k : Bytes) → issued t k ≡ issued s k)
      → Moved nothing s t
  still-Moved s t same ids = record {
    kept = λ k f a h. same k ∙ h;
    ids = λ k h. ids k ∙ h;
    old = λ k f a h. sym (same k) ∙ h;
  }

  -- A command that may end the entry `id`.
  ending-Moved :
      (id : Bytes) (s t : Server)
      → ((k : Bytes) → id ≢ k → live t k ≡ live s k)
      → ((k : Bytes) → (live t k ≡ live s k) ⊎ (live t k ≡ none))
      → ((k : Bytes) → issued t k ≡ issued s k)
      → Moved (str_eq id) s t
  ending-Moved id s t others ends ids = record {
    kept = λ k f a h. others k (λ e. cc (a, (str_eq_iff id k).1 e)) ∙ h;
    ids = λ k h. ids k ∙ h;
    old = λ k f a h. elim (ends k) [ inl e ↦ sym e ∙ h | inr e ↦ cc (e, h) ];
  }

  -- What holds after a command, by its three outcomes.
  pub command_rule :
      {A : Type 0} (Q : Reply A × Client R → Type 0) (f : Server → A × Server) (c : Client R)
      → Q (ok (f c.server).0, record { server = (f c.server).1; script = later c.script })
      → Q (err Queue.redis_failed, record { server = c.server; script = later c.script })
      → Q (err Queue.redis_failed, record { server = (f c.server).1; script = later c.script })
      → Q (command R f c)
  unfolding command
  command_rule Q f c good bad unsure =
      outcome_cases
        (λ o. Q (
          Queue.command_by R o (f c.server)
            (record { server = c.server; script = later c.script })))
        (outcome c.script) good bad unsure

  abbrev MovesBy : {A : Type 0} → (Bytes → Bool) → Server → Reply A × Client R → Type 0
  MovesBy gone s x = Moved gone s x.1.server

  xdel-Moved : (id : Bytes) (s : Server) → Moved (str_eq id) s (xdel id s)
  xdel-Moved id s =
      ending-Moved id s (xdel id s) (R.del_others id s) (R.del_keeps_or_ends id s)
        (R.del_issued id s)

  xack-Moved : (id : Bytes) (s : Server) → Moved (str_eq id) s (xack id s)
  xack-Moved id s =
      ending-Moved id s (xack id s) (R.ack_others id s) (R.ack_keeps_or_ends id s)
        (R.ack_issued id s)

  -- Ack touches the entry that it names, and no other.
  pub ack-Moved : (id : Bytes) (c : Client R) → Moved (str_eq id) c.server (ack R id c).1.server
  unfolding ack
  ack-Moved id c =
      command_rule (λ x. Moved (str_eq id) c.server (Queue.then_delete R id x).1.server)
        (λ s. (tt, xack id s)) c
        (command_rule (λ (x : Reply (Unit {0}) × Client R). Moved (str_eq id) c.server x.1.server)
          (λ s. (tt, xdel id s)) _ (Moved-trans (xack-Moved id c.server) (xdel-Moved id _))
          (xack-Moved id c.server) (Moved-trans (xack-Moved id c.server) (xdel-Moved id _)))
        (Moved-refl _ _) (xack-Moved id c.server)
