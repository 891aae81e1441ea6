-- ===== src/Database/Outbox/Steps.antt =====
-- What one ProcessNextOutbox does to the committed tables and to the receiver, on every branch.
use mathlib.Core.Path.{ap₂}
use model_lib.Base.{
  ℕ, ◌≡◌, refl, sym, ap, ◌∙◌, arith, Bool, Option, none, some, List, Bytes, ◌==◌, ◌&&◌,
  update_where, ◌⊎◌, inl, inr,
}
use model_lib.Database.{Tables, OutboxRow, OutboxEvent, Result, ok, err, Session}
use model_lib.Database.Outbox.{
  is_undelivered, first_due, backoff_for, clipped, update_event, postponed, delivered, settle,
  claim_next, process_claimed, process_next_outbox,
}
use model_lib.Database.Rules.{Answer, begin_rule, commit_last, statement_rule, query_last, working}

abbrev pub with_outbox : Tables → List OutboxRow → Tables
with_outbox t rows = record t { outbox = rows }

-- The committed tables after the UPDATE for event `e`, by the error of its delivery.
abbrev pub settled_tables : ℕ → ℕ → OutboxEvent → Option Bytes → Tables → Tables
settled_tables max_backoff now e (some msg) t = with_outbox t (
    update_where (λ o. o.id == e.id)
      (postponed (clipped msg) (backoff_for max_backoff e.attempt_count) now) t.outbox)
settled_tables max_backoff now e none t =
    with_outbox t (update_where (λ o. o.id == e.id && is_undelivered o) (delivered now) t.outbox)

pub record ClaimFacts (locked : ℕ → Bool) (s : Session) (x : Answer (Option OutboxEvent))
    : Type 0 where
  pub same : x.1.committed ≡ s.committed
  pub clock : x.1.now ≡ s.now
  pub found :
      (o : Option OutboxEvent)
      → x.0 ≡ ok o
      → (o ≡ first_due locked s.now s.committed s.committed.outbox) × (x.1.work ≡ s.committed)

pub claim_next-ClaimFacts :
    (locked : ℕ → Bool) (s : Session) → ClaimFacts locked s (claim_next locked s)
unfolding claim_next
claim_next-ClaimFacts locked s =
    begin_rule Q s _ (λ e. record { same = refl; clock = refl; found = λ o a. cc })
      (query_last Q (working s s.committed) (λ now t. first_due locked now t t.outbox)
        (λ e. record { same = refl; clock = refl; found = λ o a. cc })
        (record { same = refl; clock = refl; found = λ o a. (cc, refl) }))
  where
    Q : Answer (Option OutboxEvent) → Type 0
    Q = ClaimFacts locked s

pub record SettleFacts (max_backoff : ℕ) (e : OutboxEvent) (failure : Option Bytes) (s : Session)
    (x : Answer Unit) : Type 0 where
  pub outcome :
      (x.1.committed ≡ s.committed)
      ⊎ (x.1.committed ≡ settled_tables max_backoff s.now e failure s.work)

pub settle-SettleFacts :
    (max_backoff : ℕ) (e : OutboxEvent) (failure : Option Bytes) (s : Session)
    → SettleFacts max_backoff e failure s (settle max_backoff e failure s)
unfolding settle
settle-SettleFacts max_backoff e (some msg) s =
    statement_rule Q s
      (update_event (postponed (clipped msg) (backoff_for max_backoff e.attempt_count))
        (λ o. o.id == e.id))
      _ (λ x. record { outcome = inl refl })
      λ t a made.
        commit_last Q _ (λ x. record { outcome = inl refl })
          λ r. record { outcome = inr (ground arith) }
  where
    Q : Answer Unit → Type 0
    Q = SettleFacts max_backoff e (some msg) s
settle-SettleFacts max_backoff e none s =
    statement_rule Q s (update_event delivered (λ o. o.id == e.id && is_undelivered o)) _
      (λ x. record { outcome = inl refl })
      λ t a made.
        commit_last Q _ (λ x. record { outcome = inl refl })
          λ r. record { outcome = inr (ground arith) }
  where
    Q : Answer Unit → Type 0
    Q = SettleFacts max_backoff e none s

module _ {W : Type 0} (deliver : OutboxEvent → W → Option Bytes × W) (max_backoff : ℕ)
    (locked : ℕ → Bool) where
  -- Nothing was claimed, or the first due event was handed to the receiver once; then the tables
  -- say what came of it, or are as before where the transaction did not commit.
  pub data Dispatch (now : ℕ) (t u : Tables) (w w' : W) : Type 0 where
    idle : u ≡ t → w' ≡ w → Dispatch now t u w w'
    handed :
        (e : OutboxEvent)
        → first_due locked now t t.outbox ≡ some e
        → w' ≡ (deliver e w).1
        → (u ≡ t) ⊎ (u ≡ settled_tables max_backoff now e (deliver e w).0 t)
        → Dispatch now t u w w'

  process_claimed-Dispatch :
      (s s' : Session) (w : W) (r : Result (Option OutboxEvent))
      → ClaimFacts locked s (r, s')
      → let p = process_claimed deliver max_backoff r s' w in
        Dispatch s.now s.committed p.session.committed w p.world
  unfolding process_claimed
  process_claimed-Dispatch s s' w (err e) f = idle f.same refl
  process_claimed-Dispatch s s' w (ok none) f = idle f.same refl
  process_claimed-Dispatch s s' w (ok (some e)) f =
      handed e (sym (f.found (some e) refl).0) refl
        (elim (settle-SettleFacts max_backoff e (deliver e w).0 s').outcome [
          | inl a ↦ inl (a ∙ f.same)
          | inr b ↦ inr (
              b
              ∙ ap₂ (λ n t. settled_tables max_backoff n e (deliver e w).0 t) f.clock
                  (f.found (some e) refl).1)
        ])

  -- Each run of the dispatcher, whatever the driver and the receiver answer, is such a dispatch.
  pub process_next_outbox-Dispatch :
      (s : Session) (w : W)
      → let p = process_next_outbox deliver max_backoff locked s w in
        Dispatch s.now s.committed p.session.committed w p.world
  unfolding process_next_outbox
  process_next_outbox-Dispatch s w =
      process_claimed-Dispatch s _ w _ (claim_next-ClaimFacts locked s)

  pub submissions-process_next_outbox :
      (s : Session) (w : W)
      → (process_next_outbox deliver max_backoff locked s w).session.committed.submissions
        ≡ s.committed.submissions
  submissions-process_next_outbox s w = same_rows (process_next_outbox-Dispatch s w)
    where
      settled_rows :
          (now : ℕ) (e : OutboxEvent) (failure : Option Bytes) (t : Tables)
          → (settled_tables max_backoff now e failure t).submissions ≡ t.submissions
      settled_rows now e none t = refl
      settled_rows now e (some msg) t = refl

      same_rows :
          {now : ℕ} {t u : Tables} {w w' : W}
          → Dispatch now t u w w'
          → u.submissions ≡ t.submissions
      same_rows (idle a b) = ap (λ (t : Tables). t.submissions) a
      same_rows (handed e a b (inl c)) = ap (λ (t : Tables). t.submissions) c
      same_rows {now} {t} {w} (handed e a b (inr c)) =
          ap (λ (t : Tables). t.submissions) c ∙ settled_rows now e (deliver e w).0 t
