-- ===== src/Database/Outbox/Dispatching.antt =====
-- internal/database/database.go, ProcessNextOutbox: which event is handed over, and what is noted of
-- it, in terms of the rows.
use mathlib.Core.Path.{ap₂, subst}
use model_lib.Base.{
  if◌then◌else◌, ℕ, ◌+◌, ◌*◌, ◌^◌, ◌≤◌, ◌≡◌, refl, sym, ap, ◌∙◌, arith, Bool, Option, none, some,
  List, ◌∷◌, ◌++◌, Bytes, length, take, length-take, leb, ltb, ◌==◌, ◌&&◌, if_cases, inl, inr, ◌⊎◌,
  All, update_where,
}
use model_lib.Database.{Tables, OutboxRow, OutboxEvent, Result, ok, err, Session}
use model_lib.Database.Outbox.{
  is_undelivered, backoff_for, clipped, min, Processed, settle, process_claimed,
  process_next_outbox,
}
use model_lib.Database.Outbox.Choosing.{IsReady, event_of, nothing, chosen, first_due-Chosen}
use model_lib.Database.Outbox.Steps.{
  with_outbox, settled_tables, ClaimFacts, claim_next-ClaimFacts, settle-SettleFacts,
}

-- 2^n seconds for n earlier attempts, with n at most 20; in microseconds.
abbrev pub pause : ℕ → ℕ
pause n = 1_000_000 * 2 ^ (if leb 20 n then 20 else n)

-- The tables after a delivery of the event of row `o`, by the receiver's answer.
pub data Noted (max_backoff now : ℕ) (o : OutboxRow) (failure : Option Bytes) (t u : Tables)
    : Type 0 where
  as_before : u ≡ t → Noted max_backoff now o failure t u
  taken :
      failure ≡ none
      → u
        ≡ with_outbox t (
            update_where
              (λ x. x.id == o.id && is_undelivered x)
              (λ x. record x { delivered_at = some now; last_error = none })
              t.outbox)
      → Noted max_backoff now o failure t u
  put_off :
      (msg note : Bytes) (wait : ℕ)
      → failure ≡ some msg
      → length note ≤ 512
      → (note ≡ msg) ⊎ (note ≡ take 512 msg)
      → (wait ≤ max_backoff) × (wait ≤ pause o.attempt_count)
      → (wait ≡ max_backoff) ⊎ (wait ≡ pause o.attempt_count)
      → u
        ≡ with_outbox t (
            update_where
              (λ x. x.id == o.id)
              (λ x. record x {
                attempt_count = x.attempt_count + 1;
                last_error = some note;
                available_at = now + wait;
              })
              t.outbox)
      → Noted max_backoff now o failure t u

clipped-short : (msg : Bytes) → length (clipped msg) ≤ 512
clipped-short msg =
    if_cases (λ (s : Bytes). length s ≤ 512) (ltb 512 (length msg))
      (λ long. let size = length-take 512 msg (ground arith) in omega (arith, size))
      (λ short. ground arith)

clipped-cases : (msg : Bytes) → (clipped msg ≡ msg) ⊎ (clipped msg ≡ take 512 msg)
clipped-cases msg =
    if_cases (λ (s : Bytes). (s ≡ msg) ⊎ (s ≡ take 512 msg)) (ltb 512 (length msg)) (λ _. inr refl)
      (λ _. inl refl)

min-capped : (n : ℕ) → min n 20 ≡ (if leb 20 n then 20 else n)
min-capped n = ground arith

backoff_for-cases :
    (max_backoff n : ℕ)
    → ((backoff_for max_backoff n ≤ max_backoff) × (backoff_for max_backoff n ≤ pause n))
      × ((backoff_for max_backoff n ≡ max_backoff) ⊎ (backoff_for max_backoff n ≡ pause n))
unfolding backoff_for
backoff_for-cases max_backoff n = rw (min-capped n) (
    if_cases (λ (b : ℕ). ((b ≤ max_backoff) × (b ≤ pause n)) × ((b ≡ max_backoff) ⊎ (b ≡ pause n)))
      (ltb max_backoff (pause n)) (λ later. ((omega arith, ground (arith, later)), inl refl))
      (λ sooner. ((ground (arith, sooner), omega arith), inr refl)))

settled_tables-Noted :
    (max_backoff now : ℕ) (o : OutboxRow) (e : OutboxEvent) (failure : Option Bytes) (t u : Tables)
    → e.id ≡ o.id
    → e.attempt_count ≡ o.attempt_count
    → u ≡ settled_tables max_backoff now e failure t
    → Noted max_backoff now o failure t u
settled_tables-Noted max_backoff now o e none t u id attempts h = taken refl (rw⁻¹ id h)
settled_tables-Noted max_backoff now o e (some msg) t u id attempts h =
    let wait = backoff_for-cases max_backoff o.attempt_count in
    put_off msg (clipped msg) (backoff_for max_backoff o.attempt_count) refl (clipped-short msg)
      (clipped-cases msg) wait.0 wait.1 (rw⁻¹ attempts (rw⁻¹ id h))

module _ {W : Type 0} (deliver : OutboxEvent → W → Option Bytes × W) (max_backoff : ℕ)
    (locked : ℕ → Bool) where
  -- One call, from the committed tables `t` and the receiver's state `w`.
  pub data Dispatched (now : ℕ) (t : Tables) (w : W) (p : Processed W) : Type 0 where
    none_handed :
        p.session.committed ≡ t
        → p.world ≡ w
        → (p.error ≡ none → All (λ o. ¬ IsReady locked now t o) t.outbox)
        → Dispatched now t w p
    one_handed :
        (before after : List OutboxRow) (o : OutboxRow) (ready : IsReady locked now t o)
        → t.outbox ≡ before ++ o ∷ after
        → All (λ x. IsReady locked now t x → o.id ≤ x.id) t.outbox
        → p.world ≡ (deliver (event_of o ready.row) w).1
        → Noted max_backoff now o (deliver (event_of o ready.row) w).0 t p.session.committed
        → Dispatched now t w p

  none_of_some : (e : OutboxEvent) → Option.some e ≡ none → ⊥
  none_of_some e h = cc h

  some_same : (a b : OutboxEvent) → Option.some a ≡ some b → a ≡ b
  some_same a b h = cc h

  process_claimed-Dispatched :
      (s s' : Session) (w : W) (r : Result (Option OutboxEvent))
      → ClaimFacts locked s (r, s')
      → Dispatched s.now s.committed w (process_claimed deliver max_backoff r s' w)
  unfolding process_claimed
  process_claimed-Dispatched s s' w (err e) f = none_handed f.same refl (λ h. cc h)
  process_claimed-Dispatched s s' w (ok none) f =
      elim (first_due-Chosen locked s.now s.committed s.committed.outbox) [
        | nothing same none_ready ↦ none_handed f.same refl (λ _. none_ready)
        | chosen before after o ready parts least same ↦
            absurd (none_of_some _ (sym same ∙ sym (f.found none refl).0))
      ]
  process_claimed-Dispatched s s' w (ok (some e)) f =
      elim (first_due-Chosen locked s.now s.committed s.committed.outbox) [
        | nothing same none_ready ↦ absurd (none_of_some e ((f.found (some e) refl).0 ∙ same))
        | chosen before after o ready parts least same ↦
            let it : e ≡ event_of o ready.row =
              some_same e (event_of o ready.row) ((f.found (some e) refl).0 ∙ same) in
            one_handed before after o ready parts least
              (ap (λ (x : OutboxEvent). (deliver x w).1) it)
              (subst
                (λ (x : OutboxEvent).
                  Noted max_backoff s.now o (deliver x w).0 s.committed
                    (settle max_backoff e (deliver e w).0 s').1.committed)
                it
                (outcome o e (ap (λ (x : OutboxEvent). x.id) it)
                  (ap (λ (x : OutboxEvent). x.attempt_count) it) _
                  (settle-SettleFacts max_backoff e (deliver e w).0 s').outcome))
      ]
    where
      outcome :
          (o : OutboxRow) (x : OutboxEvent)
          → x.id ≡ o.id
          → x.attempt_count ≡ o.attempt_count
          → (u : Tables)
          → (u ≡ s'.committed) ⊎ (u ≡ settled_tables max_backoff s'.now x (deliver x w).0 s'.work)
          → Noted max_backoff s.now o (deliver x w).0 s.committed u
      outcome o x id attempts u (inl same) = as_before (same ∙ f.same)
      outcome o x id attempts u (inr done) =
          settled_tables-Noted max_backoff s.now o x (deliver x w).0 s.committed u id attempts (
            done
            ∙ ap₂ (λ n t. settled_tables max_backoff n x (deliver x w).0 t) f.clock
                (f.found (some e) refl).1)

  -- ProcessNextOutbox either hands nothing over, changes nothing, and, unless it answers with an
  -- error, no event of the outbox is ready; or it hands a ready event, of the least id among the
  -- ready ones, to the receiver once, with the participant of its submission. Ready is an event
  -- that is not delivered, whose time has come, that no other dispatcher holds, and whose
  -- submission is there. Then the tables are as before, or the event of that id is marked
  -- delivered, if the receiver took it, or it has one attempt more, the receiver's error cut to 512
  -- bytes, and a new time, which is 2^n seconds away for n earlier attempts (n at most 20), or
  -- max_backoff if that is sooner.
  pub process_next_outbox-Dispatched :
      (s : Session) (w : W)
      → Dispatched s.now s.committed w (process_next_outbox deliver max_backoff locked s w)
  unfolding process_next_outbox
  process_next_outbox-Dispatched s w =
      process_claimed-Dispatched s _ w _ (claim_next-ClaimFacts locked s)
