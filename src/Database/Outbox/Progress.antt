-- ===== src/Database/Outbox/Progress.antt =====
-- internal/database/database.go, ProcessNextOutbox with a driver that serves it.
use mathlib.Core.Path.{subst}
use model_lib.Base.{Bool, ℕ, ◌≡◌, refl, true, Option, none, some, List, [], ◌∷◌, ◌++◌, Bytes, All}
use model_lib.Database.{Tables, OutboxRow, OutboxEvent, statement, begin, commit}
use model_lib.Database.Outbox.{first_due, settle, claim_next, process_claimed, process_next_outbox}
use model_lib.Database.Outbox.Choosing.{IsReady, nothing, chosen, first_due-Chosen}
use model_lib.Database.Serving.{served_session}

All-at :
    {A : Type 0} (P : A → Type 0) (before after : List A) (x : A)
    → All P (before ++ x ∷ after)
    → P x
All-at P [] after x (h, _) = h
All-at P (b ∷ before) after x (_, hs) = All-at P before after x hs

module _ {W : Type 0} (deliver : OutboxEvent → W → Option Bytes × W) (max_backoff : ℕ)
    (locked : ℕ → Bool) (now : ℕ) (t work : Tables) (w : W) where
  found_one :
      (e : OutboxEvent)
      → first_due locked now t t.outbox ≡ some e
      → (failure : Option Bytes) → (deliver e w).0 ≡ failure
      → let p = process_next_outbox deliver max_backoff locked (served_session t work now) w in
        (p.processed ≡ true) × (p.error ≡ none)
  unfolding process_next_outbox process_claimed claim_next settle begin statement commit
  found_one e first none same = rw (first, same) (refl, refl)
  found_one e first (some msg) same = rw (first, same) (refl, refl)

  -- If the driver serves the call and an event of the outbox is ready, ProcessNextOutbox answers that
  -- it handed one over, and no error, whatever the receiver answers.
  pub process_next_outbox-served :
      (before after : List OutboxRow) (o : OutboxRow)
      → t.outbox ≡ before ++ o ∷ after
      → IsReady locked now t o
      → let p = process_next_outbox deliver max_backoff locked (served_session t work now) w in
        (p.processed ≡ true) × (p.error ≡ none)
  process_next_outbox-served before after o parts ready =
      elim (first_due-Chosen locked now t t.outbox) [
        | nothing same none_ready ↦ absurd (
            All-at (λ x. ¬ IsReady locked now t x) before after o
              (subst (λ rows. All (λ x. ¬ IsReady locked now t x) rows) parts none_ready) ready)
        | chosen b a x other split least same ↦ found_one _ same _ refl
      ]
