-- ===== src/Pipeline/Dispatching.antt =====
-- What a dispatch does to the undelivered events.
use model_lib.Base.{
  ℕ, ◌≤◌, ◌≡◌, refl, ◌∙◌, ◌⊎◌, inl, inr, arith, Bool, true, false, ◌&&◌, if◌then◌else◌, Option,
  none, some, List, [], ◌∷◌, Bytes, Bool-cases, Option-cases, str_eq, count_where, find_where,
  count-update_eq, All, All-intro, All-mono, none_of_count, leb,
}
use model_lib.Database.{Tables, OutboxRow, OutboxEvent}
use model_lib.Database.Statements.{has_id}
use model_lib.Database.Outbox.{is_undelivered, is_due, joined, earlier, first_due, delivered}
use model_lib.Database.Outbox.Steps.{settled_tables}
use model_lib.Pipeline.{pending_for, pending_count, event_is, EventIds}

-- An event is that of a row, by its id and its submission.
abbrev IsOf : OutboxEvent → OutboxRow → Type 0
IsOf e o = (o.id ≡ e.id) × (o.submission_id ≡ e.submission_id)

joined-IsOf : (t : Tables) (o : OutboxRow) (e : OutboxEvent) → joined t o ≡ some e → IsOf e o
joined-IsOf t o e h = elim (Option-cases (find_where (has_id o.submission_id) t.submissions)) [
  | inl missing ↦ ground arith
  | inr (r, found) ↦ (ground arith, ground arith)
]

candidate-IsOf :
    (locked : ℕ → Bool) (now : ℕ) (t : Tables) (o : OutboxRow) (e : OutboxEvent)
    → (if is_due locked now o then joined t o else none) ≡ some e
    → IsOf e o
candidate-IsOf locked now t o e h = elim (Bool-cases (is_due locked now o)) [
  | inl due ↦ joined-IsOf t o e (rw due at h)
  | inr other ↦ absurd (none≢some (rw other at h))
]
  where
    none≢some : none ≡ some e → ⊥
    none≢some p = cc

earlier-cases :
    (x y : Option OutboxEvent) (e : OutboxEvent)
    → earlier x y ≡ some e
    → (x ≡ some e) ⊎ (y ≡ some e)
earlier-cases none y e h = inr h
earlier-cases (some x) none e h = inl h
earlier-cases (some x) (some y) e h = elim (Bool-cases (leb x.id y.id)) [
  | inl first ↦ inl (rw first at h)
  | inr second ↦ inr (rw second at h)
]

-- The row of the event that was found is there, and it is the only one under its id.
first_due-IsOf :
    (locked : ℕ → Bool) (now : ℕ) (t : Tables) (rows : List OutboxRow) (e : OutboxEvent)
    → count_where (event_is e.id) rows ≤ 1
    → first_due locked now t rows ≡ some e
    → (1 ≤ count_where (event_is e.id) rows)
      × All (λ o. event_is e.id o ≡ true → o.submission_id ≡ e.submission_id) rows
unfolding first_due count_where
first_due-IsOf locked now t [] e one h = cc
first_due-IsOf locked now t (o ∷ rest) e one h =
    elim (earlier-cases (if is_due locked now o then joined t o else none)
      (first_due locked now t rest) e h) [
        | inl here ↦
            let (same_id, same_submission) = candidate-IsOf locked now t o e here in
            let others : count_where (event_is e.id) rest ≡ 0 = ground arith in
            (
              ground arith,
              (
                λ a. same_submission,
                All-mono (λ x. event_is e.id x ≡ false) _ rest (λ x a b. cc)
                    (none_of_count (event_is e.id) rest others),
              ),
            )
        | inr there ↦
            let (present, all) = first_due-IsOf locked now t rest e (ground arith) there in
            (ground arith, (λ a. absurd (ground arith), all))
      ]

module _ (max_backoff now : ℕ) (e : OutboxEvent) (t : Tables) where
  pub settled-EventIds :
      (failure : Option Bytes) → EventIds t → EventIds (settled_tables max_backoff now e failure t)
  settled-EventIds none v = record {
    distinct = λ k. rw (same_ids k) (v.distinct k);
    below = λ k h. same_ids k ∙ v.below k h;
  }
    where
      same_ids :
          (k : ℕ)
          → count_where (event_is k) (settled_tables max_backoff now e none t).outbox
            ≡ count_where (event_is k) t.outbox
      same_ids k =
          count-update_eq (event_is k) _ (delivered now) t.outbox (All-intro _ t.outbox λ o a. refl)
  settled-EventIds (some msg) v = record {
    distinct = λ k. rw (same_ids k) (v.distinct k);
    below = λ k h. same_ids k ∙ v.below k h;
  }
    where
      same_ids :
          (k : ℕ)
          → count_where (event_is k) (settled_tables max_backoff now e (some msg) t).outbox
            ≡ count_where (event_is k) t.outbox
      same_ids k = count-update_eq (event_is k) _ _ t.outbox (All-intro _ t.outbox λ o a. refl)

  -- An event that was not taken stays undelivered.
  pub postponed-pending :
      (msg id : Bytes)
      → pending_count id (settled_tables max_backoff now e (some msg) t) ≡ pending_count id t
  postponed-pending msg id =
      count-update_eq (pending_for id) _ _ t.outbox (All-intro _ t.outbox λ o a. refl)

  -- Taking an event leaves the events of all other submissions.
  pub delivered-pending :
      (locked : ℕ → Bool) (id : Bytes)
      → EventIds t
      → first_due locked now t t.outbox ≡ some e
      → str_eq e.submission_id id ≡ false
      → pending_count id (settled_tables max_backoff now e none t) ≡ pending_count id t
  delivered-pending locked id v found other =
      count-update_eq (pending_for id) (λ (o : OutboxRow). event_is e.id o && is_undelivered o)
        (delivered now) t.outbox
        (All-mono (λ (o : OutboxRow). event_is e.id o ≡ true → o.submission_id ≡ e.submission_id) _
          t.outbox
          (λ o only a.
            let same : o.submission_id ≡ e.submission_id = only (ground arith) in
            let miss : str_eq o.submission_id id ≡ false = rw same other in ground arith)
          (first_due-IsOf locked now t t.outbox e (v.distinct e.id) found).1)
