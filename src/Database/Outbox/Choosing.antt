-- ===== src/Database/Outbox/Choosing.antt =====
-- internal/database/database.go, ProcessNextOutbox: what its SELECT finds, in terms of the rows.
use model_lib.Base.{
  if◌then◌else◌, ℕ, ◌≤◌, ◌≡◌, refl, ap, arith, true, false, Bool, Option, none, some, List, [], ◌∷◌,
  ◌++◌, leb, find_where, if_cases, Option-cases, inl, inr, ◌⊎◌, All, All-mono,
}
use model_lib.Database.{Tables, SubmissionRow, OutboxRow, OutboxEvent}
use model_lib.Database.Statements.{has_id}
use model_lib.Database.Outbox.{is_undelivered, is_due, joined, earlier, first_due}

-- An event that is not delivered, whose time has come, that no other dispatcher holds, and whose
-- submission is there.
pub record IsReady (locked : ℕ → Bool) (now : ℕ) (t : Tables) (o : OutboxRow) : Type 0 where
  pub undelivered : o.delivered_at ≡ none
  pub due : o.available_at ≤ now
  pub free : locked o.id ≡ false
  pub row : SubmissionRow
  pub found : find_where (has_id o.submission_id) t.submissions ≡ some row

abbrev pub event_of : OutboxRow → SubmissionRow → OutboxEvent
event_of o r = record {
  id = o.id;
  submission_id = o.submission_id;
  participant_id = r.participant_id;
  event_type = o.event_type;
  attempt_count = o.attempt_count;
}

none_there : (d : Option ℕ) → elim d [ none ↦ true | some _ ↦ false ] ≡ true → d ≡ none
none_there none h = refl
none_there (some at) h = cc h

abbrev event_by : OutboxRow → Option SubmissionRow → Option OutboxEvent
event_by o row = elim row [ none ↦ none | some r ↦ some (event_of o r) ]

module _ (locked : ℕ → Bool) (now : ℕ) (t : Tables) where
  -- The ready row of the least id, or that there is none.
  pub data Chosen (rows : List OutboxRow) (y : Option OutboxEvent) : Type 0 where
    nothing : y ≡ none → All (λ o. ¬ IsReady locked now t o) rows → Chosen rows y
    chosen :
        (before after : List OutboxRow) (o : OutboxRow) (ready : IsReady locked now t o)
        → rows ≡ before ++ o ∷ after
        → All (λ x. IsReady locked now t x → o.id ≤ x.id) rows
        → y ≡ some (event_of o ready.row)
        → Chosen rows y

  not-IsReady : (o : OutboxRow) → is_due locked now o ≡ false → ¬ IsReady locked now t o
  not-IsReady o h ready =
      let open_event : is_undelivered o ≡ true =
        ap (λ (d : Option ℕ). elim d [ none ↦ true | some _ ↦ false ])
          (IsReady.undelivered ready) in
      let due = IsReady.due ready in
      let free = IsReady.free ready in absurd (ground (arith, open_event, due, free, h))

  joined_row :
      (o : OutboxRow)
      → is_due locked now o ≡ true
      → ((ready : IsReady locked now t o) × (joined t o ≡ some (event_of o ready.row)))
        ⊎ ((joined t o ≡ none) × (¬ IsReady locked now t o))
  joined_row o h = elim (Option-cases (find_where (has_id o.submission_id) t.submissions)) [
    | inl missing ↦ inr (ap (event_by o) missing, λ ready. cc (missing, IsReady.found ready))
    | inr (r, found) ↦ inl (
      record {
        undelivered = none_there o.delivered_at (ground (arith, h));
        due = ground (arith, h);
        free = ground (arith, h);
        row = r;
        found = found;
      },
      ap (event_by o) found,
    )
  ]

  abbrev look : OutboxRow → Option OutboxEvent
  look o = if is_due locked now o then joined t o else none

  looked :
      (o : OutboxRow)
      → ((ready : IsReady locked now t o) × (look o ≡ some (event_of o ready.row)))
        ⊎ ((look o ≡ none) × (¬ IsReady locked now t o))
  looked o =
      if_cases
        (λ (y : Option OutboxEvent).
          ((ready : IsReady locked now t o) × (y ≡ some (event_of o ready.row)))
          ⊎ ((y ≡ none) × (¬ IsReady locked now t o)))
        (is_due locked now o) (λ due. joined_row o due)
        (λ not_due. inr (refl, not-IsReady o not_due))

  behind :
      (o : OutboxRow) (rows : List OutboxRow) (y : Option OutboxEvent)
      → ¬ IsReady locked now t o
      → Chosen rows y
      → Chosen (o ∷ rows) y
  behind o rows y unready (nothing same none_ready) = nothing same (unready, none_ready)
  behind o rows y unready (chosen before after x ready parts least same) =
      chosen (o ∷ before) after x ready (ap (λ (l : List OutboxRow). o ∷ l) parts)
        ((λ r. absurd (unready r)), least) same

  in_front :
      (o : OutboxRow) (rows : List OutboxRow) (y : Option OutboxEvent)
      (ready : IsReady locked now t o)
      → Chosen rows y
      → Chosen (o ∷ rows) (earlier (some (event_of o ready.row)) y)
  in_front o rows y ready (nothing same none_ready) =
      chosen [] rows o ready refl
        (
          (λ _. omega arith),
          All-mono (λ x. ¬ IsReady locked now t x) (λ x. IsReady locked now t x → o.id ≤ x.id) rows
              (λ x unready r. absurd (unready r)) none_ready,
        )
        (rw same refl)
  in_front o rows y ready (chosen before after x other parts least same) = rw same (
      if_cases (Chosen (o ∷ rows)) (leb o.id x.id)
        (λ first.
          chosen [] rows o ready refl
            (
              (λ _. omega arith),
              All-mono (λ z. IsReady locked now t z → x.id ≤ z.id)
                  (λ z. IsReady locked now t z → o.id ≤ z.id) rows
                  (λ z bound r. let b = bound r in ground (arith, b, first)) least,
            )
            refl)
        (λ second.
          chosen (o ∷ before) after x other (ap (λ (l : List OutboxRow). o ∷ l) parts)
            ((λ _. ground (arith, second)), least) refl))

  pub first_due-Chosen : (rows : List OutboxRow) → Chosen rows (first_due locked now t rows)
  unfolding first_due
  first_due-Chosen [] = nothing refl tt
  first_due-Chosen (o ∷ rows) =
      let rest = first_due-Chosen rows in
      elim (looked o) [
        | inl (ready, same) ↦ rw same (in_front o rows _ ready rest)
        | inr (same, unready) ↦ rw same (behind o rows _ unready rest)
      ]
