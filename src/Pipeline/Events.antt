-- ===== src/Pipeline/Events.antt =====
-- What the changes of the database do to queued rows and to undelivered events.
use mathlib.Core.Path.{subst}
use model_lib.Base.{
  ℕ, ◌+◌, ◌≤◌, ◌<◌, ◌≡◌, refl, sym, ◌⊎◌, inl, inr, arith, Bool, false, if◌then◌else◌, [], ◌∷◌, ◌++◌,
  Bytes, Bool-cases, str_eq, str_eq_iff, count_where, update_where, count_where-append,
  count-update_mono, All-intro,
}
use model_lib.Database.{Tables, SubmissionRow}
use model_lib.Database.Statements.{
  queued_with_id, stale_with_id, with_event, new_event, set_queued, is_queued,
}
use model_lib.Database.Change.{
  Limits, Change, unchanged, created, started, finished, recovered, failed, visited, with_rows,
}
use model_lib.Pipeline.{pending_for, queued_count, pending_count, event_is, EventIds}

-- If `id` is queued afterwards, an event for it is pending, or it was queued before and none of
-- its events is gone.
pub record Announced (t u : Tables) : Type 0 where
  pub queued_before :
      (id : Bytes)
      → 0 < queued_count id u
      → (0 < pending_count id u)
        ⊎ ((0 < queued_count id t) × (pending_count id t ≤ pending_count id u))

-- An UPDATE of submissions that makes no row queued.
update-Announced :
    (t : Tables) (p : SubmissionRow → Bool) (f : SubmissionRow → SubmissionRow)
    → ((r : SubmissionRow) → is_queued (f r).status ≡ false)
    → Announced t (with_rows t (update_where p f t.submissions))
update-Announced t p f h = record {
  queued_before = λ id q. inr (
    omega (
      arith,
      count-update_mono (queued_with_id id) p f t.submissions
          (All-intro _ t.submissions λ r a b. ground (arith, h r)),
    ),
    omega arith,
  );
}

pending-with_event :
    (id k : Bytes) (now : ℕ) (t : Tables)
    → pending_count k (with_event id now t) ≡ pending_count k t + (if str_eq id k then 1 else 0)
unfolding count_where
pending-with_event id k now t =
    ground
      (arith, count_where-append (pending_for k) t.outbox (new_event id now t.next_outbox_id ∷ []))

create-Announced :
    (t : Tables) (r : SubmissionRow) (now : ℕ)
    → Announced t (with_event r.id now (with_rows t (t.submissions ++ r ∷ [])))
unfolding count_where
create-Announced t r now = record {
  queued_before = λ id q. elim (Bool-cases (str_eq r.id id)) [
    | inl same ↦
        inl (ground (arith, pending-with_event r.id id now (with_rows t (t.submissions ++ r ∷ []))))
    | inr other ↦ inr (
      ground (arith, count_where-append (queued_with_id id) t.submissions (r ∷ [])),
      ground (arith, pending-with_event r.id id now (with_rows t (t.submissions ++ r ∷ []))),
    )
  ];
}

recover-Announced :
    (t : Tables) (id : Bytes) (before now : ℕ)
    → Announced t (
        with_event id now
          (with_rows t (update_where (stale_with_id id before) (set_queued now) t.submissions)))
recover-Announced t id before now = record {
  queued_before = λ k q. elim (Bool-cases (str_eq id k)) [
    | inl same ↦ inl (ground (arith, pending-with_event id k now rows))
    | inr other ↦ inr (
      omega (
        arith,
        count-update_mono (queued_with_id k) (stale_with_id id before) (set_queued now)
            t.submissions
            (All-intro _ t.submissions
              λ r a b. ground (arith, str_eq_iff r.id id, str_eq_iff r.id k, str_eq_iff id k)),
      ),
      ground (arith, pending-with_event id k now rows),
    )
  ];
}
  where
    rows : Tables
    rows = with_rows t (update_where (stale_with_id id before) (set_queued now) t.submissions)

pub Change-Announced : {lim : Limits} {t u : Tables} → Change lim t u → Announced t u
Change-Announced {t} (unchanged e) =
    subst (Announced t) (sym e) (record { queued_before = λ id q. inr (q, omega arith) })
Change-Announced {t} (created r now q room quota fits e) =
    subst (Announced t) (sym e) (create-Announced t r now)
Change-Announced {t} (started id r now found q room one e) =
    subst (Announced t) (sym e) (update-Announced t _ _ λ x. refl)
Change-Announced {t} (finished id res now e) =
    subst (Announced t) (sym e) (update-Announced t _ _ λ x. refl)
Change-Announced {t} (recovered id before now e) =
    subst (Announced t) (sym e) (recover-Announced t id before now)
Change-Announced {t} (failed id now e) =
    subst (Announced t) (sym e) (update-Announced t _ _ λ x. refl)
Change-Announced {t} (visited rows e) =
    subst (Announced t) (sym e) (record { queued_before = λ id q. inr (q, omega arith) })

with_event-EventIds :
    (t : Tables) (id : Bytes) (now : ℕ) → EventIds t → EventIds (with_event id now t)
unfolding count_where
with_event-EventIds t id now v = record {
  distinct = λ k. ground (arith, appended k, v.distinct k, v.below k);
  below = λ k h. ground (arith, appended k, v.below k);
}
  where
    appended :
        (k : ℕ)
        → count_where (event_is k) (with_event id now t).outbox
          ≡ count_where (event_is k) t.outbox
            + count_where (event_is k) (new_event id now t.next_outbox_id ∷ [])
    appended k = count_where-append (event_is k) t.outbox _

pub Change-EventIds : {lim : Limits} {t u : Tables} → Change lim t u → EventIds t → EventIds u
Change-EventIds (unchanged e) v = subst EventIds (sym e) v
Change-EventIds {t} (created r now q room quota fits e) v =
    subst EventIds (sym e)
      (with_event-EventIds _ r.id now (record { distinct = v.distinct; below = v.below }))
Change-EventIds (started id r now found q room one e) v =
    subst EventIds (sym e) (record { distinct = v.distinct; below = v.below })
Change-EventIds (finished id res now e) v =
    subst EventIds (sym e) (record { distinct = v.distinct; below = v.below })
Change-EventIds (recovered id before now e) v =
    subst EventIds (sym e)
      (with_event-EventIds _ id now (record { distinct = v.distinct; below = v.below }))
Change-EventIds (failed id now e) v =
    subst EventIds (sym e) (record { distinct = v.distinct; below = v.below })
Change-EventIds (visited rows e) v =
    subst EventIds (sym e) (record { distinct = v.distinct; below = v.below })
