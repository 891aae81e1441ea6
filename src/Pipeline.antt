-- ===== src/Pipeline.antt =====
-- The API, the dispatcher, the recovery loop and any number of workers over one database and one
-- stream, as interleaved steps; and what it means that no queued submission is lost.
pub mod Events
pub mod Dispatching
pub mod Starts
pub mod Moving
pub mod Transport
pub mod System
pub mod Coverage
pub mod Holding
pub mod NoLoss
pub mod Lifetime
pub mod Tests
use model_lib.Base.{ℕ, ◌≤◌, ◌≡◌, ◌&&◌, Bool, Bytes, ◌==◌, count_where, str_eq}
use model_lib.Database.{Tables, OutboxRow}
use model_lib.Database.Statements.{queued_with_id}
use model_lib.Database.Outbox.{is_undelivered}

abbrev pub pending_for : Bytes → OutboxRow → Bool
pending_for id o = is_undelivered o && str_eq o.submission_id id

-- Rows that are queued under an id, and undelivered events for it.
abbrev pub queued_count : Bytes → Tables → ℕ
queued_count id t = count_where (queued_with_id id) t.submissions

abbrev pub pending_count : Bytes → Tables → ℕ
pending_count id t = count_where (pending_for id) t.outbox

abbrev pub event_is : ℕ → OutboxRow → Bool
event_is k o = o.id == k

-- The primary key of the outbox, and its sequence.
pub record EventIds (t : Tables) : Type 0 where
  pub distinct : (k : ℕ) → count_where (event_is k) t.outbox ≤ 1
  pub below : (k : ℕ) → t.next_outbox_id ≤ k → count_where (event_is k) t.outbox ≡ 0
