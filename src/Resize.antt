-- ===== src/Resize.antt =====
-- src/services/resize/handler.rs: the single-flight registry of `ResizeService::resize`. Requests are
-- tasks that interleave at their await points; each step of a task is a function on the shared state.
-- A channel is named by the task that opened it. The cached keys stand for the storage backend.
pub mod Step
pub mod Invariant
pub mod Preserve
pub mod Leave
pub mod Theorems
pub mod Progress
pub mod Work
use image_resizer.Prelude.{Bool, Option, Result, err, if◌then◌else◌, none, ok, some, true, ℕ, ◌==◌}
use image_resizer.Text.{Str, eqb}

-- `InFlightResult`: a URL or an error text.
abbrev pub Outcome : Type 0
Outcome = Result Str Str

-- Where a task stands. A leader holds its guard's result, which is absent until the work is done.
pub data Phase : Type 0 where
  arrived missed : Str → Phase
  leading : Str → Option Outcome → Phase
  following : Str → ℕ → Phase
  finished : Str → Outcome → Phase
  dropped : Str → Phase

pub record Service : Type 0 where
  pub cached : Str → Bool
  pub in_flight : Str → Option ℕ
  pub sent : ℕ → Option Outcome
  pub task : ℕ → Phase

abbrev pub set_task : ℕ → Phase → Service → Service
set_task t phase s = record s { task = λ u. if u == t then phase else s.task u }

abbrev pub set_entry : Str → Option ℕ → Service → Service
set_entry k entry s = record s { in_flight = λ j. if eqb j k then entry else s.in_flight j }

abbrev pub send : ℕ → Outcome → Service → Service
send c r s = record s { sent = λ d. if d == c then some r else s.sent d }

abbrev pub cancelled : Str → Outcome
cancelled k = err k

-- `self.in_flight.entry(cache_key)`: join the channel that is there, or open one and lead.
unfoldable pub enter : ℕ → Str → Service → Service
enter t k s = elim (s.in_flight k) [
  | some c ↦ set_task t (following k c) s
  | none ↦ set_task t (leading k none) (set_entry k (some t) s)
]

-- `guard.finish(result)`, after an upload if the work succeeded.
unfoldable pub finish_work : ℕ → Str → Outcome → Service → Service
finish_work t k r s = set_task t (leading k (some r)) (record s {
  cached = λ j. if eqb j k then elim r [ ok _ ↦ true | err _ ↦ s.cached j ] else s.cached j;
})

abbrev pub outcome_or_cancelled : Str → Option Outcome → Outcome
outcome_or_cancelled k none = cancelled k
outcome_or_cancelled k (some r) = r

-- `InFlightGuard::drop`: remove the entry and send the result, or an error if there is none.
unfoldable pub drop_guard : Str → Option Outcome → Service → Service
drop_guard k result s = elim (s.in_flight k) [
  | none ↦ s
  | some c ↦ send c (outcome_or_cancelled k result) (set_entry k none s)
]

-- The phase behind the drop: the leader returns its result, or is gone.
abbrev pub after_drop : Str → Option Outcome → Phase
after_drop k none = dropped k
after_drop k (some r) = finished k r

-- The leader's guard goes out of scope: at the end of `resize`, or when the task is cancelled or
-- panics before its work is done.
unfoldable pub leave : ℕ → Str → Option Outcome → Service → Service
unfolding drop_guard
leave t k result s = set_task t (after_drop k result) (drop_guard k result s)
