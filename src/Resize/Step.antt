-- ===== src/Resize/Step.antt =====
-- The interleavings: any task may take its next step at any time.
use image_resizer.Prelude.{Option, none, ok, some, true, ℕ, ◌≡◌}
use image_resizer.Text.{Str}
use image_resizer.Resize.{
  Outcome, Service, arrived, enter, finish_work, finished, following, leading, leave, missed,
  set_task,
}

pub data Step (s : Service) : Service → Type 0 where
  -- `check_cache` finds the key; the URL is that of the key.
  hit :
      {t : ℕ} {k : Str} {u : Service} (url : Str)
      → s.task t ≡ arrived k
      → s.cached k ≡ true
      → u ≡ set_task t (finished k (ok url)) s
      → Step s u
  -- `check_cache` does not find the key, or fails, which is treated as a miss.
  miss :
      {t : ℕ} {k : Str} {u : Service}
      → s.task t ≡ arrived k
      → u ≡ set_task t (missed k) s
      → Step s u
  join_or_lead : {t : ℕ} {k : Str} {u : Service} → s.task t ≡ missed k → u ≡ enter t k s → Step s u
  work :
      {t : ℕ} {k : Str} {u : Service} (r : Outcome)
      → s.task t ≡ leading k none
      → u ≡ finish_work t k r s
      → Step s u
  guard_drop :
      {t : ℕ} {k : Str} {result : Option Outcome} {u : Service}
      → s.task t ≡ leading k result
      → u ≡ leave t k result s
      → Step s u
  receive :
      {t c : ℕ} {k : Str} {r : Outcome} {u : Service}
      → s.task t ≡ following k c
      → s.sent c ≡ some r
      → u ≡ set_task t (finished k r) s
      → Step s u

pub data Reach (s : Service) : Service → Type 0 where
  here : Reach s s
  next : {t u : Service} → Reach s t → Step t u → Reach s u

-- A service that has just started: nothing is registered or sent, and every task has yet to begin.
pub record IsInitial (s : Service) : Type 0 where
  pub unregistered : (k : Str) → s.in_flight k ≡ none
  pub unsent : (c : ℕ) → s.sent c ≡ none
  pub idle : (t : ℕ) → (k : Str) × (s.task t ≡ arrived k)
