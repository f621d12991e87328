-- ===== src/Tests/ResizeExamples.antt =====
-- A run of two tasks on one key: task 0 leads, task 1 follows.
use image_resizer.Resize.Progress.{Reach-follower_ends, Served}
use image_resizer.Text.{codes, eqb}
use image_resizer.Prelude.{false, none, refl, some, ℕ, ◌≡◌, ◌⊎◌}
use image_resizer.Resize.Invariant.{Ended, Leads}
use image_resizer.Resize.Step.{IsInitial, Reach, here, join_or_lead, miss, next}
use image_resizer.Resize.{Outcome, Service, arrived, enter, missed, set_task}
use image_resizer.Resize.Theorems.{Reach-follower_served, Reach-one_leader}

abbrev started : Service
started = record {
  cached = λ k. false;
  in_flight = λ k. none;
  sent = λ c. none;
  task = λ t. arrived (codes "k");
}

started-IsInitial : IsInitial started
started-IsInitial = record {
  unregistered = λ k. refl;
  unsent = λ c. refl;
  idle = λ t. (codes "k", refl);
}

abbrev missed_once : Service
missed_once = set_task 0 (missed (codes "k")) started

abbrev missed_twice : Service
missed_twice = set_task 1 (missed (codes "k")) missed_once

abbrev led : Service
led = enter 0 (codes "k") missed_twice

abbrev shared : Service
shared = enter 1 (codes "k") led

shared-Reach : Reach started shared
unfolding enter eqb
shared-Reach =
    next
      (next
        (next (next here (miss {t = 0} {k = codes "k"} refl refl))
          (miss {t = 1} {k = codes "k"} refl refl))
        (join_or_lead {t = 0} {k = codes "k"} refl refl))
      (join_or_lead {t = 1} {k = codes "k"} refl refl)

Reach-one_leader_example : ◌≡◌ {A = ℕ} 0 0
unfolding enter eqb
Reach-one_leader_example = Reach-one_leader started-IsInitial shared-Reach (codes "k") 0 0 refl refl

Reach-follower_served_example :
    Leads (codes "k") (shared.task 0)
    ⊎ ((r : Outcome) × (shared.sent 0 ≡ some r) × Ended (codes "k") r (shared.task 0))
unfolding enter eqb
Reach-follower_served_example =
    Reach-follower_served started-IsInitial shared-Reach (codes "k") 1 0 refl

Reach-follower_ends_example : (v : Service) × Reach shared v × Served 1 (codes "k") v
unfolding enter eqb
Reach-follower_ends_example =
    Reach-follower_ends started-IsInitial shared-Reach (codes "k") 1 0 refl
