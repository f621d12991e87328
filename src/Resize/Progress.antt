-- ===== src/Resize/Progress.antt =====
-- How a follower of `ResizeService::resize` comes to its end.
use image_resizer.Prelude.{
  ==_iff, Bool-cases, Option, ap, arith, false, inl, inr, refl, some, ℕ, ◌==◌, ◌∙◌, ◌≡◌,
}
use image_resizer.Text.{Str}
use image_resizer.Resize.{
  Outcome, Phase, Service, finished, following, leading, leave, outcome_or_cancelled, set_task,
}
use image_resizer.Resize.Step.{IsInitial, Reach, guard_drop, here, next, receive}
use image_resizer.Resize.Invariant.{Leads}
use image_resizer.Resize.Theorems.{Reach-Inv, Reach-follower_served}

Leads-leading :
    (k : Str) (p : Phase) → Leads k p → (result : Option Outcome) × (p ≡ leading k result)
Leads-leading k (leading j result) h = (result, ap (λ i. leading i result) h)
Leads-leading k _ h = absurd h

-- What a registered leader leaves behind: its outcome on its channel, and the other tasks as they were.
leave-sent :
    (s : Service) (c : ℕ) (k : Str) (result : Option Outcome)
    → s.in_flight k ≡ some c
    → (leave c k result s).sent c ≡ some (outcome_or_cancelled k result)
unfolding leave
leave-sent s c k result e = ground arith

leave-task :
    (s : Service) (t c : ℕ) (k : Str) (result : Option Outcome)
    → (t == c) ≡ false
    → (leave c k result s).task t ≡ s.task t
unfolding leave
leave-task s t c k result other = ground arith

-- The task is done with an outcome for the key.
abbrev pub Served : ℕ → Str → Service → Type 0
Served t k s = (r : Outcome) × (s.task t ≡ finished k r)

receive-Served :
    {s u : Service} (t c : ℕ) (k : Str) (r : Outcome)
    → Reach s u
    → u.task t ≡ following k c
    → u.sent c ≡ some r
    → (v : Service) × Reach s v × Served t k v
receive-Served {u = u} t c k r reach at sent =
    (set_task t (finished k r) u, next reach (receive at sent refl), (r, ground arith))

-- A follower is never stuck: from every reachable state the system can go on to one where it is done,
-- with no help but that of its leader, whose guard is dropped at the latest with its task.
pub Reach-follower_ends :
    {s u : Service}
    → IsInitial s
    → Reach s u
    → (k : Str) (t c : ℕ) → u.task t ≡ following k c
    → (v : Service) × Reach u v × Served t k v
Reach-follower_ends {s} {u} i reach k t c at = elim (Reach-follower_served i reach k t c at) [
  | inl leads ↦
      let (result, phase) = Leads-leading k (u.task c) leads in
      let entry = (Reach-Inv i reach).leader_entry c k leads in
      let other : (t == c) ≡ false = elim (Bool-cases (t == c)) [
        | inl same ↦ absurd (ground (arith, ==_iff t c))
        | inr apart ↦ apart
      ] in
      receive-Served {s = u} {u = leave c k result u} t c k (outcome_or_cancelled k result)
        (next here (guard_drop {t = c} {k = k} {result = result} phase refl))
        (leave-task u t c k result other ∙ at) (leave-sent u c k result entry)
  | inr (r, sent, ended) ↦ receive-Served {s = u} {u = u} t c k r here at sent
]
