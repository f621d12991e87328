-- ===== src/Resize/Theorems.antt =====
-- The invariant over all runs, and its consequences.
use image_resizer.Prelude.{inl, inr, none, ok, some, subst, sym, ℕ, ◌↔◌, ◌∙◌, ◌≡◌, ◌⊎◌}
use image_resizer.Text.{Str}
use image_resizer.Resize.{Outcome, Service, finished, following, missed}
use image_resizer.Resize.Step.{
  IsInitial, Reach, Step, guard_drop, here, hit, join_or_lead, miss, next, receive, work,
}
use image_resizer.Resize.Invariant.{Ended, Inv, IsPassive, Leads, free_step-Inv, initial-Inv}
use image_resizer.Resize.Preserve.{enter-Inv}
use image_resizer.Resize.Leave.{finish_work-Inv, leave-Inv}

Step-Inv : {s u : Service} → Step s u → Inv s → Inv u
Step-Inv {s} (hit {t} {k} url at stored same) v =
    rw same (free_step-Inv s v t (subst IsPassive (sym at) tt) (finished k (ok url)) tt)
Step-Inv {s} (miss {t} {k} at same) v =
    rw same (free_step-Inv s v t (subst IsPassive (sym at) tt) (missed k) tt)
Step-Inv {s} (join_or_lead {t} {k} at same) v =
    rw same (enter-Inv s t k v (subst IsPassive (sym at) tt))
Step-Inv {s} (work {t} {k} r at same) v = rw same (finish_work-Inv s t k none v at r)
Step-Inv {s} (guard_drop {t} {k} {result} at same) v = rw same (leave-Inv s t k result v at)
Step-Inv {s} (receive {t} {c} {k} {r} at sent same) v =
    rw same (free_step-Inv s v t (subst IsPassive (sym at) tt) (finished k r) tt)

pub Reach-Inv : {s u : Service} → IsInitial s → Reach s u → Inv u
Reach-Inv {s} i here = initial-Inv s i
Reach-Inv i (next r st) = Step-Inv st (Reach-Inv i r)

-- At most one task works on a key at any time.
pub Reach-one_leader :
    {s u : Service}
    → IsInitial s
    → Reach s u
    → (k : Str) (t t' : ℕ) → Leads k (u.task t)
    → Leads k (u.task t')
    → t ≡ t'
Reach-one_leader i r k t t' l l' =
    let v = Reach-Inv i r in cc (sym (v.leader_entry t k l) ∙ v.leader_entry t' k l')

-- No follower waits in vain: either a task still leads for its key on the channel it waits on, or
-- that channel holds the outcome of a task that led for the same key.
pub Reach-follower_served :
    {s u : Service}
    → IsInitial s
    → Reach s u
    → (k : Str) (t c : ℕ) → u.task t ≡ following k c
    → Leads k (u.task c) ⊎ ((r : Outcome) × (u.sent c ≡ some r) × Ended k r (u.task c))
Reach-follower_served i r k t c e =
    let v = Reach-Inv i r in
    elim (v.follower t c k e) [
      | inl there ↦ inl (v.entry_leads k c there).0
      | inr ended ↦ inr ended
    ]

-- The registry holds an entry for a key exactly while a task leads for it: no entry outlives its
-- leader, however the leader ends.
pub Reach-registered_iff :
    {s u : Service}
    → IsInitial s
    → Reach s u
    → (k : Str) (t : ℕ) → (u.in_flight k ≡ some t) ↔ Leads k (u.task t)
Reach-registered_iff i r k t =
    let v = Reach-Inv i r in (λ e. (v.entry_leads k t e).0, λ l. v.leader_entry t k l)
