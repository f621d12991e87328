-- ===== src/Resize/Invariant.antt =====
-- The invariant between the registry and the tasks of `ResizeService::resize`.
use image_resizer.Prelude.{
  ==_iff, Bool-cases, arith, inl, inr, none, some, subst, ℕ, ◌==◌, ◌≡◌, ◌⊎◌,
}
use image_resizer.Text.{Str}
use image_resizer.Resize.{
  Outcome, Phase, Service, arrived, cancelled, dropped, finished, following, leading, missed,
  set_task,
}
use image_resizer.Resize.Step.{IsInitial}

-- The phase is that of a leader for the key.
abbrev pub Leads : Str → Phase → Type 0
Leads k (leading j r) = j ≡ k
Leads k _ = ⊥

-- The task is past its work for the key, and this is what it sent.
abbrev pub Ended : Str → Outcome → Phase → Type 0
Ended k r (finished j q) = (j ≡ k) × (q ≡ r)
Ended k r (dropped j) = (j ≡ k) × (cancelled k ≡ r)
Ended k r _ = ⊥

pub record Inv (s : Service) : Type 0 where
  -- An entry names a task that leads for the key and has sent nothing.
  pub entry_leads :
      (k : Str) (c : ℕ) → s.in_flight k ≡ some c → Leads k (s.task c) × (s.sent c ≡ none)
  -- A leader is registered.
  pub leader_entry : (t : ℕ) (k : Str) → Leads k (s.task t) → s.in_flight k ≡ some t
  -- What was sent on a task's channel is what the task ended with.
  pub sent_ended : (c : ℕ) (r : Outcome) → s.sent c ≡ some r → (k : Str) × Ended k r (s.task c)
  -- A follower's channel belongs to a registered leader of its key, or holds that leader's outcome.
  pub follower :
      (t c : ℕ) (k : Str)
      → s.task t ≡ following k c
      → (s.in_flight k ≡ some c) ⊎ ((r : Outcome) × (s.sent c ≡ some r) × Ended k r (s.task c))

pub initial-Inv : (s : Service) → IsInitial s → Inv s
initial-Inv s i = record {
  entry_leads = λ k c e. absurd (ground (arith, i.unregistered k));
  leader_entry = λ t k h. absurd (ground (arith, i.idle t));
  sent_ended = λ c r e. absurd (ground (arith, i.unsent c));
  follower = λ t c k e. absurd (ground (arith, i.idle t));
}

-- A task that has not led.
abbrev pub IsPassive : Phase → Type 0
IsPassive (arrived k) = Unit
IsPassive (missed k) = Unit
IsPassive (following k c) = Unit
IsPassive _ = ⊥

-- A phase that asks nothing of the registry.
abbrev pub IsFree : Phase → Type 0
IsFree (leading k r) = ⊥
IsFree (following k c) = ⊥
IsFree _ = Unit

pub passive-not-Leads : (k : Str) (p : Phase) → IsPassive p → ¬ Leads k p
passive-not-Leads k (leading j r) h l = h
passive-not-Leads k _ h l = l

pub passive-not-Ended : (k : Str) (r : Outcome) (p : Phase) → IsPassive p → ¬ Ended k r p
passive-not-Ended k r (finished j q) h e = h
passive-not-Ended k r (dropped j) h e = h
passive-not-Ended k r _ h e = e

pub free-not-Leads : (k : Str) (p : Phase) → IsFree p → ¬ Leads k p
free-not-Leads k (leading j r) h l = h
free-not-Leads k _ h l = l

module _ (s : Service) (v : Inv s) (t : ℕ) (passive : IsPassive (s.task t)) where
  -- Another task's phase is not touched.
  pub other-Leads :
      (phase : Phase) (c : ℕ) (k : Str) → Leads k (s.task c) → Leads k ((set_task t phase s).task c)
  other-Leads phase c k l = elim (Bool-cases (c == t)) [
    | inl same ↦ absurd (
        passive-not-Leads k (s.task t) passive
          (subst (λ u. Leads k (s.task u)) ((==_iff c t).0 same) l))
    | inr other ↦ rw other l
  ]

  pub other-Ended :
      (phase : Phase) (c : ℕ) (k : Str) (r : Outcome)
      → Ended k r (s.task c)
      → Ended k r ((set_task t phase s).task c)
  other-Ended phase c k r l = elim (Bool-cases (c == t)) [
    | inl same ↦ absurd (
        passive-not-Ended k r (s.task t) passive
          (subst (λ u. Ended k r (s.task u)) ((==_iff c t).0 same) l))
    | inr other ↦ rw other l
  ]

  pub free_step-Inv : (phase : Phase) → IsFree phase → Inv (set_task t phase s)
  free_step-Inv phase free = record {
    entry_leads = λ k c e. (other-Leads phase c k (v.entry_leads k c e).0, (v.entry_leads k c e).1);
    leader_entry = λ u k l. elim (Bool-cases (u == t)) [
      | inl same ↦ absurd (free-not-Leads k phase free (rw same at l))
      | inr other ↦ v.leader_entry u k (rw other at l)
    ];
    sent_ended = λ c r e. let (k, ended) = v.sent_ended c r e in (k, other-Ended phase c k r ended);
    follower = λ u c k e. elim (Bool-cases (u == t)) [
      | inl same ↦ absurd (ground arith)
      | inr other ↦ elim (v.follower u c k (rw other at e)) [
        | inl entry ↦ inl entry
        | inr (r, sent, ended) ↦ inr (r, sent, other-Ended phase c k r ended)
      ]
    ];
  }
