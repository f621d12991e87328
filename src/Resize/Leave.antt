-- ===== src/Resize/Leave.antt =====
-- The invariant under the leader's own steps: the end of its work, and the drop of its guard.
use image_resizer.Prelude.{
  Bool-cases, Option, ap, arith, false, inl, inr, none, refl, some, sym, ℕ, ◌==◌, ◌∙◌, ◌≡◌, ◌≢◌,
  ◌⊎◌,
}
use image_resizer.Text.{Str, eqb, eqb_iff}
use image_resizer.Resize.{
  Outcome, Service, after_drop, drop_guard, finish_work, following, leading, leave,
  outcome_or_cancelled, send, set_entry, set_task,
}
use image_resizer.Resize.Invariant.{Ended, Inv, Leads}

module _ (s : Service) (t : ℕ) (k : Str) (g : Option Outcome) (v : Inv s)
    (leads : s.task t ≡ leading k g) where
  -- The leader of `k` is registered, and leads for no other key.
  registered : s.in_flight k ≡ some t
  registered = v.leader_entry t k (ground arith)

  Leads-only : (j : Str) → Leads j (s.task t) → j ≡ k
  Leads-only j l = ground arith

  not-Ended : (j : Str) (r : Outcome) → ¬ Ended j r (s.task t)
  not-Ended j r e = ground arith

  pub finish_work-Inv : (r : Outcome) → Inv (finish_work t k r s)
  unfolding finish_work
  finish_work-Inv r = record {
    entry_leads = λ j c e. ground (arith, v.entry_leads j c e);
    leader_entry = λ u j l. elim (Bool-cases (u == t)) [
      | inl same ↦ ground (arith, registered)
      | inr other ↦ v.leader_entry u j (rw other at l)
    ];
    sent_ended = λ d q e. let (j, ended) = v.sent_ended d q e in (j, ground (arith, not-Ended j q));
    follower = λ u d j e. elim (Bool-cases (u == t)) [
      | inl same ↦ absurd (ground arith)
      | inr other ↦ elim (v.follower u d j (rw other at e)) [
        | inl there ↦ inl there
        | inr (q, sent, ended) ↦ inr (q, sent, ground (arith, not-Ended j q))
      ]
    ];
  }

  abbrev outcome : Outcome
  outcome = outcome_or_cancelled k g

  abbrev left : Service
  left = set_task t (after_drop k g) (send t outcome (set_entry k none s))

  drop_guard_lem : drop_guard k g s ≡ send t outcome (set_entry k none s)
  unfolding drop_guard
  drop_guard_lem = rw (registered, drop_guard)

  leave_lem : leave t k g s ≡ left
  unfolding leave
  leave_lem = ap (set_task t (after_drop k g)) drop_guard_lem

  -- The leader's last phase is the end of what it sends.
  after_drop-Ended : (h : Option Outcome) → Ended k (outcome_or_cancelled k h) (after_drop k h)
  after_drop-Ended none = (refl, refl)
  after_drop-Ended (some r) = (refl, refl)

  after_drop-not-Leads : (h : Option Outcome) (j : Str) → ¬ Leads j (after_drop k h)
  after_drop-not-Leads none j l = l
  after_drop-not-Leads (some r) j l = l

  after_drop-ne-following : (h : Option Outcome) (j : Str) (d : ℕ) → after_drop k h ≢ following j d
  after_drop-ne-following none j d e = cc
  after_drop-ne-following (some r) j d e = cc

  other_entry : (j : Str) (c : ℕ) → eqb j k ≡ false → Leads j (s.task c) → (c == t) ≡ false
  other_entry j c other l = ground (arith, eqb_iff j k, Leads-only j)

  left-follower :
      (u d : ℕ) (j : Str)
      → left.task u ≡ following j d
      → (left.in_flight j ≡ some d)
        ⊎ ((r : Outcome) × (left.sent d ≡ some r) × Ended j r (left.task d))
  left-follower u d j e = elim (Bool-cases (u == t)) [
    | inl same ↦ absurd (after_drop-ne-following g j d (rw same at e))
    | inr other ↦ elim (v.follower u d j (rw other at e)) [
      | inl there ↦ elim (Bool-cases (eqb j k)) [
        | inl mine ↦
            let key : j ≡ k = (eqb_iff j k).0 mine in
            let own : d ≡ t = cc (sym there ∙ (ap s.in_flight key ∙ registered)) in
            inr (outcome, ground arith, ground (arith, after_drop-Ended g))
        | inr apart ↦ inl (rw apart there)
      ]
      | inr (q, sent, ended) ↦
          let apart : (d == t) ≡ false = ground (arith, not-Ended j q) in
          inr (q, rw apart sent, rw apart ended)
    ]
  ]

  left-Inv : Inv left
  left-Inv = record {
    entry_leads = λ j c e. elim (Bool-cases (eqb j k)) [
      | inl same ↦ absurd (ground arith)
      | inr other ↦
          let old = v.entry_leads j c (rw other at e) in ground (arith, other_entry j c other old.0)
    ];
    leader_entry = λ u j l. elim (Bool-cases (u == t)) [
      | inl same ↦ absurd (after_drop-not-Leads g j (rw same at l))
      | inr other ↦
          let old = v.leader_entry u j (rw other at l) in ground (arith, eqb_iff j k, registered)
    ];
    sent_ended = λ d q e. elim (Bool-cases (d == t)) [
      | inl same ↦ (k, ground (arith, after_drop-Ended g))
      | inr other ↦ let (j, ended) = v.sent_ended d q (rw other at e) in (j, rw other ended)
    ];
    follower = left-follower;
  }

  pub leave-Inv : Inv (leave t k g s)
  leave-Inv = rw leave_lem left-Inv
