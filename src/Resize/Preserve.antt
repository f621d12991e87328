-- ===== src/Resize/Preserve.antt =====
-- The invariant under the entry into the registry.
use image_resizer.Prelude.{Bool-cases, Option-cases, arith, inl, inr, none, some, ℕ, ◌==◌, ◌≡◌}
use image_resizer.Text.{Str, eqb, eqb_iff}
use image_resizer.Resize.{Service, enter, following, leading, set_entry, set_task}
use image_resizer.Resize.Invariant.{Inv, IsPassive, other-Ended, other-Leads, passive-not-Ended}

-- A task joins the channel that is registered for its key.
join-Inv :
    (s : Service) (t c : ℕ) (k : Str)
    → Inv s
    → IsPassive (s.task t)
    → s.in_flight k ≡ some c
    → Inv (set_task t (following k c) s)
join-Inv s t c k v passive entry = record {
  entry_leads =
      λ j d e. (other-Leads s v t passive _ d j (v.entry_leads j d e).0, (v.entry_leads j d e).1);
  leader_entry = λ u j l. elim (Bool-cases (u == t)) [
    | inl same ↦ absurd (rw same at l)
    | inr other ↦ v.leader_entry u j (rw other at l)
  ];
  sent_ended =
      λ d r e. let (j, ended) = v.sent_ended d r e in (j, other-Ended s v t passive _ d j r ended);
  follower = λ u d j e. elim (Bool-cases (u == t)) [
    | inl same ↦ inl (ground arith)
    | inr other ↦ elim (v.follower u d j (rw other at e)) [
      | inl there ↦ inl there
      | inr (r, sent, ended) ↦ inr (r, sent, other-Ended s v t passive _ d j r ended)
    ]
  ];
}

module _ (s : Service) (t : ℕ) (k : Str) (v : Inv s) (passive : IsPassive (s.task t))
    (vacant : s.in_flight k ≡ none) where
  abbrev led : Service
  led = set_task t (leading k none) (set_entry k (some t) s)

  passive_unsent : s.sent t ≡ none
  passive_unsent = elim (Option-cases (s.sent t)) [
    | inl e ↦ e
    | inr (r, e) ↦
        let (j, ended) = v.sent_ended t r e in
        absurd (passive-not-Ended j r (s.task t) passive ended)
  ]

  -- A task opens a channel for a key that has none.
  lead-Inv : Inv led
  lead-Inv = record {
    entry_leads = λ j c e. elim (Bool-cases (eqb j k)) [
      | inl same ↦ ground (arith, passive_unsent, eqb_iff j k)
      | inr other ↦
          let old : s.in_flight j ≡ some c = rw other at e in
          (other-Leads s v t passive _ c j (v.entry_leads j c old).0, (v.entry_leads j c old).1)
    ];
    leader_entry = λ u j l. elim (Bool-cases (u == t)) [
      | inl same ↦ ground (arith, eqb_iff j k)
      | inr other ↦ let old = v.leader_entry u j (rw other at l) in ground (arith, eqb_iff j k)
    ];
    sent_ended = λ d r e.
        let (j, ended) = v.sent_ended d r e in (j, other-Ended s v t passive _ d j r ended);
    follower = λ u d j e. elim (Bool-cases (u == t)) [
      | inl same ↦ absurd (ground arith)
      | inr other ↦ elim (v.follower u d j (rw other at e)) [
        | inl there ↦ inl (ground (arith, eqb_iff j k))
        | inr (r, sent, ended) ↦ inr (r, sent, other-Ended s v t passive _ d j r ended)
      ]
    ];
  }

pub enter-Inv : (s : Service) (t : ℕ) (k : Str) → Inv s → IsPassive (s.task t) → Inv (enter t k s)
unfolding enter
enter-Inv s t k v passive = elim (Option-cases (s.in_flight k)) [
  | inl e ↦ rw (e, enter) (lead-Inv s t k v passive e)
  | inr (c, e) ↦ rw (e, enter) (join-Inv s t c k v passive e)
]
