-- ===== src/Negotiation/Laws.antt =====
-- Lemmas on the negotiation of the format.
use image_resizer.Prelude.{
  &&-eq-true, Bool-cases, List, Option, ap, arith, false, inl, inr, refl, subst, sym, true, ◌&&◌,
  ◌∙◌, ◌≡◌, ◌≢◌, ◌⊎◌,
}
use image_resizer.Prelude.Floats.{FloatLaws, Floats}
use image_resizer.Text.{Str, codes}
use image_resizer.Negotiation.Weights.{
  AtMost, Best, EachWeight, EachWeight-map, IsNan, IsPositive, SomeWeight, SomeWeight-map, best,
  best_q-Best, clash, no_weight,
}
use image_resizer.Negotiation.{AcceptEntry, best_q, entries_of, negotiated_format, or_zero, resolve}
use image_resizer.Models.Formats.{ImageFormat, avif, gif, jpg, png, webp}

module _ (fl : Floats) (laws : FloatLaws fl) where
  open fl use {F32, zero_f32, lt_f32, le_f32}

  -- What the entries of a header ask for. AVIF: it has a positive weight, and no weight of WebP is
  -- larger. WebP: it has a positive weight that exceeds every positive one of AVIF. JPEG: WebP has no
  -- positive weight, and AVIF has none either or the weights of WebP are all NaN.
  pub data Answers (es : List (AcceptEntry fl)) : ImageFormat → Type 0 where
    answers_avif :
        (q : F32)
        → IsPositive fl laws q
        → SomeWeight fl laws (λ a. a ≡ q) (codes "image/avif") es
        → EachWeight fl laws (λ w. ⊥) (codes "image/webp") es
          ⊎ SomeWeight fl laws (λ w. le_f32 w q ≡ true) (codes "image/webp") es
        → EachWeight fl laws (AtMost fl laws q) (codes "image/webp") es
        → Answers es avif
    answers_webp :
        (q : F32)
        → IsPositive fl laws q
        → SomeWeight fl laws (λ w. w ≡ q) (codes "image/webp") es
        → EachWeight fl laws
            (λ a. IsPositive fl laws a → le_f32 q a ≡ false)
            (codes "image/avif")
            es
        → Answers es webp
    answers_jpg :
        EachWeight fl laws (λ w. lt_f32 zero_f32 w ≡ false) (codes "image/webp") es
        → EachWeight fl laws (λ a. lt_f32 zero_f32 a ≡ false) (codes "image/avif") es
          ⊎ (SomeWeight fl laws (IsNan fl laws) (codes "image/webp") es
              × EachWeight fl laws (IsNan fl laws) (codes "image/webp") es)
        → Answers es jpg

  -- No positive number is a NaN.
  positive_number : (q : F32) → IsPositive fl laws q → ¬ IsNan fl laws q
  positive_number q h nan = cc (laws.le_refl_right zero_f32 q (laws.lt_le zero_f32 q h), nan)

  avif_case :
      (es : List (AcceptEntry fl)) {a w : Option F32}
      → Best fl laws es (codes "image/avif") a
      → Best fl laws es (codes "image/webp") w
      → lt_f32 zero_f32 (or_zero fl a) ≡ true
      → le_f32 (or_zero fl w) (or_zero fl a) ≡ true
      → Answers es avif
  avif_case es (no_weight _) bw pos le = absurd cc (pos, laws.lt_f32_irrefl zero_f32)
  avif_case es (best q some_a _) (no_weight n) pos le =
      answers_avif q pos some_a (inl n)
        (EachWeight-map fl laws (codes "image/webp") es (λ x h. absurd h) n)
  avif_case es (best q some_a _) (best w some_w each_w) pos le =
      answers_avif q pos some_a
        (inr (
          SomeWeight-map fl laws (codes "image/webp") es
            (λ x same. subst (λ y. le_f32 y q ≡ true) (sym same) le) some_w))
        (EachWeight-map fl laws (codes "image/webp") es (λ x h. lowered w q x le h) each_w)
    where
      lowered : (w q x : F32) → le_f32 w q ≡ true → AtMost fl laws w x → AtMost fl laws q x
      lowered w q x le (inl h) = inl (laws.le_le x w q h le)
      lowered w q x le (inr nan) = inr nan

  -- A positive weight below a bound.
  positive_le :
      (bound x : F32) → AtMost fl laws bound x → IsPositive fl laws x → le_f32 x bound ≡ true
  positive_le bound x (inl h) pos = h
  positive_le bound x (inr nan) pos = absurd (positive_number x pos nan)

  webp_case :
      (es : List (AcceptEntry fl)) {a w : Option F32}
      → Best fl laws es (codes "image/avif") a
      → Best fl laws es (codes "image/webp") w
      → (lt_f32 zero_f32 (or_zero fl a) && le_f32 (or_zero fl w) (or_zero fl a)) ≡ false
      → lt_f32 zero_f32 (or_zero fl w) ≡ true
      → Answers es webp
  webp_case es ba (no_weight _) not_avif pos = absurd cc (pos, laws.lt_f32_irrefl zero_f32)
  webp_case es (no_weight n) (best w some_w _) not_avif pos =
      answers_webp w pos some_w (EachWeight-map fl laws (codes "image/avif") es (λ x h. absurd h) n)
  webp_case es (best q _ each_a) (best w some_w _) not_avif pos = answers_webp w pos some_w (
      EachWeight-map fl laws (codes "image/avif") es
        (λ x h pos_x. elim (Bool-cases (le_f32 w x)) [
          | inr apart ↦ apart
          | inl le ↦
              let below = positive_le q x h pos_x in
              let q_pos = laws.lt_le_lt zero_f32 x q pos_x below in
              let w_le = laws.le_le w x q le below in absurd (ground (arith, q_pos, w_le))
        ])
        each_a)

  not_positive :
      (bound x : F32)
      → lt_f32 zero_f32 bound ≡ false
      → AtMost fl laws bound x
      → lt_f32 zero_f32 x ≡ false
  not_positive bound x none_above h = elim (Bool-cases (lt_f32 zero_f32 x)) [
    | inr low ↦ low
    | inl pos ↦
        let bound_pos = laws.lt_le_lt zero_f32 x bound pos (positive_le bound x h pos) in
        absurd cc (bound_pos, none_above)
  ]

  -- A positive weight of AVIF that the choice passed over.
  passed_over :
      (w q x : F32)
      → (lt_f32 zero_f32 q && le_f32 w q) ≡ false
      → le_f32 w zero_f32 ≡ true
      → AtMost fl laws q x
      → lt_f32 zero_f32 x ≡ false
  passed_over w q x not_avif low h = elim (Bool-cases (lt_f32 zero_f32 x)) [
    | inr not_pos ↦ not_pos
    | inl pos ↦
        let q_pos = laws.lt_le_lt zero_f32 x q pos (positive_le q x h pos) in
        let w_le = laws.le_le w zero_f32 q low (laws.lt_le zero_f32 q q_pos) in
        absurd (ground (arith, q_pos, w_le))
  ]

  zero_number : le_f32 zero_f32 zero_f32 ≡ true
  zero_number =
      laws.le_refl_left zero_f32 fl.one_f32 (laws.lt_le zero_f32 fl.one_f32 laws.zero_lt_one_f32)

  all-IsNan : (w x : F32) → IsNan fl laws w → AtMost fl laws w x → IsNan fl laws x
  all-IsNan w x nan (inl h) = absurd cc (laws.le_refl_right x w h, nan)
  all-IsNan w x nan (inr h) = h

  jpg_case :
      (es : List (AcceptEntry fl)) {a w : Option F32}
      → Best fl laws es (codes "image/avif") a
      → Best fl laws es (codes "image/webp") w
      → (lt_f32 zero_f32 (or_zero fl a) && le_f32 (or_zero fl w) (or_zero fl a)) ≡ false
      → lt_f32 zero_f32 (or_zero fl w) ≡ false
      → Answers es jpg
  jpg_case es ba bw not_avif not_webp =
      answers_jpg (webp_low bw not_webp) (avif_low ba bw not_avif not_webp)
    where
      webp_low :
          {w : Option F32}
          → Best fl laws es (codes "image/webp") w
          → lt_f32 zero_f32 (or_zero fl w) ≡ false
          → EachWeight fl laws (λ x. lt_f32 zero_f32 x ≡ false) (codes "image/webp") es
      webp_low (no_weight n) low =
          EachWeight-map fl laws (codes "image/webp") es (λ x h. absurd h) n
      webp_low (best w _ each_w) low =
          EachWeight-map fl laws (codes "image/webp") es (λ x h. not_positive w x low h) each_w

      avif_low :
          {a w : Option F32}
          → Best fl laws es (codes "image/avif") a
          → Best fl laws es (codes "image/webp") w
          → (lt_f32 zero_f32 (or_zero fl a) && le_f32 (or_zero fl w) (or_zero fl a)) ≡ false
          → lt_f32 zero_f32 (or_zero fl w) ≡ false
          → EachWeight fl laws (λ x. lt_f32 zero_f32 x ≡ false) (codes "image/avif") es
            ⊎ (SomeWeight fl laws (IsNan fl laws) (codes "image/webp") es
                × EachWeight fl laws (IsNan fl laws) (codes "image/webp") es)
      avif_low (no_weight n) bw not_avif low =
          inl (EachWeight-map fl laws (codes "image/avif") es (λ x h. absurd h) n)
      avif_low (best q _ each_a) (no_weight n) not_avif low = inl (
          EachWeight-map fl laws (codes "image/avif") es
            (λ x h. passed_over zero_f32 q x not_avif zero_number h) each_a)
      avif_low (best q _ each_a) (best w some_w each_w) not_avif low =
          elim (Bool-cases (le_f32 w w)) [
            | inl number ↦
                let w_low = laws.le_of_not_lt zero_f32 w zero_number number low in
                inl (
                  EachWeight-map fl laws (codes "image/avif") es
                    (λ x h. passed_over w q x not_avif w_low h) each_a)
            | inr nan ↦ inr (
              SomeWeight-map fl laws (codes "image/webp") es
                  (λ x same. subst (IsNan fl laws) (sym same) nan) some_w,
              EachWeight-map fl laws (codes "image/webp") es (λ x h. all-IsNan w x nan h) each_w,
            )
          ]

  negotiated-Answers : (es : List (AcceptEntry fl)) → Answers es (negotiated_format fl es)
  unfolding negotiated_format
  negotiated-Answers es =
      let ba = best_q-Best fl laws es (codes "image/avif") in
      let bw = best_q-Best fl laws es (codes "image/webp") in
      let avif_q = or_zero fl (best_q fl es (codes "image/avif")) in
      let webp_q = or_zero fl (best_q fl es (codes "image/webp")) in
      elim (Bool-cases (lt_f32 zero_f32 avif_q && le_f32 webp_q avif_q)) [
        | inl first ↦
            let (pos, le) = &&-eq-true (lt_f32 zero_f32 avif_q) _ first in
            rw first (avif_case es ba bw pos le)
        | inr not_first ↦ elim (Bool-cases (lt_f32 zero_f32 webp_q)) [
          | inl second ↦ rw not_first (rw second (webp_case es ba bw not_first second))
          | inr neither ↦ rw not_first (rw neither (jpg_case es ba bw not_first neither))
        ]
      ]

  Answers-ne-auto :
      {es : List (AcceptEntry fl)} (f : ImageFormat) → Answers es f → f ≢ ImageFormat.auto
  Answers-ne-auto _ (answers_avif _ _ _ _ _) e = cc
  Answers-ne-auto _ (answers_webp _ _ _ _) e = cc
  Answers-ne-auto _ (answers_jpg _ _) e = cc

  not_avif_webp : (es : List (AcceptEntry fl)) → Answers es avif → ¬ Answers es webp
  not_avif_webp es (answers_avif q pos some_a _ each_w) (answers_webp w w_pos some_w each_a) =
      clash fl laws (codes "image/webp") es
        (λ x is_w at_most.
          clash fl laws (codes "image/avif") es
            (λ y is_q above.
              let above_q = above (subst (IsPositive fl laws) (sym is_q) pos) in
              let x_pos = subst (IsPositive fl laws) (sym is_w) w_pos in
              let below = positive_le q x at_most x_pos in cc (above_q, below, is_w, is_q))
            some_a each_a)
        some_w each_w

  not_avif_jpg : (es : List (AcceptEntry fl)) → Answers es avif → ¬ Answers es jpg
  not_avif_jpg es (answers_avif q pos some_a _ _) (answers_jpg _ (inl none_a)) =
      clash fl laws (codes "image/avif") es (λ x is_q low. cc (is_q, low, pos)) some_a none_a
  not_avif_jpg es (answers_avif q pos _ (inl none_w) _) (answers_jpg _ (inr (some_w, _))) =
      clash fl laws (codes "image/webp") es (λ x h no. no) some_w none_w
  not_avif_jpg es (answers_avif q pos _ (inr some_w) _) (answers_jpg _ (inr (_, nans))) =
      clash fl laws (codes "image/webp") es (λ x le nan. cc (laws.le_refl_left x q le, nan)) some_w
        nans

  not_webp_jpg : (es : List (AcceptEntry fl)) → Answers es webp → ¬ Answers es jpg
  not_webp_jpg es (answers_webp w pos some_w _) (answers_jpg none_w _) =
      clash fl laws (codes "image/webp") es (λ x is_w low. cc (is_w, low, pos)) some_w none_w

  Answers-unique :
      (es : List (AcceptEntry fl)) (f g : ImageFormat) → Answers es f → Answers es g → f ≡ g
  Answers-unique es avif avif h k = refl
  Answers-unique es webp webp h k = refl
  Answers-unique es jpg jpg h k = refl
  Answers-unique es avif webp h k = absurd (not_avif_webp es h k)
  Answers-unique es webp avif h k = absurd (not_avif_webp es k h)
  Answers-unique es avif jpg h k = absurd (not_avif_jpg es h k)
  Answers-unique es jpg avif h k = absurd (not_avif_jpg es k h)
  Answers-unique es webp jpg h k = absurd (not_webp_jpg es h k)
  Answers-unique es jpg png h k = elim k [ ]
  Answers-unique es jpg gif h k = elim k [ ]
  Answers-unique es jpg ImageFormat.auto h k = elim k [ ]
  Answers-unique es webp png h k = elim k [ ]
  Answers-unique es webp gif h k = elim k [ ]
  Answers-unique es webp ImageFormat.auto h k = elim k [ ]
  Answers-unique es avif png h k = elim k [ ]
  Answers-unique es avif gif h k = elim k [ ]
  Answers-unique es avif ImageFormat.auto h k = elim k [ ]
  Answers-unique es png g h k = elim h [ ]
  Answers-unique es gif g h k = elim h [ ]
  Answers-unique es ImageFormat.auto g h k = elim h [ ]
  Answers-unique es jpg webp h k = absurd (not_webp_jpg es k h)

  -- A format other than `.auto` passes unchanged. For `.auto` the answer is what the entries of the
  -- header ask for, and no other format is: AVIF with a positive weight that no weight of WebP
  -- exceeds, else WebP with a positive weight above those of AVIF, else JPEG, which is also the answer
  -- where the weights of WebP are all NaN.
  pub resolve-Answers :
      (format : ImageFormat) (accept : Option Str)
      → ((format ≢ ImageFormat.auto) × (resolve fl format accept ≡ (format, false)))
        ⊎ ((format ≡ ImageFormat.auto)
            × Answers (entries_of fl accept) (resolve fl format accept).0
            × ((f : ImageFormat)
                → Answers (entries_of fl accept) f
                → f ≡ (resolve fl format accept).0)
            × ((resolve fl format accept).1 ≡ true))
  unfolding resolve
  resolve-Answers ImageFormat.auto accept =
      let answer = negotiated-Answers (entries_of fl accept) in
      inr (refl, answer, (λ f h. Answers-unique (entries_of fl accept) f _ h answer), refl)
  resolve-Answers jpg accept = inl (λ h. cc, refl)
  resolve-Answers _ accept = inl (λ h. cc, refl)

  -- The format that reaches the key is never `.auto`.
  pub resolve-ne-auto :
      (format : ImageFormat) (accept : Option Str) → (resolve fl format accept).0 ≢ ImageFormat.auto
  resolve-ne-auto format accept e = elim (resolve-Answers format accept) [
    | inl (named, same) ↦ named (sym (ap (λ r. r.0) same) ∙ e)
    | inr (_, answer, _, _) ↦ Answers-ne-auto _ answer e
  ]
