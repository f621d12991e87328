-- ===== src/Image/MaxBytes/Fits.antt =====
-- The search for a quality that fits, against an encoder that succeeds at every quality.
use image_resizer.Prelude.{
  Bool-cases, List, Result, arith, false, inl, inr, leb, length, ltb, ok, refl, subst, suc, sym,
  zero, ℕ, ◌*◌, ◌+◌, ◌-◌, ◌/◌, ◌==◌, ◌||◌, ◌∙◌, ◌≡◌, ◌≢◌, ◌≤◌,
}
use image_resizer.Image.MaxBytes.{
  encode_with_max_bytes, fallback, max_bytes_search_attempts, search, within_budget,
}

module _ {E : Type 0} (max_bytes : ℕ) (encode_at : ℕ → Result E (List ℕ)) where
  abbrev pub Fits : List ℕ → Type 0
  Fits bytes = length bytes ≤ max_bytes

  -- The bytes are what the encoder makes of a quality between 1 and `top`.
  abbrev pub MadeWithin : ℕ → List ℕ → Type 0
  MadeWithin top bytes = (q : ℕ) × (1 ≤ q) × (q ≤ top) × (encode_at q ≡ ok bytes)

  -- The search ends with such an output that fits.
  abbrev Finds : ℕ → Result E (List ℕ) → Type 0
  Finds top m = (bytes : List ℕ) × (m ≡ ok bytes) × MadeWithin top bytes × Fits bytes

  abbrev pub Succeeds : Type 0
  Succeeds = (q : ℕ) → (bytes : List ℕ) × (encode_at q ≡ ok bytes)

  -- Once an output fits, the search ends with one that fits.
  search_after_fit :
      Succeeds
      → (top attempts : ℕ) (best : List ℕ) (low high : ℕ) → MadeWithin top best
      → Fits best
      → 1 ≤ low
      → high ≤ top
      → Finds top (search max_bytes encode_at attempts best low high)
  unfolding search
  search_after_fit works top zero best low high made fits above below = (best, refl, made, fits)
  search_after_fit works top (suc n) best low high made fits above below =
      let mid = low + (high - low) / 2 in
      let (candidate, encoded) = works mid in
      elim (Bool-cases (ltb high low)) [
        | inl done ↦ rw done (best, refl, made, fits)
        | inr going ↦
            let made_here : MadeWithin top candidate = (mid, omega arith, ground arith, encoded) in
            elim (Bool-cases (within_budget max_bytes encode_at candidate)) [
              | inl small ↦
                  let fits_here : Fits candidate = ground arith in
                  elim (Bool-cases (mid == 255)) [
                    | inl last ↦
                        rw going
                          (rw encoded (rw small (rw last (candidate, refl, made_here, fits_here))))
                    | inr next ↦ rw going (
                        rw encoded (
                          rw small (
                            rw next (
                              search_after_fit works top n candidate (mid + 1) high made_here
                                fits_here (omega arith) below))))
                  ]
              | inr large ↦
                  let kept : fallback max_bytes encode_at best candidate ≡ best = ground arith in
                  let high_pos : (mid == 0) ≡ false = ground arith in
                  rw going (
                    rw encoded (
                      rw large (
                        rw high_pos (
                          rw kept (
                            search_after_fit works top n best low (mid - 1) made fits above
                              (ground arith))))))
            ]
      ]

  -- How far `n` attempts reach: an upper end below this is halved down to 1 within them.
  abbrev span : ℕ → ℕ
  span zero = 2
  span (suc n) = 2 * span n

  -- While nothing has fit, the lower end stays at 1.
  search_before_fit :
      Succeeds
      → ((bytes : List ℕ) → encode_at 1 ≡ ok bytes → Fits bytes)
      → (top attempts : ℕ) (best : List ℕ) (high : ℕ) → ¬ Fits best
      → 1 ≤ high
      → high ≤ top
      → high + 2 ≤ span attempts
      → Finds top (search max_bytes encode_at attempts best 1 high)
  unfolding search
  search_before_fit works least top zero best high over some_left below short = absurd (omega arith)
  search_before_fit works least top (suc n) best high over some_left below short =
      let mid = 1 + (high - 1) / 2 in
      let (candidate, encoded) = works mid in
      let going : ltb high 1 ≡ false = ground arith in
      let made_here : MadeWithin top candidate = (mid, omega arith, omega arith, encoded) in
      elim (Bool-cases (within_budget max_bytes encode_at candidate)) [
        | inl small ↦
            let fits_here : Fits candidate = ground arith in
            elim (Bool-cases (mid == 255)) [
              | inl last ↦
                  rw going (rw encoded (rw small (rw last (candidate, refl, made_here, fits_here))))
              | inr next ↦ rw going (
                  rw encoded (
                    rw small (
                      rw next (
                        search_after_fit works top n candidate (mid + 1) high made_here fits_here
                          (omega arith) below))))
            ]
        | inr large ↦
            let over_here : ¬ Fits candidate = λ fits. ground arith in
            let not_one : mid ≢ 1 = λ one.
              over_here (least candidate (subst (λ q. encode_at q ≡ ok candidate) one encoded)) in
            let mid_pos : (mid == 0) ≡ false = ground arith in
            let over_both : ¬ Fits (fallback max_bytes encode_at best candidate) =
              λ fits. ground arith in
            rw going (
              rw encoded (
                rw large (
                  rw mid_pos (
                    search_before_fit works least top n
                      (fallback max_bytes encode_at best candidate) (mid - 1) over_both
                      (omega (arith, not_one)) (omega arith) (omega arith)))))
      ]

  ok-injective : {x y : List ℕ} → ◌≡◌ {A = Result E (List ℕ)} (ok x) (ok y) → x ≡ y
  ok-injective h = cc

  -- For an encoder that succeeds at every quality, whose output at quality 1 is within the budget,
  -- and a quality from 1 to 127, the six attempts are enough: the result is an output of the encoder
  -- at a quality from 1 to the one asked for, and it is within the budget. If the output at the
  -- quality asked for is within the budget, it is the result.
  pub encode_with_max_bytes-Fits :
      Succeeds
      → ((bytes : List ℕ) → encode_at 1 ≡ ok bytes → Fits bytes)
      → (initial_quality : ℕ) → 1 ≤ initial_quality
      → initial_quality ≤ 127
      → (bytes : List ℕ) × (encode_with_max_bytes max_bytes encode_at initial_quality ≡ ok bytes)
        × MadeWithin initial_quality bytes
        × Fits bytes
        × ((first : List ℕ) → encode_at initial_quality ≡ ok first → Fits first → bytes ≡ first)
  unfolding encode_with_max_bytes
  encode_with_max_bytes-Fits works least initial_quality positive small =
      let (first, encoded) = works initial_quality in
      elim (Bool-cases (within_budget max_bytes encode_at first || leb initial_quality 1)) [
        | inl done ↦
            let fits : Fits first = elim (Bool-cases (within_budget max_bytes encode_at first)) [
              | inl under ↦ ground arith
              | inr over ↦
                  let one : initial_quality ≡ 1 = ground arith in
                  least first (subst (λ q. encode_at q ≡ ok first) one encoded)
            ] in
            let same : (other : List ℕ)
                → encode_at initial_quality ≡ ok other
                → Fits other
                → first ≡ other =
              λ other again _. cc (again, encoded) in
            (
              first,
              rw encoded (rw done refl),
              (initial_quality, positive, omega arith, encoded),
              fits,
              same,
            )
        | inr going ↦
            let over : ¬ Fits first = λ fits. ground arith in
            let (bytes, ends, (q, q_pos, q_le, made), fits) =
              search_before_fit works least (initial_quality - 1) max_bytes_search_attempts first
                (initial_quality - 1) over (ground arith) (omega arith) (omega arith) in
            let same : (other : List ℕ)
                → encode_at initial_quality ≡ ok other
                → Fits other
                → bytes ≡ other =
              λ other again under.
                absurd (over (subst Fits (ok-injective (sym again ∙ encoded)) under)) in
            (bytes, rw encoded (rw going ends), (q, q_pos, omega arith, made), fits, same)
      ]
