-- ===== src/Image/Trimming/Borders.antt =====
-- What a trim cuts off.
use image_resizer.Prelude.{
  &&-eq-true, Bool, Bool-cases, arith, false, inl, inr, leb, refl, subst, suc, true, unwrap_or,
  zero, ℕ, ◌+◌, ◌-◌, ◌<◌, ◌==◌, ◌||◌, ◌≡◌, ◌≤◌, ◌⊎◌,
}
use image_resizer.Prelude.Floats.{Floats}
use image_resizer.Image.Geometry.{ImageCrate}
use image_resizer.Image.Geometry.Regions.{IsInside}
use image_resizer.Image.Trimming.{
  Margins, all_below, apply_trim, col_is, cut_margins, equalize, is_background, leading, row_is,
  scan_margins, trim_margins,
}
use image_resizer.Models.Query.{TrimOptions}

leading-le : (p : ℕ → Bool) (limit start : ℕ) → leading p limit start ≤ limit
unfolding leading
leading-le p zero start = omega arith
leading-le p (suc limit) start = ground (arith, leading-le p limit (suc start))

leading-true :
    (p : ℕ → Bool) (limit start k : ℕ) → start ≤ k → k < start + leading p limit start → p k ≡ true
unfolding leading
leading-true p zero start k h l = absurd (omega arith)
leading-true p (suc limit) start k h l = elim (Bool-cases (p start)) [
  | inr stops ↦ absurd (ground (arith, stops))
  | inl goes ↦ elim (Bool-cases (start == k)) [
    | inl here ↦ let same : start ≡ k = ground arith in subst (λ n. p n ≡ true) same goes
    | inr later ↦ leading-true p limit (suc start) k (ground arith) (ground (arith, goes))
  ]
]

all_below-true : (p : ℕ → Bool) (n i : ℕ) → i < n → all_below p n ≡ true → p i ≡ true
unfolding all_below
all_below-true p zero i h e = absurd (omega arith)
all_below-true p (suc n) i h e =
    let (before, last) = &&-eq-true (all_below p n) (p n) e in
    elim (Bool-cases (n == i)) [
      | inl here ↦ let same : n ≡ i = ground arith in subst (λ k. p k ≡ true) same last
      | inr earlier ↦ all_below-true p n i (ground arith) before
    ]

-- Counting back from the end.
mirror : (n k : ℕ) → k < n → n - 1 - (n - 1 - k) ≡ k
mirror n k h = omega arith

-- Outside the margins everything satisfies `p`.
pub record Cuts (p : ℕ → ℕ → Bool) (w h : ℕ) (m : Margins) : Type 0 where
  pub above : (x y : ℕ) → x < w → y < m.top → p x y ≡ true
  pub below : (x y : ℕ) → x < w → y < h → h ≤ y + m.bottom → p x y ≡ true
  pub before : (x y : ℕ) → y < h → x < m.left → p x y ≡ true
  pub behind : (x y : ℕ) → y < h → x < w → w ≤ x + m.right → p x y ≡ true

scan_margins-Cuts : (p : ℕ → ℕ → Bool) (w h : ℕ) → Cuts p w h (scan_margins p w h)
unfolding scan_margins
scan_margins-Cuts p w h = record {
  above = λ x y x_in y_cut.
      all_below-true (λ i. p i y) w x x_in
        (leading-true (row_is p w) h 0 y (omega arith) (omega (arith, y_cut)));
  below = λ x y x_in y_in y_cut.
      let counted =
        leading-true (λ k. row_is p w (h - 1 - k)) (h - leading (row_is p w) h 0) 0 (h - 1 - y)
          (omega arith) (omega (arith, y_cut)) in
      let row : row_is p w y ≡ true = subst (λ k. row_is p w k ≡ true) (mirror h y y_in) counted in
      all_below-true (λ i. p i y) w x x_in row;
  before = λ x y y_in x_cut.
      all_below-true (p x) h y y_in
        (leading-true (col_is p h) w 0 x (omega arith) (omega (arith, x_cut)));
  behind = λ x y y_in x_in x_cut.
      let counted =
        leading-true (λ k. col_is p h (w - 1 - k)) (w - leading (col_is p h) w 0) 0 (w - 1 - x)
          (omega arith) (omega (arith, x_cut)) in
      let col : col_is p h x ≡ true = subst (λ k. col_is p h k ≡ true) (mirror w x x_in) counted in
      all_below-true (p x) h y y_in col;
}

equalize-Cuts :
    (p : ℕ → ℕ → Bool) (w h : ℕ) (hor ver : Bool) (m : Margins)
    → Cuts p w h m
    → Cuts p w h (equalize hor ver m)
unfolding equalize
equalize-Cuts p w h hor ver m c = record {
  above = λ x y x_in y_cut. c.above x y x_in (ground arith);
  below = λ x y x_in y_in y_cut. c.below x y x_in y_in (ground arith);
  before = λ x y y_in x_cut. c.before x y y_in (ground arith);
  behind = λ x y y_in x_in x_cut. c.behind x y y_in x_in (ground arith);
}

module _ (fl : Floats) (im : ImageCrate) where
  open im use {DynamicImage, width, height, rgb_at, crop_imm}

  -- The pixels at which `p` fails lie in the region.
  abbrev Keeps : (ℕ → ℕ → Bool) → DynamicImage → ℕ → ℕ → ℕ → ℕ → Type 0
  Keeps p img x y w h =
      (i j : ℕ)
      → i < width img
      → j < height img
      → p i j ≡ false
      → (x ≤ i) × (i < x + w) × (y ≤ j) × (j < y + h)

  -- The image is left as it is, or a region is cut out that holds the pixels at which `p` fails.
  abbrev pub CutTo : (ℕ → ℕ → Bool) → DynamicImage → DynamicImage → Type 0
  CutTo p img out =
      (out ≡ img)
      ⊎ ((x : ℕ) × (y : ℕ) × (w : ℕ) × (h : ℕ) × (out ≡ crop_imm img x y w h)
          × IsInside (width img) (height img) x y w h
          × Keeps p img x y w h)

  cut_margins-Keeps :
      (p : ℕ → ℕ → Bool) (img : DynamicImage) (m : Margins)
      → Cuts p (width img) (height img) m
      → m.top + m.bottom < height img
      → m.left + m.right < width img
      → Keeps p img m.left m.top (width img - m.left - m.right) (height img - m.top - m.bottom)
  cut_margins-Keeps p img m c some_rows some_cols i j i_in j_in content =
      let not_above : ¬ (j < m.top) = λ cut. cc (c.above i j i_in cut) in
      let not_below : ¬ (height img ≤ j + m.bottom) = λ cut. cc (c.below i j i_in j_in cut) in
      let not_before : ¬ (i < m.left) = λ cut. cc (c.before i j j_in cut) in
      let not_behind : ¬ (width img ≤ i + m.right) = λ cut. cc (c.behind i j j_in i_in cut) in
      omega (arith, not_above, not_below, not_before, not_behind)

  cut_margins-CutTo :
      (p : ℕ → ℕ → Bool) (img : DynamicImage) (m : Margins)
      → Cuts p (width img) (height img) m
      → CutTo p img (cut_margins fl im img m)
  unfolding cut_margins
  cut_margins-CutTo p img m c =
      elim (Bool-cases
        (leb (height img) (m.top + m.bottom) || leb (width img) (m.left + m.right))) [
          | inl nothing ↦ rw nothing (inl refl)
          | inr something ↦
              let some_rows : m.top + m.bottom < height img = ground arith in
              let some_cols : m.left + m.right < width img = ground arith in
              let inside : IsInside (width img) (height img) m.left m.top
                  (width img - m.left - m.right) (height img - m.top - m.bottom) =
                record {
                  wide = omega arith;
                  high = omega arith;
                  right_edge = omega arith;
                  lower_edge = omega arith;
                } in
              rw something
                (inr (_, _, _, _, refl, inside, cut_margins-Keeps p img m c some_rows some_cols))
        ]

  -- A trim leaves the image as it is, or cuts out a region inside it with at least one pixel, and
  -- every pixel that is not background lies in the region.
  pub apply_trim-CutTo :
      (img : DynamicImage) (trim : TrimOptions fl)
      → CutTo
          (is_background fl im img trim.threshold (unwrap_or trim.color (rgb_at img 0 0)))
          img
          (apply_trim fl im img trim)
  unfolding apply_trim trim_margins
  apply_trim-CutTo img trim = elim (Bool-cases (width img == 0 || height img == 0)) [
    | inl none_there ↦ rw none_there (inl refl)
    | inr some_there ↦
        let p = is_background fl im img trim.threshold (unwrap_or trim.color (rgb_at img 0 0)) in
        rw some_there (
          cut_margins-CutTo p img _ (
            equalize-Cuts p (width img) (height img) trim.equal_hor trim.equal_ver _
              (scan_margins-Cuts p (width img) (height img))))
  ]
