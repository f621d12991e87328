-- ===== src/Image/Sizing/Boxes.antt =====
-- The box of the resize step.
use image_resizer.Prelude.{
  AllSome, Bool, Bool-cases, Option, arith, false, inl, inr, is_some, map_option, max, none, refl,
  some, sym, true, ℕ, ◌<◌, ◌||◌, ◌≡◌, ◌≤◌,
}
use image_resizer.Prelude.Floats.{FloatLaws, Floats}
use image_resizer.Image.Sizing.{
  effective_resize_box, floor_axis, guard_axis, rotate_swaps_axes, scale_axis, sizing_active,
  swap_if,
}
use image_resizer.Models.Query.{ResizeQuery}

abbrev pub least_or_zero : Option ℕ → ℕ
least_or_zero none = 0
least_or_zero (some m) = m

-- What is promised of one axis of the final image: it is at least `least`, it is above `src` only
-- with the enlarge option or for the sake of `least`, and it is not empty.
pub record IsAxis (enlarge : Bool) (least : Option ℕ) (src v : ℕ) : Type 0 where
  pub floor : least_or_zero least ≤ v
  pub no_upscale : enlarge ≡ false → v ≤ max src (least_or_zero least)
  pub positive : 0 < src → 0 < v

floor_axis-IsAxis :
    (enlarge : Bool) (least : Option ℕ) (src : ℕ) (v : Option ℕ)
    → AllSome (λ w. 0 < w) v
    → AllSome
        (IsAxis enlarge least src)
        (floor_axis least src (map_option (guard_axis enlarge src) v))
floor_axis-IsAxis enlarge none src none h = tt
floor_axis-IsAxis true none src (some w) h = record {
  floor = omega arith;
  no_upscale = λ e. cc;
  positive = λ p. h;
}
floor_axis-IsAxis false none src (some w) h = record {
  floor = omega arith;
  no_upscale = λ e. omega arith;
  positive = λ p. omega arith;
}
floor_axis-IsAxis enlarge (some m) src none h = record {
  floor = omega arith;
  no_upscale = λ e. omega arith;
  positive = λ p. omega arith;
}
floor_axis-IsAxis true (some m) src (some w) h = record {
  floor = omega arith;
  no_upscale = λ e. cc;
  positive = λ p. omega arith;
}
floor_axis-IsAxis false (some m) src (some w) h = record {
  floor = omega arith;
  no_upscale = λ e. omega arith;
  positive = λ p. omega arith;
}

-- An axis is resized exactly when a size or a minimum is given for it, and then as promised.
abbrev pub AxisOk : Bool → Option ℕ → Option ℕ → ℕ → Option ℕ → Type 0
AxisOk enlarge size least src box =
    AllSome (IsAxis enlarge least src) box × (is_some box ≡ (is_some size || is_some least))

axis-AxisOk :
    (enlarge : Bool) (size least : Option ℕ) (src : ℕ) (scale : ℕ → ℕ)
    → AllSome (λ w. 0 < w) (map_option scale size)
    → AxisOk enlarge size least src
        (floor_axis least src (map_option (guard_axis enlarge src) (map_option scale size)))
axis-AxisOk enlarge none none src scale h = (floor_axis-IsAxis enlarge none src none h, refl)
axis-AxisOk enlarge none (some m) src scale h =
    (floor_axis-IsAxis enlarge (some m) src none h, refl)
axis-AxisOk enlarge (some v) none src scale h =
    (floor_axis-IsAxis enlarge none src (some (scale v)) h, refl)
axis-AxisOk enlarge (some v) (some m) src scale h =
    (floor_axis-IsAxis enlarge (some m) src (some (scale v)) h, refl)

swap_if_twice : {A : Type 0} (b : Bool) (p : A × A) → swap_if b (swap_if b p) ≡ p
swap_if_twice true (a, b) = refl
swap_if_twice false (a, b) = refl

swap_if_same : {A : Type 0} (b : Bool) (a : A) → swap_if b (a, a) ≡ (a, a)
swap_if_same true a = refl
swap_if_same false a = refl

none_given :
    (w h mw mh : Bool) → (w || h || mw || mh) ≡ false → ((w || mw) ≡ false) × ((h || mh) ≡ false)
none_given w h mw mh e = ground arith

module _ (fl : Floats) (laws : FloatLaws fl) where
  scaled_pos :
      (dpr zoom : Floats.F32 fl) (v : Option ℕ)
      → AllSome (λ w. 0 < w) (map_option (scale_axis fl dpr zoom) v)
  scaled_pos dpr zoom none = tt
  scaled_pos dpr zoom (some v) = laws.as_u32_pos _

  -- The box, read in the axes of the final image, against the source in these axes. An axis is
  -- resized exactly when a size or a minimum is given for it. The box then exceeds the source only
  -- with the enlarge option or for a minimum, every minimum is kept, and no side of it is empty.
  pub effective_resize_box-AxisOk :
      (params : ResizeQuery fl) (src_width src_height : ℕ)
      → (let swap = rotate_swaps_axes params.rotate in
          let final_box =
            swap_if swap (effective_resize_box fl params src_width src_height).resize_box in
          let final_src = swap_if swap (src_width, src_height) in
          AxisOk params.enlarge params.width params.min_width final_src.0 final_box.0
          × AxisOk params.enlarge params.height params.min_height final_src.1 final_box.1)
  unfolding effective_resize_box
  effective_resize_box-AxisOk params src_width src_height =
      let swap = rotate_swaps_axes params.rotate in
      let final_src = swap_if swap (src_width, src_height) in
      elim (Bool-cases (sizing_active fl params)) [
        | inr off ↦
            let (no_w, no_h) =
              none_given (is_some params.width) (is_some params.height) (is_some params.min_width)
                (is_some params.min_height) off in
            rw off (rw (swap_if_same {A = Option ℕ} swap none) ((tt, sym no_w), (tt, sym no_h)))
        | inl on ↦
            let scaled_w = scaled_pos params.dpr params.zoom_x params.width in
            let scaled_h = scaled_pos params.dpr params.zoom_y params.height in
            let w =
              axis-AxisOk params.enlarge params.width params.min_width final_src.0
                (scale_axis fl params.dpr params.zoom_x) scaled_w in
            let h =
              axis-AxisOk params.enlarge params.height params.min_height final_src.1
                (scale_axis fl params.dpr params.zoom_y) scaled_h in
            rw on (rw (swap_if_twice swap _) (w, h))
      ]
