-- ===== src/Cache/Codes.antt =====
-- Lemmas on the texts that `generate_key` prints for single values.
use image_resizer.Prelude.{
  All, Bool, Option, [], ap, arith, false, if◌then◌else◌, none, refl, some, subst, sym, true, ℕ,
  ◌++◌, ◌<◌, ◌==◌, ◌∙◌, ◌∷◌, ◌≡◌, ◌≢◌,
}
use image_resizer.Text.{Str, codes, eqb, ne_of_eqb}
use image_resizer.Text.Split.{
  Lacks, contains, join, split_on, split_on-join, split_once, split_once_lem,
}
use image_resizer.Text.Numbers.{
  IsDigit, StartsWithDigit, show_nat, show_nat-IsDigit, show_nat-StartsWithDigit,
  show_nat-injective,
}
use image_resizer.Models.Query.{
  CropDimension, Gravity, Padding, Rgb, absolute, focus_point, full, relative, show_crop_dimension,
  show_gravity,
}
use image_resizer.Models.Formats.{ImageFormat, jpg, show_format, show_format-injective}
use image_resizer.Cache.Fields.{
  format_text, none_text, padding_text, quality_bytes, rgb_bytes, show_bool, show_option, size_text,
}
use image_resizer.Models.Query.{
  CropDimension, Gravity, Padding, Rgb, absolute, focus_point, full, relative, show_crop_dimension,
  show_gravity,
}
use image_resizer.Prelude.Floats.{FloatLaws, Floats}

pub digits-Lacks : (b : ℕ) (s : Str) → b'9' < b → All IsDigit s → Lacks b s
unfolding contains
digits-Lacks b [] h d = refl
digits-Lacks b (c ∷ s) h (d, ds) = ground (arith, digits-Lacks b s h ds)

pub show_option-injective :
    {A : Type 0} (f : A → Str)
    → ((a b : A) → f a ≡ f b → a ≡ b)
    → ((a : A) → f a ≢ none_text)
    → (a b : Option A) → show_option f a ≡ show_option f b
    → a ≡ b
show_option-injective f inj ne none none e = refl
show_option-injective f inj ne none (some b) e = absurd (ne b (sym e))
show_option-injective f inj ne (some a) none e = absurd (ne a e)
show_option-injective f inj ne (some a) (some b) e = ap some (inj a b e)

pub show_nat-ne-none : (n : ℕ) → show_nat n ≢ none_text
show_nat-ne-none n e = omega (arith, subst StartsWithDigit e (show_nat-StartsWithDigit n))

read_bool : Str → Bool
read_bool s = eqb s (codes "true")

read_bool-show_bool : (a : Bool) → read_bool (show_bool a) ≡ a
unfolding read_bool show_bool eqb
read_bool-show_bool true = refl
read_bool-show_bool false = refl

pub show_bool-injective : (a b : Bool) → show_bool a ≡ show_bool b → a ≡ b
show_bool-injective a b e = cc (read_bool-show_bool a, read_bool-show_bool b, ap read_bool e)

pub show_bool-ne-none : (a : Bool) → show_bool a ≢ none_text
unfolding show_bool eqb
show_bool-ne-none true = ne_of_eqb (codes "true") none_text refl
show_bool-ne-none false = ne_of_eqb (codes "false") none_text refl

pub quality_bytes-injective : (a b : ℕ) → quality_bytes a ≡ quality_bytes b → a ≡ b
quality_bytes-injective a b e = cc

pub quality_bytes-ne-none : (a : ℕ) → quality_bytes a ≢ none_text
quality_bytes-ne-none a e = cc

pub rgb_bytes-injective : (a b : Rgb) → rgb_bytes a ≡ rgb_bytes b → a ≡ b
rgb_bytes-injective (r, g, b) (r', g', b') e = ground arith

pub rgb_bytes-ne-none : (a : Rgb) → rgb_bytes a ≢ none_text
rgb_bytes-ne-none (r, g, b) e = cc

format_text_lem : (f : ImageFormat) → show_format f ≡ format_text f
unfolding format_text show_format
format_text_lem jpg = refl
format_text_lem _ = refl

pub format_text-injective : (a b : ImageFormat) → format_text a ≡ format_text b → a ≡ b
format_text-injective a b e =
    show_format-injective a b (format_text_lem a ∙ (e ∙ sym (format_text_lem b)))

pub pair-cancel :
    (b : ℕ) (s t s' t' : Str)
    → Lacks b s
    → Lacks b s'
    → s ++ (b ∷ t) ≡ s' ++ (b ∷ t')
    → (s ≡ s') × (t ≡ t')
pair-cancel b s t s' t' h h' e =
    let split : some (s, t) ≡ some (s', t') =
      sym (split_once_lem b s t h) ∙ (ap (split_once b) e ∙ split_once_lem b s' t' h') in
    (cc split, cc split)

pub size_text-injective : (a b : ℕ × ℕ) → size_text a ≡ size_text b → a ≡ b
unfolding size_text
size_text-injective (w, h) (w', h') e =
    let (ws, hs) =
      pair-cancel b'x' (show_nat w) (show_nat h) (show_nat w') (show_nat h')
        (digits-Lacks b'x' _ (omega arith) (show_nat-IsDigit w))
        (digits-Lacks b'x' _ (omega arith) (show_nat-IsDigit w')) e in
    cc (show_nat-injective w w' ws, show_nat-injective h h' hs)

digit_led-ne-none : (s t : Str) → StartsWithDigit s → s ++ t ≢ none_text
digit_led-ne-none [] t h e = h
digit_led-ne-none (c ∷ s) t h e = let first : c ≡ b'N' = cc in omega arith

pub size_text-ne-none : (a : ℕ × ℕ) → size_text a ≢ none_text
unfolding size_text
size_text-ne-none (w, h) = digit_led-ne-none (show_nat w) _ (show_nat-StartsWithDigit w)

padding_pieces-Lacks :
    (p : Padding)
    → All
        (Lacks b':')
        (show_nat p.top ∷ show_nat p.right ∷ show_nat p.bottom ∷ show_nat p.left ∷ [])
padding_pieces-Lacks p =
    let no_colon : (n : ℕ) → Lacks b':' (show_nat n) =
      λ n. digits-Lacks b':' (show_nat n) (omega arith) (show_nat-IsDigit n) in
    (no_colon p.top, (no_colon p.right, (no_colon p.bottom, (no_colon p.left, tt))))

pub padding_text-injective : (a b : Padding) → padding_text a ≡ padding_text b → a ≡ b
unfolding padding_text
padding_text-injective a b e =
    let pieces =
      sym (split_on-join b':' _ _ (padding_pieces-Lacks a))
      ∙ (ap (split_on b':') e ∙ split_on-join b':' _ _ (padding_pieces-Lacks b)) in
    ground (
      arith,
      show_nat-injective a.top b.top,
      show_nat-injective a.right b.right,
      show_nat-injective a.bottom b.bottom,
      show_nat-injective a.left b.left,
    )

pub padding_text-ne-none : (p : Padding) → padding_text p ≢ none_text
unfolding padding_text join
padding_text-ne-none p = digit_led-ne-none (show_nat p.top) _ (show_nat-StartsWithDigit p.top)

-- Texts with different first bytes are apart.
head-apart : (x y : ℕ) (xs ys : Str) → (x == y) ≡ false → x ∷ xs ≢ y ∷ ys
head-apart x y xs ys h e = let same : x ≡ y = cc in ground arith

module _ (fl : Floats) where
  -- The gravity that a text without arguments names.
  named_gravity : Str → Option (Gravity fl)
  unfolding eqb
  named_gravity s =
      if eqb s (codes "ce")
      then some Gravity.center
      else if eqb s (codes "no")
      then some Gravity.north
      else if eqb s (codes "so")
      then some Gravity.south
      else if eqb s (codes "ea")
      then some Gravity.east
      else if eqb s (codes "we")
      then some Gravity.west
      else if eqb s (codes "noea")
      then some Gravity.north_east
      else if eqb s (codes "nowe")
      then some Gravity.north_west
      else if eqb s (codes "soea")
      then some Gravity.south_east
      else if eqb s (codes "sowe")
      then some Gravity.south_west
      else none

  abbrev without_focus : Gravity fl → Option (Gravity fl)
  without_focus (focus_point x y) = none
  without_focus g = some g

  named_gravity-show_gravity :
      (a : Gravity fl) → named_gravity (show_gravity fl a) ≡ without_focus a
  unfolding named_gravity show_gravity
  named_gravity-show_gravity (focus_point x y) = refl
  named_gravity-show_gravity _ = refl

module _ (fl : Floats) (laws : FloatLaws fl) where
  pub show_gravity-injective : (a b : Gravity fl) → show_gravity fl a ≡ show_gravity fl b → a ≡ b
  unfolding show_gravity
  show_gravity-injective (focus_point x y) (focus_point x' y') e =
      let (xs, ys) =
        pair-cancel b':' (fl.show_f64 x) (fl.show_f64 y) (fl.show_f64 x') (fl.show_f64 y')
          (laws.show_f64_no_colon x) (laws.show_f64_no_colon x') cc in
      cc (laws.show_f64_injective x x' xs, laws.show_f64_injective y y' ys)
  show_gravity-injective a (focus_point x y) e = cc (
    named_gravity-show_gravity fl a,
    named_gravity-show_gravity fl (focus_point x y),
    ap (named_gravity fl) e,
  )
  show_gravity-injective a b e =
      cc (named_gravity-show_gravity fl a, named_gravity-show_gravity fl b, ap (named_gravity fl) e)

  pub show_crop_dimension-injective :
      (a b : CropDimension fl) → show_crop_dimension fl a ≡ show_crop_dimension fl b → a ≡ b
  unfolding show_crop_dimension
  show_crop_dimension-injective full full e = refl
  show_crop_dimension-injective (absolute n) (absolute m) e =
      ap absolute (show_nat-injective n m cc)
  show_crop_dimension-injective (relative v) (relative w) e =
      ap relative (laws.show_f64_injective v w cc)
  show_crop_dimension-injective full (absolute m) e = absurd (head-apart _ _ _ _ refl e)
  show_crop_dimension-injective full (relative w) e = absurd (head-apart _ _ _ _ refl e)
  show_crop_dimension-injective (absolute n) full e = absurd (head-apart _ _ _ _ refl e)
  show_crop_dimension-injective (absolute n) (relative w) e = absurd (head-apart _ _ _ _ refl e)
  show_crop_dimension-injective (relative v) full e = absurd (head-apart _ _ _ _ refl e)
  show_crop_dimension-injective (relative v) (absolute m) e = absurd (head-apart _ _ _ _ refl e)

  pub show_crop_dimension-ne-none : (a : CropDimension fl) → show_crop_dimension fl a ≢ none_text
  unfolding show_crop_dimension
  show_crop_dimension-ne-none full = head-apart _ _ _ _ refl
  show_crop_dimension-ne-none (absolute n) = head-apart _ _ _ _ refl
  show_crop_dimension-ne-none (relative v) = head-apart _ _ _ _ refl
