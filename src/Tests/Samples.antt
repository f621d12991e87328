-- ===== src/Tests/Samples.antt =====
-- A model of the parameters on which the examples run: floating-point values are natural numbers,
-- the decoders leave a text as it is, and the digest is constant.
use image_resizer.Prelude.{
  Bool-cases, List, arith, inl, inr, leb, ltb, max, min, refl, some, subst, true, ℕ, ◌%◌, ◌*◌, ◌+◌,
  ◌-◌, ◌/◌, ◌==◌, ◌^◌, ◌≡◌, ◌≢◌, ◌⊎◌,
}
use image_resizer.Url.Codecs.{Codecs}
use image_resizer.Prelude.Floats.{FloatLaws, Floats}
use image_resizer.Text.Numbers.{
  StartsWithDigit, from_str_radix, show_nat, show_nat-IsDigit, show_nat-StartsWithDigit,
  show_nat-injective,
}
use image_resizer.Text.{Str, codes}
use image_resizer.Cache.Codes.{digits-Lacks}

digit_text-ne-none : (n : ℕ) → show_nat n ≢ codes "None"
digit_text-ne-none n e = omega (arith, subst StartsWithDigit e (show_nat-StartsWithDigit n))

abbrev saturate : ℕ → ℕ → ℕ
saturate bound x = min x (bound - 1)

abbrev pub whole_numbers : Floats
whole_numbers = record {
  F32 = ℕ;
  F64 = ℕ;
  parse_f32 = from_str_radix 10 (2 ^ 32);
  parse_f64 = from_str_radix 10 (2 ^ 32);
  zero_f32 = 0;
  one_f32 = 1;
  zero_f64 = 0;
  one_f64 = 1;
  lt_f32 = ltb;
  lt_f64 = ltb;
  le_f64 = leb;
  eq_f64 = ◌==◌;
  le_f32 = leb;
  max_f32 = max;
  max_f64 = max;
  f32_of_u8 = λ x. x;
  sub_f32 = λ a b. a - b + (b - a);
  abs_f32 = λ x. x;
  f64_of_u32 = λ x. x;
  f64_of_f32 = λ x. x;
  mul_f64 = ◌*◌;
  sub_f64 = ◌-◌;
  div_f64 = ◌/◌;
  two_f64 = 2;
  min_f64 = min;
  clamp_f64 = λ a lo hi. min (max a lo) hi;
  floor_f64 = λ x. x;
  round_f64 = λ x. x;
  ceil_f64 = λ x. x;
  as_u32 = saturate (2 ^ 32);
  as_u64 = saturate (2 ^ 64);
  is_finite = λ x. true;
  round_u32 = λ x. x % 2 ^ 32;
  show_f32 = show_nat;
  show_f64 = show_nat;
}

max_or : (a b : ℕ) → (max a b ≡ a) ⊎ (max a b ≡ b)
max_or a b = elim (Bool-cases (leb b a)) [ inl h ↦ inl ground arith | inr h ↦ inr ground arith ]

pub whole_numbers_laws : FloatLaws whole_numbers
whole_numbers_laws = record {
  show_f32_injective = show_nat-injective;
  show_f64_injective = show_nat-injective;
  round_u32_lt = λ a. omega arith;
  zero_lt_one_f32 = refl;
  show_f32_ne_none = digit_text-ne-none;
  max_f32_or = λ a b. max_or a b;
  max_ge_left = λ x a b h. ground arith;
  max_ge_right = λ x a b h. ground arith;
  lt_le = λ a b h. ground arith;
  le_refl_left = λ a b h. ground arith;
  le_refl_right = λ a b h. ground arith;
  le_le = λ a b c h k. ground arith;
  lt_le_lt = λ a b c h k. ground arith;
  le_of_not_lt = λ a b h k l. ground arith;
  lt_f32_irrefl = λ a. ground arith;
  as_u32_lt = λ a. omega arith;
  as_u32_pos = λ a. omega arith;
  floor_zero_le = λ n. omega arith;
  floor_of_u32_le = λ n. omega arith;
  floor_half_le = λ n. omega arith;
  floor_clamp_le = λ a n. omega arith;
  show_f64_no_colon = λ n. digits-Lacks b':' (show_nat n) (omega arith) (show_nat-IsDigit n);
}

abbrev pub plain_codecs : Codecs
plain_codecs = record { base64_decode = λ s. some s; url_decode = λ s. some s }

abbrev pub constant_digest : List ℕ → Str
constant_digest _ = codes "0000000000000000000000000000000000000000000000000000000000000000"
