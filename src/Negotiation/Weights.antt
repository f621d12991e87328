-- ===== src/Negotiation/Weights.antt =====
-- The weights of an `Accept` header for a media type, against `best_q` of src/modules/negotiation.rs.
use image_resizer.Prelude.{
  Bool, All, Bool-cases, List, Option, Option-cases, [], ap, arith, false, inl, inr, none, refl,
  some, subst, sym, true, ◌↔◌, ◌∙◌, ◌∷◌, ◌≡◌, ◌⊎◌, ◌||◌,
}
use image_resizer.Prelude.Floats.{FloatLaws, Floats}
use image_resizer.Text.{Str, codes, eqb_iff}
use image_resizer.Negotiation.{AcceptEntry, accepts, best_from, best_q, larger}

module _ (fl : Floats) (laws : FloatLaws fl) where
  open fl use {F32, zero_f32, lt_f32, le_f32, max_f32}

  -- The media range of an entry covers the type.
  abbrev pub Covers : Str → AcceptEntry fl → Type 0
  Covers media_type e =
      (e.media_type ≡ media_type)
      ⊎ ((e.media_type ≡ codes "image/*") ⊎ (e.media_type ≡ codes "*/*"))

  -- Some weight for the type, and every weight for the type.
  abbrev pub SomeWeight : (F32 → Type 0) → Str → List (AcceptEntry fl) → Type 0
  SomeWeight P media_type [] = ⊥
  SomeWeight P media_type (e ∷ es) = (Covers media_type e × P e.q) ⊎ SomeWeight P media_type es

  abbrev pub EachWeight : (F32 → Type 0) → Str → List (AcceptEntry fl) → Type 0
  EachWeight P media_type es = All (λ e. Covers media_type e → P e.q) es

  abbrev pub IsNan : F32 → Type 0
  IsNan q = le_f32 q q ≡ false

  abbrev pub IsPositive : F32 → Type 0
  IsPositive q = lt_f32 zero_f32 q ≡ true

  abbrev pub AtMost : F32 → F32 → Type 0
  AtMost bound q = (le_f32 q bound ≡ true) ⊎ IsNan q

  pub clash :
      {P Q : F32 → Type 0} (media_type : Str) (es : List (AcceptEntry fl))
      → ((q : F32) → P q → Q q → ⊥)
      → SomeWeight P media_type es
      → ¬ EachWeight Q media_type es
  clash media_type [] apart h _ = h
  clash media_type (e ∷ es) apart (inl (covers, p)) (each, _) = apart e.q p (each covers)
  clash media_type (e ∷ es) apart (inr some_later) (_, each) =
      clash media_type es apart some_later each

  pub EachWeight-map :
      {P Q : F32 → Type 0} (media_type : Str) (es : List (AcceptEntry fl))
      → ((q : F32) → P q → Q q)
      → EachWeight P media_type es
      → EachWeight Q media_type es
  EachWeight-map media_type [] f h = tt
  EachWeight-map media_type (e ∷ es) f (h, hs) =
      (λ covers. f e.q (h covers), EachWeight-map media_type es f hs)

  pub SomeWeight-map :
      {P Q : F32 → Type 0} (media_type : Str) (es : List (AcceptEntry fl))
      → ((q : F32) → P q → Q q)
      → SomeWeight P media_type es
      → SomeWeight Q media_type es
  SomeWeight-map media_type [] f h = h
  SomeWeight-map media_type (e ∷ es) f (inl (covers, p)) = inl (covers, f e.q p)
  SomeWeight-map media_type (e ∷ es) f (inr h) = inr (SomeWeight-map media_type es f h)

  covered :
      {A B C : Type 0} {a b c : Bool}
      → (a ≡ true) ↔ A
      → (b ≡ true) ↔ B
      → (c ≡ true) ↔ C
      → (a || b || c) ≡ true
      → A ⊎ (B ⊎ C)
  covered {a = true} x y z h = inl (x.0 refl)
  covered {a = false} {b = true} x y z h = inr (inl (y.0 refl))
  covered {a = false} {b = false} {c = true} x y z h = inr (inr (z.0 refl))
  covered {a = false} {b = false} {c = false} x y z h = cc

  accepting :
      {A B C : Type 0} {a b c : Bool}
      → (a ≡ true) ↔ A
      → (b ≡ true) ↔ B
      → (c ≡ true) ↔ C
      → A ⊎ (B ⊎ C)
      → (a || b || c) ≡ true
  accepting x y z (inl h) = ground (arith, x.1 h)
  accepting x y z (inr (inl h)) = ground (arith, y.1 h)
  accepting x y z (inr (inr h)) = ground (arith, z.1 h)

  accepts-Covers :
      (media_type : Str) (e : AcceptEntry fl)
      → (accepts fl media_type e ≡ true) ↔ Covers media_type e
  unfolding accepts
  accepts-Covers media_type e =
      let exact = eqb_iff e.media_type media_type in
      let images = eqb_iff e.media_type (codes "image/*") in
      let any = eqb_iff e.media_type (codes "*/*") in
      (λ h. covered exact images any h, λ h. accepting exact images any h)

  larger-AtMost : (acc : Option F32) (q : F32) → AtMost (larger fl acc q) q
  larger-AtMost none q = elim (Bool-cases (le_f32 q q)) [ inl h ↦ inl h | inr nan ↦ inr nan ]
  larger-AtMost (some a) q = elim (Bool-cases (le_f32 q q)) [
    | inl h ↦ inl (laws.max_ge_right q a q h)
    | inr nan ↦ inr nan
  ]

  larger_of : (acc : Option F32) (q : F32) → (acc ≡ some (larger fl acc q)) ⊎ (q ≡ larger fl acc q)
  larger_of none q = inr refl
  larger_of (some a) q = elim (laws.max_f32_or a q) [
    | inl e ↦ inl (ap some (sym e))
    | inr e ↦ inr (sym e)
  ]

  grown : (a x q : F32) → AtMost a x → AtMost (max_f32 a q) x
  grown a x q (inl h) = inl (laws.max_ge_left x a q h)
  grown a x q (inr nan) = inr nan

  best_from-none :
      (acc : Option F32) (es : List (AcceptEntry fl)) (media_type : Str)
      → best_from fl acc es media_type ≡ none
      → (acc ≡ none) × EachWeight (λ q. ⊥) media_type es
  unfolding best_from
  best_from-none acc [] media_type e = (e, tt)
  best_from-none acc (e ∷ es) media_type h = elim (Bool-cases (accepts fl media_type e)) [
    | inr skipped ↦
        let (was, rest) = best_from-none acc es media_type (rw skipped at h) in
        (
          was,
          (
            λ covers. let takes = (accepts-Covers media_type e).1 covers in cc (takes, skipped),
            rest,
          ),
        )
    | inl taken ↦
        absurd cc (best_from-none (some (larger fl acc e.q)) es media_type (rw taken at h)).0
  ]

  -- `b` is a weight that was there or that an entry has, and no other is larger.
  pub record IsBest (acc : Option F32) (es : List (AcceptEntry fl)) (media_type : Str) (b : F32)
      : Type 0 where
    pub is_weight : (acc ≡ some b) ⊎ SomeWeight (λ q. q ≡ b) media_type es
    pub above_acc : (a x : F32) → acc ≡ some a → AtMost a x → AtMost b x
    pub above : EachWeight (AtMost b) media_type es

  best_from-IsBest :
      (acc : Option F32) (es : List (AcceptEntry fl)) (media_type : Str) (b : F32)
      → best_from fl acc es media_type ≡ some b
      → IsBest acc es media_type b
  unfolding best_from
  best_from-IsBest acc [] media_type b e = record {
    is_weight = inl e;
    above_acc = λ a x is_a h. let same : a ≡ b = cc in subst (λ c. AtMost c x) same h;
    above = tt;
  }
  best_from-IsBest acc (e ∷ es) media_type b h = elim (Bool-cases (accepts fl media_type e)) [
    | inr skipped ↦
        let rest = best_from-IsBest acc es media_type b (rw skipped at h) in
        record {
          is_weight = elim rest.is_weight [ inl was ↦ inl was | inr later ↦ inr (inr later) ];
          above_acc = rest.above_acc;
          above = (
            λ covers.
                let takes = (accepts-Covers media_type e).1 covers in absurd cc (takes, skipped),
            rest.above,
          );
        }
    | inl taken ↦
        let covers = (accepts-Covers media_type e).0 taken in
        let rest = best_from-IsBest (some (larger fl acc e.q)) es media_type b (rw taken at h) in
        record {
          is_weight = elim rest.is_weight [
            | inl was ↦ elim (larger_of acc e.q) [
              | inl kept ↦ inl (kept ∙ was)
              | inr is_q ↦ let same : e.q ≡ b = cc in inr (inl (covers, same))
            ]
            | inr later ↦ inr (inr later)
          ];
          above_acc = λ a x is_a h.
              rest.above_acc (larger fl acc e.q) x refl
                (subst (λ c. AtMost (larger fl c e.q) x) (sym is_a) (grown a x e.q h));
          above = (
            λ _. rest.above_acc (larger fl acc e.q) e.q refl (larger-AtMost acc e.q),
            rest.above,
          );
        }
  ]

  -- What the best weight of a type is.
  pub data Best (es : List (AcceptEntry fl)) (media_type : Str) : Option F32 → Type 0 where
    no_weight : EachWeight (λ q. ⊥) media_type es → Best es media_type none
    best :
        (b : F32)
        → SomeWeight (λ q. q ≡ b) media_type es
        → EachWeight (AtMost b) media_type es
        → Best es media_type (some b)

  pub best_q-Best :
      (es : List (AcceptEntry fl)) (media_type : Str) → Best es media_type (best_q fl es media_type)
  unfolding best_q
  best_q-Best es media_type = elim (Option-cases (best_from fl none es media_type)) [
    | inl absent ↦
        subst (Best es media_type) (sym absent)
          (no_weight (best_from-none none es media_type absent).1)
    | inr (b, found) ↦
        let is_best = best_from-IsBest none es media_type b found in
        subst (Best es media_type) (sym found)
          (best b (elim is_best.is_weight [ inl was ↦ absurd cc was | inr w ↦ w ]) is_best.above)
  ]
