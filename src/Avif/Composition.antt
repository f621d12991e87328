-- ===== src/Avif/Composition.antt =====
-- The composition of transforms against the motions of an image's sides that the properties stand for.
use image_resizer.Prelude.{
  Bool-cases, All, subst, sym, ◌==◌, ◌≢◌, List, Option-cases, [], ap, arith, inl, inr, none, refl,
  some, suc, zero, ℕ, ◌%◌, ◌+◌, ◌-◌, ◌<◌, ◌∙◌, ◌∷◌, ◌≡◌,
}
use image_resizer.Avif.Motions.{
  IsFirst, Moves, Side, bottom, here, left, motion, move, oriented, right, skip, stay,
  swap_left_right, swap_top_bottom, there, top, turn_left, turns_left,
}
use image_resizer.Avif.Transforms.{
  Transform, TransformProperty, compose, find_property, followed_by, identity, into_orientation,
  mirror, reflection, rotate, rotation, transform_of,
}

-- A transform on the exponents of `i`, which number the sides of the square: a rotation adds, and a
-- reflection conjugates before.
abbrev corner : Transform → ℕ → ℕ
corner (rotation a) k = (k + a) % 4
corner (reflection c) k = (c + 4 - k % 4) % 4

-- The exponent is reduced.
abbrev IsReduced : Transform → Type 0
IsReduced (rotation a) = a < 4
IsReduced (reflection c) = c < 4

followed_by-IsReduced : (s t : Transform) → IsReduced (followed_by s t)
unfolding followed_by
followed_by-IsReduced (rotation a) (rotation b) = omega arith
followed_by-IsReduced (rotation a) (reflection c) = omega arith
followed_by-IsReduced (reflection c) (rotation b) = omega arith
followed_by-IsReduced (reflection c) (reflection d) = omega arith

-- Composing two transforms moves every exponent by the first and then by the second.
corner-followed_by : (s t : Transform) (k : ℕ) → corner (followed_by s t) k ≡ corner t (corner s k)
unfolding followed_by
corner-followed_by (rotation a) (rotation b) k = omega arith
corner-followed_by (rotation a) (reflection c) k = omega arith
corner-followed_by (reflection c) (rotation b) k = omega arith
corner-followed_by (reflection c) (reflection d) k = omega arith

-- The sides as exponents.
index_of : Side → ℕ
index_of right = 0
index_of top = 1
index_of left = 2
index_of bottom = 3

side_of : ℕ → Side
side_of zero = right
side_of (suc zero) = top
side_of (suc (suc zero)) = left
side_of (suc (suc (suc n))) = bottom

index_of-side_of : (k : ℕ) → k < 4 → index_of (side_of k) ≡ k
unfolding index_of side_of
index_of-side_of zero h = refl
index_of-side_of (suc zero) h = refl
index_of-side_of (suc (suc zero)) h = refl
index_of-side_of (suc (suc (suc zero))) h = refl
index_of-side_of (suc (suc (suc (suc n)))) h = absurd (omega arith)

-- A transform on the sides.
acted : Transform → Side → Side
acted t s = side_of (corner t (index_of s))

-- Two motions that agree on the four sides.
each_side :
    (f g : Side → Side)
    → f right ≡ g right
    → f top ≡ g top
    → f left ≡ g left
    → f bottom ≡ g bottom
    → (s : Side) → f s ≡ g s
each_side f g a b c d right = a
each_side f g a b c d top = b
each_side f g a b c d left = c
each_side f g a b c d bottom = d

corner-lt : (t : Transform) (k : ℕ) → corner t k < 4
corner-lt (rotation a) k = omega arith
corner-lt (reflection c) k = omega arith

acted-followed_by : (t u : Transform) (s : Side) → acted (followed_by t u) s ≡ acted u (acted t s)
unfolding acted
acted-followed_by t u s =
    ap side_of (corner-followed_by t u (index_of s))
    ∙ ap (λ k. side_of (corner u k)) (sym (index_of-side_of _ (corner-lt t (index_of s))))

index_of-turn_left : (s : Side) → index_of (turn_left s) ≡ (index_of s + 1) % 4
unfolding index_of
index_of-turn_left right = refl
index_of-turn_left top = refl
index_of-turn_left left = refl
index_of-turn_left bottom = refl

side_of-index_of : (s : Side) → side_of (index_of s) ≡ s
unfolding index_of side_of
side_of-index_of = each_side (λ s. side_of (index_of s)) (λ s. s) refl refl refl refl

index_of-lt : (s : Side) → index_of s < 4
unfolding index_of
index_of-lt right = omega arith
index_of-lt top = omega arith
index_of-lt left = omega arith
index_of-lt bottom = omega arith

turns_left-acted : (n : ℕ) (s : Side) → turns_left n s ≡ acted (rotation n) s
unfolding acted
turns_left-acted zero s = sym (ap side_of (omega (arith, index_of-lt s)) ∙ side_of-index_of s)
turns_left-acted (suc n) s =
    turns_left-acted n (turn_left s) ∙ ap side_of (omega (arith, index_of-turn_left s))

-- The reader's transform of a property is what the property means.
motion-acted : (p : TransformProperty) (s : Side) → motion p s ≡ acted (transform_of p) s
unfolding acted index_of side_of
motion-acted (rotate n) s = turns_left-acted n s
motion-acted (mirror zero) s =
    each_side swap_left_right (acted (reflection 2)) refl refl refl refl s
motion-acted (mirror (suc axis)) s =
    let other : reflection 0 ≡ transform_of (mirror (suc axis)) = ground arith in
    each_side swap_top_bottom (acted (reflection 0)) refl refl refl refl s
    ∙ ap (λ u. acted u s) other

into_orientation_lem :
    (t : Transform) (s : Side) → IsReduced t → oriented (into_orientation t) s ≡ acted t s
unfolding into_orientation acted index_of side_of
into_orientation_lem (rotation zero) s h =
    each_side (oriented (into_orientation (rotation zero))) (acted (rotation zero)) refl refl refl
      refl s
into_orientation_lem (rotation (suc zero)) s h =
    each_side (oriented (into_orientation (rotation (suc zero)))) (acted (rotation (suc zero))) refl
      refl refl refl s
into_orientation_lem (rotation (suc (suc zero))) s h =
    each_side (oriented (into_orientation (rotation (suc (suc zero)))))
      (acted (rotation (suc (suc zero)))) refl refl refl refl s
into_orientation_lem (rotation (suc (suc (suc zero)))) s h =
    each_side (oriented (into_orientation (rotation (suc (suc (suc zero))))))
      (acted (rotation (suc (suc (suc zero))))) refl refl refl refl s
into_orientation_lem (rotation (suc (suc (suc (suc n))))) s h = absurd (omega arith)
into_orientation_lem (reflection zero) s h =
    each_side (oriented (into_orientation (reflection zero))) (acted (reflection zero)) refl refl
      refl refl s
into_orientation_lem (reflection (suc zero)) s h =
    each_side (oriented (into_orientation (reflection (suc zero)))) (acted (reflection (suc zero)))
      refl refl refl refl s
into_orientation_lem (reflection (suc (suc zero))) s h =
    each_side (oriented (into_orientation (reflection (suc (suc zero)))))
      (acted (reflection (suc (suc zero)))) refl refl refl refl s
into_orientation_lem (reflection (suc (suc (suc zero)))) s h =
    each_side (oriented (into_orientation (reflection (suc (suc (suc zero))))))
      (acted (reflection (suc (suc (suc zero))))) refl refl refl refl s
into_orientation_lem (reflection (suc (suc (suc (suc n))))) s h = absurd (omega arith)

find_property-IsFirst :
    (index : ℕ) (p : TransformProperty) (properties : List (ℕ × TransformProperty))
    → find_property index properties ≡ some p
    → IsFirst index p properties
unfolding find_property
find_property-IsFirst index p [] e = cc
find_property-IsFirst index p ((j, q) ∷ rest) e = elim (Bool-cases (j == index)) [
  | inl same ↦
      let is_index : j ≡ index = ground arith in
      let is_p : q ≡ p = ground arith in
      subst (λ i. IsFirst index p ((i, q) ∷ rest)) (sym is_index)
        (subst (λ r. IsFirst index p ((index, r) ∷ rest)) (sym is_p) (here rest))
  | inr apart ↦ there j q rest (ground arith) (find_property-IsFirst index p rest (ground arith))
]

find_property-none :
    (index : ℕ) (properties : List (ℕ × TransformProperty))
    → find_property index properties ≡ none
    → All (λ entry. entry.0 ≢ index) properties
unfolding find_property
find_property-none index [] e = tt
find_property-none index ((j, q) ∷ rest) e = elim (Bool-cases (j == index)) [
  | inl same ↦ ground arith
  | inr apart ↦ (ground arith, find_property-none index rest (ground arith))
]

compose-IsReduced :
    (properties : List (ℕ × TransformProperty)) (indices : List ℕ) (t : Transform)
    → IsReduced t
    → IsReduced (compose properties indices t)
unfolding compose
compose-IsReduced properties [] t h = h
compose-IsReduced properties (index ∷ indices) t h =
    elim (Option-cases (find_property index properties)) [
      | inl e ↦ ground (arith, compose-IsReduced properties indices t h)
      | inr (p, e) ↦
          let next = followed_by t (transform_of p) in
          ground (
            arith,
            compose-IsReduced properties indices next (followed_by-IsReduced t (transform_of p)),
          )
    ]

-- The composed transform moves a side as the properties do behind the transform that was there.
compose-Moves :
    (properties : List (ℕ × TransformProperty)) (indices : List ℕ) (t : Transform) (s : Side)
    → Moves properties indices (acted t s) (acted (compose properties indices t) s)
unfolding compose
compose-Moves properties [] t s = stay (acted t s)
compose-Moves properties (index ∷ indices) t s =
    elim (Option-cases (find_property index properties)) [
      | inl e ↦
          let same : compose properties indices t ≡ compose properties (index ∷ indices) t = cc e in
          skip index indices _ _ (find_property-none index properties e) (
            subst (λ u. Moves properties indices (acted t s) (acted u s)) same
              (compose-Moves properties indices t s))
      | inr (p, e) ↦
          let next = followed_by t (transform_of p) in
          let same : compose properties indices next ≡ compose properties (index ∷ indices) t =
            cc e in
          let behind : acted next s ≡ motion p (acted t s) =
            acted-followed_by t (transform_of p) s ∙ sym (motion-acted p (acted t s)) in
          move index indices p _ _ (find_property-IsFirst index p properties e) (
            subst (λ u. Moves properties indices (motion p (acted t s)) (acted u s)) same
              (subst
                (λ from. Moves properties indices from (acted (compose properties indices next) s))
                behind (compose-Moves properties indices next s)))
    ]

acted-identity : (s : Side) → acted identity s ≡ s
unfolding acted index_of side_of
acted-identity = each_side (acted identity) (λ s. s) refl refl refl refl

-- The orientation that the reader reports moves each side of the image as the associated `irot` and
-- `imir` properties do one after another, in the order in which they are listed: `irot` turns
-- anticlockwise, `imir` exchanges left and right or top and bottom by its axis, an index names the
-- first property that has it, and an index that names none is skipped.
pub oriented-compose :
    (properties : List (ℕ × TransformProperty)) (indices : List ℕ) (s : Side)
    → Moves properties indices s
        (oriented (into_orientation (compose properties indices identity)) s)
oriented-compose properties indices s =
    let composed = compose properties indices identity in
    let whole =
      into_orientation_lem composed s
        (compose-IsReduced properties indices identity (omega arith)) in
    subst (λ from. Moves properties indices from (oriented (into_orientation composed) s))
      (acted-identity s)
      (subst (Moves properties indices (acted identity s)) (sym whole)
        (compose-Moves properties indices identity s))
