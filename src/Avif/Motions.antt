-- ===== src/Avif/Motions.antt =====
-- What the `irot` and `imir` properties of an AVIF item and the orientations of the package image mean,
-- on the sides of an image.
use image_resizer.Prelude.{All, List, [], suc, zero, ℕ, ◌∷◌, ◌≢◌}
use image_resizer.Avif.Transforms.{
  Orientation, TransformProperty, flip_horizontal, flip_vertical, mirror, no_transforms, rotate,
  rotate180, rotate270, rotate270_flip_h, rotate90, rotate90_flip_h,
}

-- The sides of an image. What the properties and the orientations mean is said of them, without the
-- transforms of the reader.
pub data Side : Type 0 where
  right top left bottom : Side

-- A quarter turn anticlockwise and clockwise.
abbrev pub turn_left : Side → Side
turn_left right = top
turn_left top = left
turn_left left = bottom
turn_left bottom = right

abbrev pub turn_right : Side → Side
turn_right right = bottom
turn_right bottom = left
turn_right left = top
turn_right top = right

abbrev pub swap_left_right : Side → Side
swap_left_right right = left
swap_left_right left = right
swap_left_right s = s

abbrev pub swap_top_bottom : Side → Side
swap_top_bottom top = bottom
swap_top_bottom bottom = top
swap_top_bottom s = s

abbrev pub turns_left : ℕ → Side → Side
turns_left zero s = s
turns_left (suc n) s = turns_left n (turn_left s)

-- `irot` turns anticlockwise by its number of quarters. `imir` exchanges left and right for axis 0, and
-- top and bottom for axis 1.
abbrev pub motion : TransformProperty → Side → Side
motion (rotate quarters) s = turns_left quarters s
motion (mirror zero) s = swap_left_right s
motion (mirror (suc axis)) s = swap_top_bottom s

-- The first property with an index.
pub data IsFirst (index : ℕ) (p : TransformProperty) : List (ℕ × TransformProperty) → Type 0 where
  here : (rest : List (ℕ × TransformProperty)) → IsFirst index p ((index, p) ∷ rest)
  there :
      (j : ℕ) (q : TransformProperty) (rest : List (ℕ × TransformProperty))
      → j ≢ index
      → IsFirst index p rest
      → IsFirst index p ((j, q) ∷ rest)

-- The properties that the indices name move a side one after another; an index that names none is
-- skipped.
pub data Moves (properties : List (ℕ × TransformProperty)) : List ℕ → Side → Side → Type 0 where
  stay : (s : Side) → Moves properties [] s s
  skip :
      (index : ℕ) (indices : List ℕ) (s t : Side)
      → All (λ entry. entry.0 ≢ index) properties
      → Moves properties indices s t
      → Moves properties (index ∷ indices) s t
  move :
      (index : ℕ) (indices : List ℕ) (p : TransformProperty) (s t : Side)
      → IsFirst index p properties
      → Moves properties indices (motion p s) t
      → Moves properties (index ∷ indices) s t

-- `DynamicImage::apply_orientation` on a side: a clockwise turn, then a flip if there is one.
abbrev pub oriented : Orientation → Side → Side
oriented no_transforms s = s
oriented rotate90 s = turn_right s
oriented rotate180 s = turn_right (turn_right s)
oriented rotate270 s = turn_right (turn_right (turn_right s))
oriented flip_horizontal s = swap_left_right s
oriented flip_vertical s = swap_top_bottom s
oriented rotate90_flip_h s = swap_left_right (turn_right s)
oriented rotate270_flip_h s = swap_left_right (turn_right (turn_right (turn_right s)))
