-- ===== src/Avif/Transforms.antt =====
-- The orientation part of src/services/image/avif_meta.rs: the properties of the primary item, composed
-- in the group of the square's symmetries.
use image_resizer.Prelude.{
  Bool, List, Option, [], bind?, drop, false, if◌then◌else◌, leb, ltb, none, some, suc, true, zero,
  ℕ, ◌%◌, ◌+◌, ◌-◌, ◌==◌, ◌^◌, ◌∷◌,
}
use image_resizer.Text.{Str, codes, eqb}
use image_resizer.Avif.Cursor.{
  ◌>>◌, Read, fail, pure, read_be, read_u16, read_u32, read_u8, run, skip, ◌>>=◌,
}
use image_resizer.Text.{Str, codes, eqb}
use image_resizer.Avif.Boxes.{
  content_of, keep_first, max_nesting_depth, read_box_header, walk_boxes,
}

-- `image::metadata::Orientation`.
pub data Orientation : Type 0 where
  no_transforms rotate90 rotate180 rotate270 : Orientation
  flip_horizontal flip_vertical rotate90_flip_h rotate270_flip_h : Orientation

pub data TransformProperty : Type 0 where
  rotate mirror : ℕ → TransformProperty

pub data Transform : Type 0 where
  rotation reflection : ℕ → Transform

abbrev pub identity : Transform
identity = rotation 0

unfoldable pub followed_by : Transform → Transform → Transform
followed_by (rotation a) (rotation b) = rotation ((a + b) % 4)
followed_by (rotation a) (reflection c) = reflection ((c + 4 - a % 4) % 4)
followed_by (reflection c) (rotation b) = reflection ((c + b) % 4)
followed_by (reflection c₁) (reflection c₂) = rotation ((c₂ + 4 - c₁ % 4) % 4)

unfoldable pub into_orientation : Transform → Orientation
into_orientation (rotation zero) = no_transforms
into_orientation (rotation (suc zero)) = rotate270
into_orientation (rotation (suc (suc zero))) = rotate180
into_orientation (rotation (suc (suc (suc zero)))) = rotate90
into_orientation (reflection zero) = flip_vertical
into_orientation (reflection (suc zero)) = rotate270_flip_h
into_orientation (reflection (suc (suc zero))) = flip_horizontal
into_orientation (reflection (suc (suc (suc zero)))) = rotate90_flip_h
into_orientation _ = no_transforms

unfoldable pub parse_primary_item_id : Str → Option ℕ
parse_primary_item_id =
    run (do version ← read_u8; skip 3; if version == 0 then read_u16 else read_u32)

-- `content.first()` of an `irot` or `imir` box.
abbrev property_of : Str → Str → Option TransformProperty
property_of box_type [] = none
property_of box_type (b ∷ content) =
    if eqb box_type (codes "irot")
    then some (rotate (b % 4))
    else if eqb box_type (codes "imir")
    then some (mirror (b % 2))
    else none

abbrev push_property :
    ℕ → Option TransformProperty → List (ℕ × TransformProperty) → List (ℕ × TransformProperty)
push_property index none properties = properties
push_property index (some p) properties = (index, p) ∷ properties

-- The loop of `collect_properties`, with the index of the box before. The budget is below the range
-- of the index, so that the increment never overflows.
unfoldable pub collect_loop : Str → ℕ → ℕ → List (ℕ × TransformProperty) × ℕ
collect_loop [] budget index = ([], budget)
collect_loop (c ∷ rest) zero index = ([], zero)
collect_loop (c ∷ rest) (suc budget) index = elim (read_box_header (c ∷ rest)) [
  | none ↦ ([], suc budget)
  | some (box_type, header_len, total_size) ↦
      let (later, left) = collect_loop (drop total_size (c ∷ rest)) budget (suc index) in
      (
        push_property (suc index)
            (property_of box_type (content_of header_len total_size (c ∷ rest))) later,
        left,
      )
]

unfoldable pub collect_properties : Str → ℕ → ℕ → List (ℕ × TransformProperty) × ℕ
unfolding collect_loop
collect_properties ipco_content depth budget =
    if ltb max_nesting_depth depth then ([], budget) else collect_loop ipco_content budget 0

abbrev read_index : Bool → Read ℕ
read_index large = if large then read_u16 else read_u8

abbrev index_mask : Bool → ℕ
index_mask large = if large then 2 ^ 15 else 2 ^ 7

unfoldable pub associations : Bool → ℕ → Read (List ℕ)
associations large zero = pure []
associations large (suc n) = do
  index ← read_index large
  later ← associations large n
  pure (index % index_mask large ∷ later)

unfoldable pub skip_associations : Bool → ℕ → Read (Unit {0})
skip_associations large zero = pure tt
skip_associations large (suc n) = do _ ← read_index large; skip_associations large n

-- The loop over the entries of `ipma`, for the entry of the primary item.
unfoldable pub association_entries : Bool → Bool → ℕ → ℕ → Read (List ℕ)
unfolding associations skip_associations
association_entries wide large target zero = fail
association_entries wide large target (suc n) = do
  item_id ← if wide then read_u32 else read_u16
  association_count ← read_u8
  elim (item_id == target) [
    | true ↦ associations large association_count
    | false ↦ (do
      skip_associations large association_count
      association_entries wide large target n)
  ]

unfoldable pub parse_primary_item_associations : Str → ℕ → Option (List ℕ)
unfolding association_entries
parse_primary_item_associations ipma_content target =
    run
      (do
        version ← read_u8
        flags ← read_be 3
        entry_count ← read_u32
        association_entries (leb 1 version) (flags % 2 == 1) target entry_count)
      ipma_content

-- `properties.iter().find(|(i, _)| *i == index)`.
unfoldable pub find_property : ℕ → List (ℕ × TransformProperty) → Option TransformProperty
find_property index [] = none
find_property index ((i, p) ∷ properties) =
    if i == index then some p else find_property index properties

abbrev pub transform_of : TransformProperty → Transform
transform_of (rotate steps) = rotation steps
transform_of (mirror axis) = reflection (if axis == 0 then 2 else 0)

-- The loop over the indices.
unfoldable pub compose : List (ℕ × TransformProperty) → List ℕ → Transform → Transform
unfolding find_property followed_by
compose properties [] transform = transform
compose properties (index ∷ indices) transform = elim (find_property index properties) [
  | none ↦ compose properties indices transform
  | some p ↦ compose properties indices (followed_by transform (transform_of p))
]

abbrev visit_iprp : Str → Str → Option Str × Option Str → Option Str × Option Str
visit_iprp box_type content (ipco, ipma) = (
  keep_first (codes "ipco") box_type content ipco,
  keep_first (codes "ipma") box_type content ipma,
)

abbrev composed : Option (List ℕ) → List (ℕ × TransformProperty) → Option Orientation
composed none properties = none
composed (some indices) properties = some (into_orientation (compose properties indices identity))

abbrev associated : ℕ → Option Str × Option Str → ℕ → Option Orientation × ℕ
associated primary (none, ipma) budget = (none, budget)
associated primary (some ipco, ipma) budget =
    let (properties, left) = collect_properties ipco 3 budget in
    (
      elim ipma [
        | none ↦ none
        | some content ↦ composed (parse_primary_item_associations content primary) properties
      ],
      left,
    )

-- `resolve_orientation`, with the budget that is left.
unfoldable pub resolve_orientation : Option Str → Option Str → ℕ → Option Orientation × ℕ
unfolding walk_boxes collect_properties parse_primary_item_associations
resolve_orientation pitm iprp budget = elim (bind? pitm parse_primary_item_id) [
  | none ↦ (none, budget)
  | some primary ↦ elim iprp [
    | none ↦ (none, budget)
    | some content ↦
        let (found, left) = walk_boxes visit_iprp content 2 budget (none, none) in
        associated primary found left
  ]
]
