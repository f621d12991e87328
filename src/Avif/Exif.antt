-- ===== src/Avif/Exif.antt =====
-- The EXIF part of src/services/image/avif_meta.rs: the item with the EXIF block, its location, and the
-- block itself.
use image_resizer.Prelude.{
  Bool, List, Option, [], bind?, drop, false, if◌then◌else◌, length, ltb, none, not, some, suc,
  take, true, zero, ℕ, ◌%◌, ◌&&◌, ◌++◌, ◌+◌, ◌/◌, ◌==◌, ◌^◌, ◌||◌, ◌∷◌,
}
use image_resizer.Text.{Str, codes, eqb, strip_prefix}
use image_resizer.Avif.Cursor.{
  ◌>>◌, Read, fail, from_be, get_from, get_range, pure, read_bytes, read_u16, read_u32, read_u8,
  read_uint, remainder, run, skip, ◌>>=◌,
}
use image_resizer.Avif.Boxes.{walk_boxes}

-- 1 MiB.
abbrev pub max_exif_len : ℕ
max_exif_len = 1048576

abbrev item_id_of : ℕ → Read ℕ
item_id_of version = if version == 2 then read_u16 else if version == 3 then read_u32 else fail

abbrev exif_only : ℕ → Str → Read ℕ
exif_only item_id item_type = if eqb item_type (codes "Exif") then pure item_id else fail

unfoldable pub parse_infe_exif_item_id : Str → Option ℕ
parse_infe_exif_item_id = run (do
  version ← read_u8
  skip 3
  item_id ← item_id_of version
  skip 2
  item_type ← read_bytes 4
  exif_only item_id item_type)

abbrev visit_infe : Str → Str → Option ℕ → Option ℕ
visit_infe box_type content (some found) = some found
visit_infe box_type content none =
    if eqb box_type (codes "infe") then parse_infe_exif_item_id content else none

-- The header of `iinf` leaves the cursor before its children.
abbrev iinf_children : Read Str
iinf_children = do
  version ← read_u8
  skip 3
  _ ← if version == 0 then read_u16 else read_u32
  λ c. some (remainder c, c)

unfoldable pub find_exif_item_id : Str → ℕ → ℕ → Option ℕ × ℕ
unfolding walk_boxes
find_exif_item_id iinf_content depth budget = elim (run iinf_children iinf_content) [
  | none ↦ (none, budget)
  | some children ↦ walk_boxes visit_infe children depth budget none
]

pub record IlocEntry : Type 0 where
  pub construction_method : ℕ
  pub base_offset : ℕ
  pub extents : List (ℕ × ℕ)

-- The field widths, which stand once in the header of `iloc`.
pub record IlocSizes : Type 0 where
  pub version : ℕ
  pub offset_size : ℕ
  pub length_size : ℕ
  pub base_offset_size : ℕ
  pub index_size : ℕ

abbrev has_method : IlocSizes → Bool
has_method z = z.version == 1 || z.version == 2

unfoldable pub read_extents : IlocSizes → ℕ → Read (List (ℕ × ℕ))
read_extents z zero = pure []
read_extents z (suc n) = do
  _ ← if has_method z && ltb 0 z.index_size then read_uint z.index_size else pure 0
  extent_offset ← read_uint z.offset_size
  extent_length ← read_uint z.length_size
  later ← read_extents z n
  pure ((extent_offset, extent_length) ∷ later)

abbrev item_number : IlocSizes → Read ℕ
item_number z = if ltb z.version 2 then read_u16 else read_u32

abbrev construction : IlocSizes → Read ℕ
construction z = if has_method z then (do raw ← read_u16; pure (raw % 16)) else pure 0

-- The loop over the items of `iloc`.
unfoldable pub iloc_entries : IlocSizes → ℕ → ℕ → Read IlocEntry
unfolding read_extents
iloc_entries z target zero = fail
iloc_entries z target (suc n) = do
  item_id ← item_number z
  construction_method ← construction z
  skip 2
  base_offset ← read_uint z.base_offset_size
  extent_count ← read_u16
  extents ← read_extents z extent_count
  elim (item_id == target) [
    | true ↦ pure (record {
      construction_method = construction_method;
      base_offset = base_offset;
      extents = extents;
    })
    | false ↦ iloc_entries z target n
  ]

unfoldable pub find_iloc_entry : Str → ℕ → Option IlocEntry
unfolding iloc_entries
find_iloc_entry iloc_content target =
    run
      (do
        version ← read_u8
        skip 3
        sizes ← read_u8
        sizes2 ← read_u8
        let z : IlocSizes = record {
          version = version;
          offset_size = sizes / 16;
          length_size = sizes % 16;
          base_offset_size = sizes2 / 16;
          index_size = sizes2 % 16;
        }
        item_count ← item_number z
        iloc_entries z target item_count)
      iloc_content

-- `checked_add` on 64 bits.
abbrev checked_add : ℕ → ℕ → Option ℕ
checked_add a b = if ltb (a + b) (2 ^ 64) then some (a + b) else none

-- The bytes of one extent.
unfoldable pub extent_bytes : Str → ℕ → ℕ × ℕ → Option Str
extent_bytes file base_offset (extent_offset, extent_length) =
    bind? (checked_add base_offset extent_offset)
      (λ start. bind? (checked_add start extent_length) (λ end. get_range start end file))

-- The loop over the extents, with the payload so far.
unfoldable pub payload_of : Str → ℕ → List (ℕ × ℕ) → Str → Option Str
unfolding extent_bytes
payload_of file base_offset [] payload = some payload
payload_of file base_offset (e ∷ extents) payload = elim (extent_bytes file base_offset e) [
  | none ↦ none
  | some extent ↦ elim (ltb max_exif_len (length payload + length extent)) [
    | true ↦ none
    | false ↦ payload_of file base_offset extents (payload ++ extent)
  ]
]

abbrev starts_with : Str → Str → Bool
starts_with prefix s = elim (strip_prefix prefix s) [ none ↦ false | some _ ↦ true ]

-- `II*\0` or `MM\0*`.
abbrev pub is_tiff : Str → Bool
is_tiff s =
    starts_with (b'I' ∷ b'I' ∷ b'*' ∷ 0 ∷ []) s || starts_with (b'M' ∷ b'M' ∷ 0 ∷ b'*' ∷ []) s

-- The block behind the header offset that begins a payload.
unfoldable pub tiff_of : Str → Option Str
tiff_of payload =
    if ltb (length payload) 4
    then none
    else bind? (get_from (from_be 0 (take 4 payload)) (drop 4 payload))
        (λ tiff. if is_tiff tiff then some tiff else none)

unfoldable pub extract_exif_tiff : Str → IlocEntry → Option Str
unfolding payload_of tiff_of
extract_exif_tiff file entry =
    if not (entry.construction_method == 0)
    then none
    else bind? (payload_of file entry.base_offset entry.extents []) tiff_of

-- `extract_exif_payload`, with the budget that is left.
unfoldable pub extract_exif_payload : Str → Option Str → Option Str → ℕ → Option Str × ℕ
unfolding find_exif_item_id find_iloc_entry extract_exif_tiff
extract_exif_payload file none iloc budget = (none, budget)
extract_exif_payload file (some iinf) iloc budget =
    let (item, left) = find_exif_item_id iinf 2 budget in
    (
      bind? item (λ id.
          bind? iloc (λ content. bind? (find_iloc_entry content id) (extract_exif_tiff file))),
      left,
    )
