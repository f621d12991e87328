-- ===== src/Models/Formats.antt =====
-- The enumerations of src/models/params.rs with their texts. Error messages are left out: a failed
-- `FromStr` is `none`.
use image_resizer.Prelude.{Option, ap, if◌then◌else◌, none, refl, some, ◌||◌, ◌≡◌}
use image_resizer.Text.{Str, codes, eqb}

pub data ImageFormat : Type 0 where
  jpg png webp avif gif auto : ImageFormat

pub data ResizeType : Type 0 where
  fit fill force auto : ResizeType

pub data WatermarkPosition : Type 0 where
  center north south east west north_east north_west south_east south_west : WatermarkPosition

-- `Display for ImageFormat`.
unfoldable pub show_format : ImageFormat → Str
show_format jpg = codes "jpg"
show_format png = codes "png"
show_format webp = codes "webp"
show_format avif = codes "avif"
show_format gif = codes "gif"
show_format ImageFormat.auto = codes "auto"

-- `FromStr for ImageFormat`.
unfoldable pub parse_format : Str → Option ImageFormat
unfolding eqb
parse_format s =
    if eqb s (codes "jpg") || eqb s (codes "jpeg")
    then some jpg
    else if eqb s (codes "png")
    then some png
    else if eqb s (codes "webp")
    then some webp
    else if eqb s (codes "avif")
    then some avif
    else if eqb s (codes "gif")
    then some gif
    else if eqb s (codes "auto")
    then some ImageFormat.auto
    else none

-- `Display for ResizeType`.
unfoldable pub show_resize_type : ResizeType → Str
show_resize_type fit = codes "fit"
show_resize_type fill = codes "fill"
show_resize_type force = codes "force"
show_resize_type ResizeType.auto = codes "auto"

-- `FromStr for ResizeType`: the empty slot is `fit`.
unfoldable pub parse_resize_name : Str → Option ResizeType
unfolding eqb
parse_resize_name s =
    if eqb s (codes "") || eqb s (codes "fit")
    then some fit
    else if eqb s (codes "fill")
    then some fill
    else if eqb s (codes "force")
    then some force
    else if eqb s (codes "auto")
    then some ResizeType.auto
    else none

-- The derived `Debug` of `WatermarkPosition`, which the cache key prints.
unfoldable pub debug_position : WatermarkPosition → Str
debug_position center = codes "Center"
debug_position north = codes "North"
debug_position south = codes "South"
debug_position east = codes "East"
debug_position west = codes "West"
debug_position north_east = codes "NorthEast"
debug_position north_west = codes "NorthWest"
debug_position south_east = codes "SouthEast"
debug_position south_west = codes "SouthWest"

pub ImageFormat-discrete : Discrete ImageFormat
ImageFormat-discrete = hlevel

-- A printed format parses back, and so does a printed resize type.
pub parse_format-show_format : (f : ImageFormat) → parse_format (show_format f) ≡ some f
unfolding parse_format show_format
parse_format-show_format jpg = refl
parse_format-show_format _ = refl

pub parse_resize_name-show_resize_type :
    (t : ResizeType) → parse_resize_name (show_resize_type t) ≡ some t
unfolding parse_resize_name show_resize_type
parse_resize_name-show_resize_type fit = refl
parse_resize_name-show_resize_type _ = refl

pub show_format-injective : (a b : ImageFormat) → show_format a ≡ show_format b → a ≡ b
show_format-injective a b h =
    cc (parse_format-show_format a, parse_format-show_format b, ap parse_format h)

pub show_resize_type-injective :
    (a b : ResizeType) → show_resize_type a ≡ show_resize_type b → a ≡ b
show_resize_type-injective a b h = cc (
  parse_resize_name-show_resize_type a,
  parse_resize_name-show_resize_type b,
  ap parse_resize_name h,
)

-- The position that a text names, to invert `debug_position`.
position_named : Str → WatermarkPosition
unfolding eqb
position_named s =
    if eqb s (codes "North")
    then north
    else if eqb s (codes "South")
    then south
    else if eqb s (codes "East")
    then east
    else if eqb s (codes "West")
    then west
    else if eqb s (codes "NorthEast")
    then north_east
    else if eqb s (codes "NorthWest")
    then north_west
    else if eqb s (codes "SouthEast")
    then south_east
    else if eqb s (codes "SouthWest")
    then south_west
    else center

position_named-debug_position : (p : WatermarkPosition) → position_named (debug_position p) ≡ p
unfolding position_named debug_position
position_named-debug_position center = refl
position_named-debug_position _ = refl

pub debug_position-injective :
    (a b : WatermarkPosition) → debug_position a ≡ debug_position b → a ≡ b
debug_position-injective a b h =
    cc (position_named-debug_position a, position_named-debug_position b, ap position_named h)
