-- ===== src/Avif/Boxes.antt =====
-- `read_box_header`, `walk_boxes` and `find_first_box` of src/services/image/avif_meta.rs.
use image_resizer.Prelude.{
  Option, [], drop, if◌then◌else◌, length, ltb, none, some, suc, take, zero, ℕ, ◌-◌, ◌==◌, ◌||◌,
  ◌∷◌,
}
use image_resizer.Avif.Cursor.{Read, pure, read_bytes, read_u32, read_u64, run, ◌>>=◌}
use image_resizer.Text.{Str, eqb}

-- Box type, length of the header, length of the box.
abbrev pub Header : Type 0
Header = Str × ℕ × ℕ

abbrev pub box_size : ℕ → ℕ → Read (ℕ × ℕ)
box_size available size32 =
    if size32 == 1
    then (do total ← read_u64; pure (16, total))
    else if size32 == 0
    then pure (8, available)
    else pure (8, size32)

abbrev pub raw_header : ℕ → Read Header
raw_header available = do
  size32 ← read_u32
  box_type ← read_bytes 4
  (header_len, total_size) ← box_size available size32
  pure (box_type, header_len, total_size)

abbrev checked_header : ℕ → Header → Option Header
checked_header available (box_type, header_len, total_size) =
    if ltb total_size header_len || ltb available total_size
    then none
    else some (box_type, header_len, total_size)

unfoldable pub read_box_header : Str → Option Header
read_box_header bytes = elim (run (raw_header (length bytes)) bytes) [
  | none ↦ none
  | some header ↦ checked_header (length bytes) header
]

abbrev pub max_nesting_depth : ℕ
max_nesting_depth = 8

abbrev pub max_boxes_visited : ℕ
max_boxes_visited = 4096

abbrev pub content_of : ℕ → ℕ → Str → Str
content_of header_len total_size rest = take (total_size - header_len) (drop header_len rest)

-- The loop of `walk_boxes`: the visitor's state and the budget that is left.
unfoldable pub walk_loop : {S : Type 0} → (Str → Str → S → S) → Str → ℕ → S → S × ℕ
walk_loop visit [] budget s = (s, budget)
walk_loop visit (c ∷ rest) zero s = (s, zero)
walk_loop visit (c ∷ rest) (suc budget) s = elim (read_box_header (c ∷ rest)) [
  | none ↦ (s, suc budget)
  | some (box_type, header_len, total_size) ↦
      walk_loop visit (drop total_size (c ∷ rest)) budget
        (visit box_type (content_of header_len total_size (c ∷ rest)) s)
]

unfoldable pub walk_boxes : {S : Type 0} → (Str → Str → S → S) → Str → ℕ → ℕ → S → S × ℕ
unfolding walk_loop
walk_boxes visit bytes depth budget s =
    if ltb max_nesting_depth depth then (s, budget) else walk_loop visit bytes budget s

-- `if slot.is_none() && box_type == target { slot = Some(content) }`.
abbrev pub keep_first : Str → Str → Str → Option Str → Option Str
keep_first target box_type content (some found) = some found
keep_first target box_type content none = if eqb box_type target then some content else none

unfoldable pub find_first_box : Str → ℕ → ℕ → Str → Option Str × ℕ
unfolding walk_boxes
find_first_box bytes depth budget target = walk_boxes (keep_first target) bytes depth budget none
