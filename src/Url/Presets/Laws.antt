-- ===== src/Url/Presets/Laws.antt =====
-- The form of a parsed registry of presets.rs.
use image_resizer.Prelude.{
  >>=-AllOk, All, AllOk, AllOk_of_ok, AllSome, List, Option-cases, [], arith, if-AllOk, inl, inr,
  none, ok, ◌∷◌, ◌≡◌, ◌≢◌,
}
use image_resizer.Text.{Str, codes, eqb_iff, is_empty}
use image_resizer.Url.Presets.{
  PresetRegistry, find_nested, get, insert_new, parse_entries, parse_entry, parse_registry,
  trim_pieces,
}
use image_resizer.Url.Options.Parse.{code_of}
use image_resizer.Text.Trim.{trim}
use image_resizer.Text.Split.{split_on, split_once}

-- A segment of a preset: not empty, and no reference to a preset.
abbrev pub IsPlainSegment : Str → Type 0
IsPlainSegment s = (s ≢ []) × (code_of s ≢ codes "pr")

abbrev pub IsEntry : Str × List Str → Type 0
IsEntry (name, segments) = (name ≢ []) × (segments ≢ []) × All IsPlainSegment segments

-- Entries are well formed, and no name is used twice.
abbrev pub IsRegistry : PresetRegistry → Type 0
IsRegistry [] = Unit
IsRegistry (entry ∷ rest) = IsEntry entry × (get entry.0 rest ≡ none) × IsRegistry rest

trim_pieces-ne-nil : (ps : List Str) → All (λ s. s ≢ []) (trim_pieces ps)
unfolding trim_pieces
trim_pieces-ne-nil [] = tt
trim_pieces-ne-nil (p ∷ ps) = ground (arith, trim_pieces-ne-nil ps)

find_nested-none :
    (ss : List Str) → find_nested ss ≡ none → All (λ s. s ≢ []) ss → All IsPlainSegment ss
unfolding find_nested
find_nested-none [] e h = tt
find_nested-none (s ∷ ss) e (h, hs) =
    ground (arith, find_nested-none ss, eqb_iff (code_of s) (codes "pr"))

parse_entry-IsEntry : (entry : Str) → AllOk IsEntry (parse_entry entry)
unfolding parse_entry
parse_entry-IsEntry entry = elim (Option-cases (split_once b'=' entry)) [
  | inl e ↦ ground arith
  | inr ((name, options), e) ↦
      let pieces = trim_pieces-ne-nil (split_on b'/' options) in
      ground (arith, find_nested-none (trim_pieces (split_on b'/' options)))
]

insert_new-IsRegistry :
    (entry : Str × List Str) (registry : PresetRegistry)
    → IsEntry entry
    → IsRegistry registry
    → AllOk IsRegistry (insert_new entry registry)
unfolding insert_new
insert_new-IsRegistry (name, segments) registry h v = ground arith

parse_entries-IsRegistry :
    (raws : List Str) (registry : PresetRegistry)
    → IsRegistry registry
    → AllOk IsRegistry (parse_entries raws registry)
unfolding parse_entries
parse_entries-IsRegistry [] registry v = v
parse_entries-IsRegistry (raw ∷ raws) registry v =
    if-AllOk IsRegistry (is_empty (trim raw)) _ _ (parse_entries-IsRegistry raws registry v) (
      >>=-AllOk IsEntry IsRegistry (parse_entry (trim raw)) _ (parse_entry-IsEntry (trim raw))
        (λ entry h.
          >>=-AllOk IsRegistry IsRegistry (insert_new entry registry) _
            (insert_new-IsRegistry entry registry h v)
            (λ registry' v'. parse_entries-IsRegistry raws registry' v')))

-- A configuration that is accepted gives a registry with distinct names that are not empty, whose
-- presets have at least one segment, no empty segment, and no reference to another preset.
pub parse_registry-IsRegistry :
    (raw : Str) (registry : PresetRegistry) → parse_registry raw ≡ ok registry → IsRegistry registry
unfolding parse_registry
parse_registry-IsRegistry raw registry e =
    AllOk_of_ok IsRegistry _ registry (parse_entries-IsRegistry (split_on b',' raw) [] tt) e

pub get-All :
    (name : Str) (registry : PresetRegistry)
    → IsRegistry registry
    → AllSome (All IsPlainSegment) (get name registry)
unfolding get
get-All name [] v = tt
get-All name ((key, segments) ∷ rest) v = ground (arith, get-All name rest)
