-- ===== src/Url/Presets.antt =====
-- src/modules/url/presets.rs: the deployment's presets and its list of allowed option codes. The
-- hash map is an association list whose keys are distinct, and the hash set a list.
pub mod Laws
use image_resizer.Prelude.{
  Bool, List, Option, Result, [], err, guard, if◌then◌else◌, none, not, ok, ok_or, some, true,
  ◌>>=◌, ◌>>◌, ◌∷◌,
}
use image_resizer.Text.{Str, codes, eqb, is_empty, mem}
use image_resizer.Text.Trim.{trim}
use image_resizer.Text.Split.{split_on, split_once}
use image_resizer.Url.Options.Parse.{code_of}

pub data PresetParseError : Type 0 where
  missing_equals empty_name no_options duplicate_name : Str → PresetParseError
  nested_preset : Str → Str → PresetParseError

abbrev pub PresetRegistry : Type 0
PresetRegistry = List (Str × List Str)

abbrev pub empty_registry : PresetRegistry
empty_registry = []

-- `PresetRegistry::get`.
unfoldable pub get : Str → PresetRegistry → Option (List Str)
get name [] = none
get name ((key, segments) ∷ rest) = if eqb key name then some segments else get name rest

-- `PresetRegistry::default_preset`.
unfoldable pub default_preset : PresetRegistry → Option (List Str)
default_preset registry = get (codes "default") registry

-- `.map(str::trim).filter(|s| !s.is_empty())`.
unfoldable pub trim_pieces : List Str → List Str
trim_pieces [] = []
trim_pieces (p ∷ ps) = if is_empty (trim p) then trim_pieces ps else trim p ∷ trim_pieces ps

-- `segments.iter().find(|seg| seg.split(':').next() == "pr")`.
unfoldable pub find_nested : List Str → Option Str
find_nested [] = none
find_nested (s ∷ ss) = if eqb (code_of s) (codes "pr") then some s else find_nested ss

-- One entry that is not empty after trimming.
unfoldable pub parse_entry : Str → Result PresetParseError (Str × List Str)
unfolding trim_pieces find_nested
parse_entry entry = do
  (raw_name, options) ← ok_or (split_once b'=' entry) (missing_equals entry)
  let name = trim raw_name
  guard (not (is_empty name)) (empty_name entry)
  let segments = trim_pieces (split_on b'/' options)
  guard (not (is_empty segments)) (no_options name)
  elim (find_nested segments) [
    | none ↦ ok (name, segments)
    | some bad ↦ err (nested_preset name bad)
  ]

-- `presets.insert(..).is_some()` is an error.
unfoldable pub insert_new : Str × List Str → PresetRegistry → Result PresetParseError PresetRegistry
unfolding get
insert_new (name, segments) registry = elim (get name registry) [
  | none ↦ ok ((name, segments) ∷ registry)
  | some _ ↦ err (duplicate_name name)
]

-- The loop over the entries.
unfoldable pub parse_entries : List Str → PresetRegistry → Result PresetParseError PresetRegistry
unfolding parse_entry insert_new
parse_entries [] registry = ok registry
parse_entries (raw ∷ raws) registry =
    let skipped = parse_entries raws registry in
    let entered = (do
      entry ← parse_entry (trim raw)
      registry' ← insert_new entry registry
      parse_entries raws registry') in
    if is_empty (trim raw) then skipped else entered

-- `PresetRegistry::parse`.
unfoldable pub parse_registry : Str → Result PresetParseError PresetRegistry
unfolding parse_entries
parse_registry raw = parse_entries (split_on b',' raw) empty_registry

-- `AllowedOptions`: `none` allows every code.
abbrev pub AllowedOptions : Type 0
AllowedOptions = Option (List Str)

unfoldable pub parse_allowed : Str → AllowedOptions
unfolding trim_pieces
parse_allowed raw = elim (trim_pieces (split_on b',' raw)) [
  | [] ↦ none
  | code ∷ more ↦ some (code ∷ more)
]

unfoldable pub is_allowed : Str → AllowedOptions → Bool
is_allowed code none = true
is_allowed code (some allowed) = mem code allowed
