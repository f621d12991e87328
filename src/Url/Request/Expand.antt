-- ===== src/Url/Request/Expand.antt =====
-- Lemmas on `parse_with_config` of src/modules/url/mod.rs.
use image_resizer.Prelude.{
  >>=-AllOk, >>=-AllOk_any, >>=-eq-ok, All, All-append, AllOk, AllOk_of_ok, List, Option-cases,
  Result-cases, [], arith, drop-length-append, false, guard, if◌then◌else◌, inl, inr, length, none,
  ok, refl, take, take-length-append, true, ◌++◌, ◌>>=◌, ◌∷◌, ◌≡◌, ◌≢◌,
}
use image_resizer.Prelude.Floats.{Floats}
use image_resizer.Text.{Str, codes, eqb, eqb_iff}
use image_resizer.Url.Codecs.{Codecs}
use image_resizer.Url.Presets.{
  AllowedOptions, PresetRegistry, default_preset, empty_registry, get, is_allowed,
}
use image_resizer.Url.Presets.Laws.{IsPlainSegment, IsRegistry, get-All}
use image_resizer.Url.Request.{
  ParsedRequest, SignedRequest, expand_names, expand_segments, parse_request, parse_with_config,
  source_index, starts_source,
}
use image_resizer.Url.Options.Parse.{args_of, code_of, parse_options}
use image_resizer.Url.Source.{parse_source}

abbrev pub IsNotPreset : Str → Type 0
IsNotPreset s = code_of s ≢ codes "pr"

expand_segments-allowed :
    (presets : PresetRegistry) (allowed : AllowedOptions) (segs : List Str)
    → AllOk
        (λ _. All (λ s. is_allowed (code_of s) allowed ≡ true) segs)
        (expand_segments presets allowed segs)
unfolding expand_segments
expand_segments-allowed presets allowed [] = tt
expand_segments-allowed presets allowed (s ∷ segs) =
    ground (arith, expand_segments-allowed presets allowed segs)

All-weaken : (ss : List Str) → All IsPlainSegment ss → All IsNotPreset ss
All-weaken [] h = tt
All-weaken (s ∷ ss) (h, hs) = (h.1, All-weaken ss hs)

expand_names-IsNotPreset :
    (presets : PresetRegistry) (names : List Str)
    → IsRegistry presets
    → AllOk (All IsNotPreset) (expand_names presets names)
unfolding expand_names
expand_names-IsNotPreset presets [] v = tt
expand_names-IsNotPreset presets (name ∷ names) v = elim (Option-cases (get name presets)) [
  | inl e ↦ ground arith
  | inr (segments, e) ↦ elim (Result-cases (expand_names presets names)) [
    | inl (more, e') ↦
        let here : All IsPlainSegment segments = ground (arith, get-All name presets v) in
        let later : All IsNotPreset more =
          ground (arith, expand_names-IsNotPreset presets names v) in
        ground (arith, All-append IsNotPreset segments more (All-weaken segments here) later)
    | inr (x, e') ↦ ground arith
  ]
]

expand_segments-IsNotPreset :
    (presets : PresetRegistry) (allowed : AllowedOptions) (segs : List Str)
    → IsRegistry presets
    → AllOk (All IsNotPreset) (expand_segments presets allowed segs)
unfolding expand_segments
expand_segments-IsNotPreset presets allowed [] v = tt
expand_segments-IsNotPreset presets allowed (s ∷ segs) v =
    >>=-AllOk_any (All IsNotPreset) (guard (is_allowed (code_of s) allowed) _) _ (λ _.
      >>=-AllOk (All IsNotPreset) (All IsNotPreset)
        (if eqb (code_of s) (codes "pr") then expand_names presets (args_of s) else ok (s ∷ [])) _
        (ground
          (arith, expand_names-IsNotPreset presets (args_of s) v, eqb_iff (code_of s) (codes "pr")))
        (λ here h.
          >>=-AllOk (All IsNotPreset) (All IsNotPreset) (expand_segments presets allowed segs) _
            (expand_segments-IsNotPreset presets allowed segs v)
            (λ more k. All-append IsNotPreset here more h k)))

expand_segments_plain :
    (presets : PresetRegistry) (segs : List Str)
    → All IsNotPreset segs
    → expand_segments presets none segs ≡ ok segs
unfolding expand_segments is_allowed
expand_segments_plain presets [] h = refl
expand_segments_plain presets (s ∷ segs) (h, hs) =
    ground (arith, expand_segments_plain presets segs hs, eqb_iff (code_of s) (codes "pr"))

-- Presets are written out in one pass: what remains holds no preset code, and writing it out again,
-- under any registry, changes nothing.
pub expand_segments_once :
    (presets other : PresetRegistry) (allowed : AllowedOptions) (segs out : List Str)
    → IsRegistry presets
    → expand_segments presets allowed segs ≡ ok out
    → All IsNotPreset out × (expand_segments other none out ≡ ok out)
expand_segments_once presets other allowed segs out v e =
    let h =
      AllOk_of_ok (All IsNotPreset) _ out (expand_segments-IsNotPreset presets allowed segs v) e in
    (h, expand_segments_plain other out h)

-- A segment that the scan takes for an option, and that is no preset reference.
abbrev pub IsOptionSegment : Str → Type 0
IsOptionSegment s = (starts_source s ≡ false) × IsNotPreset s

module _ (fl : Floats) (codecs : Codecs) where
  -- A request is accepted only if the deployment allows the code of every option segment that the
  -- caller wrote, preset references included.
  pub parse_with_config-allowed :
      (presets : PresetRegistry) (allowed : AllowedOptions) (r : SignedRequest)
      (p : ParsedRequest fl codecs)
      → parse_with_config fl codecs presets allowed r ≡ ok p
      → All
          (λ s. is_allowed (code_of s) allowed ≡ true)
          (take (source_index r.remainder_segments) r.remainder_segments)
  unfolding parse_with_config
  parse_with_config-allowed presets allowed r p e =
      let segs = take (source_index r.remainder_segments) r.remainder_segments in
      let (out, expanded, _) = >>=-eq-ok (expand_segments presets allowed segs) _ e in
      AllOk_of_ok _ _ out (expand_segments-allowed presets allowed segs) expanded

  source_index-append :
      (opts : List Str) (s : Str) (source : List Str)
      → All (IsOptionSegment) opts
      → starts_source s ≡ true
      → source_index (opts ++ s ∷ source) ≡ length opts
  unfolding source_index
  source_index-append [] s source h k = ground arith
  source_index-append (o ∷ opts) s source (h, hs) k =
      ground (arith, source_index-append opts s source hs k)

  All-IsNotPreset : (opts : List Str) → All IsOptionSegment opts → All IsNotPreset opts
  All-IsNotPreset [] h = tt
  All-IsNotPreset (o ∷ opts) (h, hs) = (h.1, All-IsNotPreset opts hs)

  -- Option segments followed by a source are parsed apart: the options by the options' parser, the
  -- rest by the source's, and the first error wins.
  pub parse_request_built :
      (r : SignedRequest) (opts source : List Str) (s : Str)
      → All IsOptionSegment opts
      → starts_source s ≡ true
      → r.remainder_segments ≡ opts ++ s ∷ source
      → parse_request fl codecs r ≡ (do
        options ← parse_options fl codecs opts
        spec ← parse_source codecs (s ∷ source)
        ok (record { options = options; source = spec }))
  unfolding parse_with_config default_preset get
  parse_request_built r opts source s h k e =
      let cut = source_index-append opts s source h k in
      let whole = expand_segments_plain empty_registry opts (All-IsNotPreset opts h) in
      simp
        (e, cut, take-length-append opts (s ∷ source), drop-length-append opts (s ∷ source), whole)
