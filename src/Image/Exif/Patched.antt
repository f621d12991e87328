-- ===== src/Image/Exif/Patched.antt =====
-- What the patch changes of an EXIF block.
use image_resizer.Prelude.{
  drop-length-append, take-length-append, map_option, leb, ◌-◌, Bool, Bool-cases, Option-cases, [],
  ap, arith, bind?, drop, false, inl, inr, length, length-append, ltb, refl, some, suc, sym, take,
  true, zero, ℕ, ◌&&◌, ◌*◌, ◌++◌, ◌+◌, ◌==◌, ◌∙◌, ◌∷◌, ◌≡◌, ◌≤◌,
}
use image_resizer.Text.{Str}
use image_resizer.Avif.Cursor.{from_be, get_range}
use image_resizer.Image.Exif.{
  byte_order, neutralize_exif_orientation, number_at, patch_entries, patch_entry, read_number,
  short_one,
}

split_two :
    (a : ℕ) (xs : Str)
    → a + 2 ≤ length xs
    → (x : ℕ) × (y : ℕ) × (xs ≡ take a xs ++ (x ∷ y ∷ drop (a + 2) xs)) × (length (take a xs) ≡ a)
split_two zero [] h = absurd (omega arith)
split_two zero (x ∷ []) h = absurd (omega arith)
split_two zero (x ∷ y ∷ xs) h = (x, y, refl, refl)
split_two (suc a) [] h = absurd (omega arith)
split_two (suc a) (c ∷ xs) h =
    let (x, y, whole, size) = split_two a xs (omega arith) in
    let shifted : suc a + 2 ≡ suc (a + 2) = omega arith in
    (
      x,
      y,
      ap (λ rest. c ∷ rest) whole
          ∙ ap (λ k. c ∷ (take a xs ++ (x ∷ y ∷ drop k (c ∷ xs)))) (sym shifted),
      omega arith,
    )

get_range-append :
    (before middle after : Str)
    → get_range (length before) (length before + length middle) (before ++ (middle ++ after))
      ≡ some middle
unfolding get_range
get_range-append before middle after =
    let starts : leb (length before) (length before + length middle) ≡ true = ground arith in
    let ends : leb (length before + length middle) (length (before ++ (middle ++ after))) ≡ true =
      ground (arith, length-append before (middle ++ after), length-append middle after) in
    let size : length before + length middle - length before ≡ length middle = omega arith in
    simp (starts, ends, size, drop-length-append, take-length-append)

reads_one : (l : Bool) → read_number l (short_one l) ≡ 1
unfolding from_be
reads_one true = refl
reads_one false = refl

-- The entry of the orientation: its tag, its type SHORT and its count 1, and the two bytes of its
-- value, which alone are replaced.
pub record IsPatched (little_endian : Bool) (exif out : Str) : Type 0 where
  pub entry : ℕ
  pub before : Str
  pub after : Str
  pub x : ℕ
  pub y : ℕ
  pub tag : number_at little_endian exif entry (entry + 2) ≡ some 0x0112
  pub field_type : number_at little_endian exif (entry + 2) (entry + 4) ≡ some 3
  pub count : number_at little_endian exif (entry + 4) (entry + 8) ≡ some 1
  pub place : length before ≡ entry + 8
  pub whole : exif ≡ before ++ (x ∷ y ∷ after)
  pub patched : out ≡ before ++ (short_one little_endian ++ after)

patch_entry-IsPatched :
    (little_endian : Bool) (exif out : Str) (entry : ℕ)
    → entry + 12 ≤ length exif
    → number_at little_endian exif entry (entry + 2) ≡ some 0x0112
    → patch_entry little_endian exif entry ≡ some out
    → IsPatched little_endian exif out
unfolding patch_entry
patch_entry-IsPatched little_endian exif out entry fits tagged e =
    elim (Option-cases (number_at little_endian exif (entry + 2) (entry + 4))) [
      | inl absent ↦ ground arith
      | inr (kind, is_kind) ↦
          elim (Option-cases (number_at little_endian exif (entry + 4) (entry + 8))) [
            | inl absent ↦ ground arith
            | inr (n, is_n) ↦
                let one_short : (kind == 3 && n == 1) ≡ true = ground arith in
                let made : take (entry + 8) exif
                      ++ (short_one little_endian ++ drop (entry + 10) exif)
                    ≡ out =
                  ground arith in
                let (x, y, whole, size) = split_two (entry + 8) exif (omega arith) in
                let ends : entry + 8 + 2 ≡ entry + 10 = omega arith in
                record {
                  entry = entry;
                  before = take (entry + 8) exif;
                  after = drop (entry + 10) exif;
                  x = x;
                  y = y;
                  tag = tagged;
                  field_type = is_kind ∙ ap some (ground arith);
                  count = is_n ∙ ap some (ground arith);
                  place = size;
                  whole = whole ∙ ap (λ k. take (entry + 8) exif ++ (x ∷ y ∷ drop k exif)) ends;
                  patched = sym made;
                }
          ]
    ]

patch_entries-IsPatched :
    (little_endian : Bool) (exif out : Str) (left entry : ℕ)
    → entry + left * 12 ≤ length exif
    → patch_entries little_endian exif left entry ≡ some out
    → IsPatched little_endian exif out
unfolding patch_entries
patch_entries-IsPatched little_endian exif out zero entry fits e = cc
patch_entries-IsPatched little_endian exif out (suc left) entry fits e =
    elim (Option-cases (number_at little_endian exif entry (entry + 2))) [
      | inl absent ↦ ground arith
      | inr (t, is_tag) ↦ elim (Bool-cases (t == 0x0112)) [
        | inl found ↦
            let tagged : number_at little_endian exif entry (entry + 2) ≡ some 0x0112 =
              is_tag ∙ ap some (ground arith) in
            patch_entry-IsPatched little_endian exif out entry (omega arith) tagged (ground arith)
        | inr other ↦
            patch_entries-IsPatched little_endian exif out left (entry + 12) (omega arith)
              (ground arith)
      ]
    ]

length_kept :
    {little_endian : Bool} {exif out : Str}
    → IsPatched little_endian exif out
    → length out ≡ length exif
length_kept {little_endian} {exif} {out} p = ap length p.patched ∙ same ∙ sym (ap length p.whole)
  where
    same :
        length (p.before ++ (short_one little_endian ++ p.after))
        ≡ length (p.before ++ (p.x ∷ p.y ∷ p.after))
    same = ground (
      arith,
      length-append p.before (short_one little_endian ++ p.after),
      length-append p.before (p.x ∷ p.y ∷ p.after),
    )

number_at-patched :
    {l : Bool} {exif out : Str} (p : IsPatched l exif out)
    → number_at l out (p.entry + 8) (p.entry + 10) ≡ some 1
number_at-patched {l} {exif} {out} p =
    let size : length (short_one l) ≡ 2 = elim (Bool-cases l) [
      | inl on ↦ ground (arith, on)
      | inr off ↦ ground (arith, off)
    ] in
    let until : length p.before + length (short_one l) ≡ p.entry + 10 = omega (arith, p.place) in
    let read : get_range (p.entry + 8) (p.entry + 10) out ≡ some (short_one l) =
      rw (← p.place, ← until, p.patched) (get_range-append p.before (short_one l) p.after) in
    ap (map_option (read_number l)) read ∙ ap some (reads_one l)

-- A patch that succeeds keeps the length of the block and replaces two bytes of it: the value of an
-- entry with the tag, the type and the count of an orientation. In the byte order that the block's
-- mark names, the value then reads 1.
pub neutralize-IsPatched :
    (exif out : Str)
    → neutralize_exif_orientation exif ≡ some out
    → (little_endian : Bool) × (bind? (get_range 0 2 exif) byte_order ≡ some little_endian)
      × (length out ≡ length exif)
      × (patched : IsPatched little_endian exif out) × (number_at little_endian out
            (patched.entry + 8)
            (patched.entry + 10)
          ≡ some 1)
unfolding neutralize_exif_orientation
neutralize-IsPatched exif out e = elim (Option-cases (bind? (get_range 0 2 exif) byte_order)) [
  | inl absent ↦ ground arith
  | inr (l, is_order) ↦ elim (Option-cases (number_at l exif 4 8)) [
    | inl absent ↦ ground arith
    | inr (offset, is_offset) ↦ elim (Option-cases (number_at l exif offset (offset + 2))) [
      | inl absent ↦ ground arith
      | inr (n, is_count) ↦
          let fits : ltb (length exif) (offset + 2 + n * 12) ≡ false = ground arith in
          let ran : patch_entries l exif n (offset + 2) ≡ some out = ground arith in
          let patched = patch_entries-IsPatched l exif out n (offset + 2) (ground arith) ran in
          (l, is_order, length_kept patched, patched, number_at-patched patched)
    ]
  ]
]
