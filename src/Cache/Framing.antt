-- ===== src/Cache/Framing.antt =====
-- Lemmas on the length prefix of `update_field`.
use image_resizer.Prelude.{
  All, List, [], append-nil, append_assoc, arith, length, refl, sym, ℕ, ◌%◌, ◌++◌, ◌/◌, ◌<◌, ◌^◌,
  ◌∙◌, ◌∷◌, ◌≡◌,
}
use image_resizer.Text.{Str}
use image_resizer.Cache.{be32, update_field, update_fields}

-- The fields with their lengths in front.
frame : List Str → List ℕ
frame [] = []
frame (f ∷ fs) = be32 (length f % 2 ^ 32) ++ (f ++ frame fs)

update_fields-frame :
    (hasher : List ℕ) (fs : List Str) → update_fields hasher fs ≡ hasher ++ frame fs
unfolding update_fields update_field frame
update_fields-frame hasher [] = sym (append-nil hasher)
update_fields-frame hasher (f ∷ fs) =
    update_fields-frame (update_field hasher f) fs ∙ simp append_assoc

-- Two texts of one length at the front of equal lists are equal.
append-cancel :
    (f g : Str) (xs ys : List ℕ) → length f ≡ length g → f ++ xs ≡ g ++ ys → (f ≡ g) × (xs ≡ ys)
append-cancel [] [] xs ys h e = (refl, e)
append-cancel [] (y ∷ g) xs ys h e = absurd (omega arith)
append-cancel (x ∷ f) [] xs ys h e = absurd (omega arith)
append-cancel (x ∷ f) (y ∷ g) xs ys h e =
    let tails : f ++ xs ≡ g ++ ys = cc in
    let (same, rest) = append-cancel f g xs ys (omega arith) tails in (cc, rest)

be32-cancel :
    (n m : ℕ) (xs ys : List ℕ)
    → n < 2 ^ 32
    → m < 2 ^ 32
    → be32 n ++ xs ≡ be32 m ++ ys
    → (n ≡ m) × (xs ≡ ys)
unfolding be32
be32-cancel n m xs ys hn hm e =
    let a : n / 2 ^ 24 % 256 ≡ m / 2 ^ 24 % 256 = cc in
    let b : n / 2 ^ 16 % 256 ≡ m / 2 ^ 16 % 256 = cc in
    let c : n / 2 ^ 8 % 256 ≡ m / 2 ^ 8 % 256 = cc in
    let d : n % 256 ≡ m % 256 = cc in let tails : xs ≡ ys = cc in (omega arith, tails)

abbrev pub IsShort : Str → Type 0
IsShort s = length s < 2 ^ 32

frame-injective :
    (fs gs : List Str) → All IsShort fs → All IsShort gs → frame fs ≡ frame gs → fs ≡ gs
unfolding frame
frame-injective [] [] h k e = refl
frame-injective [] (g ∷ gs) h k e = unfold be32 in cc e
frame-injective (f ∷ fs) [] h k e = unfold be32 in cc e
frame-injective (f ∷ fs) (g ∷ gs) (h, hs) (k, ks) e =
    let (lengths, bodies) =
      be32-cancel (length f % 2 ^ 32) (length g % 2 ^ 32) (f ++ frame fs) (g ++ frame gs)
        (omega arith) (omega arith) e in
    let (same, rest) = append-cancel f g (frame fs) (frame gs) (omega arith) bodies in
    let tails = frame-injective fs gs hs ks rest in cc

pub update_fields-injective :
    (v : ℕ) (fs gs : List Str)
    → All IsShort fs
    → All IsShort gs
    → update_fields (v ∷ []) fs ≡ update_fields (v ∷ []) gs
    → fs ≡ gs
update_fields-injective v fs gs h k e =
    let framed : v ∷ frame fs ≡ v ∷ frame gs =
      sym (update_fields-frame (v ∷ []) fs) ∙ (e ∙ update_fields-frame (v ∷ []) gs) in
    frame-injective fs gs h k cc
