-- ===== src/Avif/BoxLaws.antt =====
-- Lemmas on the box walk of avif_meta.rs, over boxes that are encoded here.
use image_resizer.Prelude.{
  All, List, Option-cases, [], ap, append_assoc, arith, drop, drop-length-append, inl, inr, length,
  length-append, refl, some, suc, take, take-length-append, zero, ℕ, ◌%◌, ◌++◌, ◌+◌, ◌-◌, ◌/◌, ◌<◌,
  ◌^◌, ◌∙◌, ◌∷◌, ◌≡◌, ◌≢◌, ◌≤◌,
}
use image_resizer.Cache.{be32}
use image_resizer.Text.{Str}
use image_resizer.Avif.Boxes.{
  box_size, content_of, max_nesting_depth, raw_header, read_box_header, walk_boxes, walk_loop,
}
use image_resizer.Avif.Cursor.{
  Cursor, Read, after, from_be, pure, read_bytes, read_u32, run, value_read, ◌>>=◌,
}

pub record Box : Type 0 where
  pub box_type : Str
  pub content : Str

-- The type has four bytes, and the size fits the 32-bit field.
abbrev pub IsBox : Box → Type 0
IsBox b = (length b.box_type ≡ 4) × (8 + length b.content < 2 ^ 32)

-- The size, the type and the content.
unfoldable pub encode_box : Box → Str
encode_box b = be32 (8 + length b.content) ++ (b.box_type ++ b.content)

unfoldable pub encode_boxes : List Box → Str
unfolding encode_box
encode_boxes [] = []
encode_boxes (b ∷ bs) = encode_box b ++ encode_boxes bs

unfoldable pub visit_all : {S : Type 0} → (Str → Str → S → S) → List Box → S → S
visit_all visit [] s = s
visit_all visit (b ∷ bs) s = visit_all visit bs (visit b.box_type b.content s)

four_bytes :
    (t : Str) → length t ≡ 4 → (a : ℕ) × (b : ℕ) × (c : ℕ) × (d : ℕ) × (t ≡ a ∷ b ∷ c ∷ d ∷ [])
four_bytes [] h = absurd (omega arith)
four_bytes (a ∷ []) h = absurd (omega arith)
four_bytes (a ∷ b ∷ []) h = absurd (omega arith)
four_bytes (a ∷ b ∷ c ∷ []) h = absurd (omega arith)
four_bytes (a ∷ b ∷ c ∷ d ∷ []) h = (a, b, c, d, refl)
four_bytes (a ∷ b ∷ c ∷ d ∷ e ∷ t) h = absurd (omega arith)

from_be-be32 : (n : ℕ) → n < 2 ^ 32 → from_be 0 (be32 n) ≡ n
unfolding from_be be32
from_be-be32 n h = omega arith

-- The first and the second four bytes.
read_first :
    (p q r t : ℕ) (tail : Str)
    → read_bytes 4 (record { bytes = p ∷ q ∷ r ∷ t ∷ tail; pos = 0 })
      ≡ some (p ∷ q ∷ r ∷ t ∷ [], record { bytes = p ∷ q ∷ r ∷ t ∷ tail; pos = 4 })
unfolding read_bytes
read_first p q r t tail = ground arith

read_second :
    (p q r t a b c d : ℕ) (tail : Str)
    → read_bytes 4 (record { bytes = p ∷ q ∷ r ∷ t ∷ a ∷ b ∷ c ∷ d ∷ tail; pos = 4 })
      ≡ some (a ∷ b ∷ c ∷ d ∷ [], record { bytes = p ∷ q ∷ r ∷ t ∷ a ∷ b ∷ c ∷ d ∷ tail; pos = 8 })
unfolding read_bytes
read_second p q r t a b c d tail = ground arith

-- A chain whose first read succeeds goes on from there.
bind-some :
    {A B : Type 0} (m : Read A) (k : A → Read B) (c c' : Cursor) (x : A)
    → m c ≡ some (x, c')
    → (m >>= k) c ≡ k x c'
bind-some m k c c' x e = ap (λ o. after o k) e

run-some :
    {A : Type 0} (m : Read A) (bytes : Str) (x : A) (c : Cursor)
    → m (record { bytes = bytes; pos = 0 }) ≡ some (x, c)
    → run m bytes ≡ some x
run-some m bytes x c e = ap value_read e

raw_header_explicit :
    (n available a b c d : ℕ) (tail : Str)
    → 8 ≤ n
    → n < 2 ^ 32
    → run (raw_header available) (be32 n ++ (a ∷ b ∷ c ∷ d ∷ tail))
      ≡ some (a ∷ b ∷ c ∷ d ∷ [], 8, n)
unfolding be32
raw_header_explicit n available a b c d tail low high =
    let bytes = be32 n ++ (a ∷ b ∷ c ∷ d ∷ tail) in
    let at : ℕ → Cursor = λ pos. record { bytes = bytes; pos = pos } in
    let first =
      read_first (n / 2 ^ 24 % 256) (n / 2 ^ 16 % 256) (n / 2 ^ 8 % 256) (n % 256)
        (a ∷ b ∷ c ∷ d ∷ tail) in
    let second =
      read_second (n / 2 ^ 24 % 256) (n / 2 ^ 16 % 256) (n / 2 ^ 8 % 256) (n % 256) a b c d tail in
    let size : read_u32 (at 0) ≡ some (n, at 4) =
      bind-some (read_bytes 4) (λ slice. pure (from_be 0 slice)) (at 0) (at 4) (be32 n) first
      ∙ ap (λ m. some (m, at 4)) (from_be-be32 n high) in
    let known : box_size available n (at 8) ≡ some ((8, n), at 8) = ground arith in
    let chain : raw_header available (at 0) ≡ some ((a ∷ b ∷ c ∷ d ∷ [], 8, n), at 8) =
      bind-some read_u32 _ (at 0) (at 4) n size
      ∙ bind-some (read_bytes 4) _ (at 4) (at 8) (a ∷ b ∷ c ∷ d ∷ []) second
      ∙ bind-some (box_size available n) _ (at 8) (at 8) (8, n) known in
    run-some (raw_header available) bytes (a ∷ b ∷ c ∷ d ∷ [], 8, n) (at 8) chain

read_box_header_explicit :
    (n a b c d : ℕ) (tail : Str)
    → 8 ≤ n
    → n < 2 ^ 32
    → n ≤ 8 + length tail
    → read_box_header (be32 n ++ (a ∷ b ∷ c ∷ d ∷ tail)) ≡ some (a ∷ b ∷ c ∷ d ∷ [], 8, n)
unfolding read_box_header
read_box_header_explicit n a b c d tail low high fits =
    let bytes = be32 n ++ (a ∷ b ∷ c ∷ d ∷ tail) in
    let size : length bytes ≡ 8 + length tail = unfold be32 in omega arith in
    ground (arith, raw_header_explicit n (length bytes) a b c d tail low high)

-- A header that is read lies in the bytes, and a box is at least as long as its header.
pub read_box_header-bounds :
    (bytes box_type : Str) (header_len total_size : ℕ)
    → read_box_header bytes ≡ some (box_type, header_len, total_size)
    → (header_len ≤ total_size) × (total_size ≤ length bytes)
unfolding read_box_header
read_box_header-bounds bytes box_type header_len total_size e =
    elim (Option-cases (run (raw_header (length bytes)) bytes)) [
      | inl none_there ↦ ground arith
      | inr (header, there) ↦ ground arith
    ]

read_box_header_lem :
    (b : Box) (rest : Str)
    → IsBox b
    → read_box_header (encode_box b ++ rest) ≡ some (b.box_type, 8, 8 + length b.content)
unfolding encode_box
read_box_header_lem b rest (four, small) =
    let (x, y, z, w, e) = four_bytes b.box_type four in
    let found =
      read_box_header_explicit (8 + length b.content) x y z w (b.content ++ rest) (omega arith)
        small (omega (arith, length-append b.content rest)) in
    cc (
      append_assoc (be32 (8 + length b.content)) (b.box_type ++ b.content) rest,
      append_assoc b.box_type b.content rest,
    )

drop_eight :
    (n a b c d e f g h : ℕ) (t : Str) → drop (8 + n) (a ∷ b ∷ c ∷ d ∷ e ∷ f ∷ g ∷ h ∷ t) ≡ drop n t
drop_eight n a b c d e f g h t =
    let count : 8 + n ≡ suc (suc (suc (suc (suc (suc (suc (suc n))))))) = omega arith in
    ap (λ m. drop m (a ∷ b ∷ c ∷ d ∷ e ∷ f ∷ g ∷ h ∷ t)) count

drop-encoded :
    (b : Box) (rest : Str)
    → length b.box_type ≡ 4
    → drop (8 + length b.content) (encode_box b ++ rest) ≡ rest
unfolding encode_box be32
drop-encoded b rest four =
    let (x, y, z, w, e) = four_bytes b.box_type four in
    rw e (
      drop_eight (length b.content) _ _ _ _ x y z w (b.content ++ rest)
      ∙ drop-length-append b.content rest)

content-encoded :
    (b : Box) (rest : Str)
    → length b.box_type ≡ 4
    → content_of 8 (8 + length b.content) (encode_box b ++ rest) ≡ b.content
unfolding encode_box be32
content-encoded b rest four =
    let (x, y, z, w, e) = four_bytes b.box_type four in
    let tail : take (length b.content) (b.content ++ rest) ≡ b.content =
      take-length-append b.content rest in
    let size : 8 + length b.content - 8 ≡ length b.content = omega arith in cc

walk_loop_step :
    {S : Type 0} (visit : Str → Str → S → S) (bytes t : Str) (h n budget : ℕ) (s : S)
    → bytes ≢ []
    → read_box_header bytes ≡ some (t, h, n)
    → walk_loop visit bytes (suc budget) s
      ≡ walk_loop visit (drop n bytes) budget (visit t (content_of h n bytes) s)
unfolding walk_loop
walk_loop_step visit [] t h n budget s ne e = absurd (ne refl)
walk_loop_step visit (c ∷ bytes) t h n budget s ne e = cc

encoded-ne-nil : (b : Box) (rest : Str) → encode_box b ++ rest ≢ []
unfolding encode_box be32
encoded-ne-nil b rest e = cc

walk_loop-encode_boxes :
    {S : Type 0} (visit : Str → Str → S → S) (bs : List Box) (budget : ℕ) (s : S)
    → All IsBox bs
    → length bs ≤ budget
    → walk_loop visit (encode_boxes bs) budget s ≡ (visit_all visit bs s, budget - length bs)
unfolding walk_loop encode_boxes visit_all
walk_loop-encode_boxes visit [] budget s h k = ap (λ n. (s, n)) (omega arith)
walk_loop-encode_boxes visit (b ∷ bs) zero s h k = absurd (omega arith)
walk_loop-encode_boxes visit (b ∷ bs) (suc budget) s (h, hs) k =
    let rest = encode_boxes bs in
    let left : budget - length bs ≡ suc budget - length (b ∷ bs) = omega arith in
    walk_loop_step visit (encode_box b ++ rest) b.box_type 8 (8 + length b.content) budget s
      (encoded-ne-nil b rest) (read_box_header_lem b rest h)
    ∙ cc (
      left,
      drop-encoded b rest h.0,
      content-encoded b rest h.0,
      walk_loop-encode_boxes visit bs budget (visit b.box_type b.content s) hs (omega arith),
    )

-- A container that holds well-formed boxes, no more of them than the budget and not too deep, is
-- walked in full: the visitor sees each box once, in order, and each costs one unit of the budget.
pub walk_boxes-encode_boxes :
    {S : Type 0} (visit : Str → Str → S → S) (bs : List Box) (depth budget : ℕ) (s : S)
    → All IsBox bs
    → depth ≤ max_nesting_depth
    → length bs ≤ budget
    → walk_boxes visit (encode_boxes bs) depth budget s ≡ (visit_all visit bs s, budget - length bs)
unfolding walk_boxes
walk_boxes-encode_boxes visit bs depth budget s h d k =
    ground (arith, walk_loop-encode_boxes visit bs budget s h k)
