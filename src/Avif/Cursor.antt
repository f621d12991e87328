-- ===== src/Avif/Cursor.antt =====
-- `Cursor` of src/services/image/avif_meta.rs: checked reads from a byte slice. A read that fails ends
-- the function that asked for it.
use image_resizer.Prelude.{
  Option, [], drop, if◌then◌else◌, leb, length, ltb, none, some, suc, take, zero, ℕ, ◌&&◌, ◌*◌, ◌+◌,
  ◌-◌, ◌∷◌,
}
use image_resizer.Text.{Str}

pub record Cursor : Type 0 where
  pub bytes : Str
  pub pos : ℕ

abbrev pub Read : Type 0 → Type 0
Read A = Cursor → Option (A × Cursor)

-- What follows a read.
abbrev pub after : {A B : Type 0} → Option (A × Cursor) → (A → Read B) → Option (B × Cursor)
after none k = none
after (some (a, c)) k = k a c

infixl 5 ◌>>=◌ ◌>>◌
abbrev pub ◌>>=◌ : {A B : Type 0} → Read A → (A → Read B) → Read B
(m >>= k) c = after (m c) k

abbrev pub ◌>>◌ : {B : Type 0} → Read (Unit {0}) → Read B → Read B
(m >> k) c = after (m c) (λ _. k)

abbrev pub pure : {A : Type 0} → A → Read A
pure a c = some (a, c)

abbrev pub fail : {A : Type 0} → Read A
fail c = none

-- `slice.get(a..b)`.
unfoldable pub get_range : ℕ → ℕ → Str → Option Str
get_range a b s = if leb a b && leb b (length s) then some (take (b - a) (drop a s)) else none

-- `slice.get(a..)`.
unfoldable pub get_from : ℕ → Str → Option Str
get_from a s = if leb a (length s) then some (drop a s) else none

abbrev pub remainder : Cursor → Str
remainder c = drop c.pos c.bytes

unfoldable pub read_bytes : ℕ → Read Str
unfolding get_range
read_bytes n c = elim (get_range c.pos (c.pos + n) c.bytes) [
  | none ↦ none
  | some slice ↦ some (slice, record c { pos = c.pos + n })
]

unfoldable pub skip : ℕ → Read (Unit {0})
skip n = do _ ← read_bytes n; pure tt

-- `from_be_bytes`, and the fold with shifts of `flags`.
unfoldable pub from_be : ℕ → Str → ℕ
from_be acc [] = acc
from_be acc (b ∷ bs) = from_be (acc * 256 + b) bs

abbrev pub read_be : ℕ → Read ℕ
read_be n = do slice ← read_bytes n; pure (from_be 0 slice)

abbrev pub read_u8 : Read ℕ
read_u8 = read_be 1

abbrev pub read_u16 : Read ℕ
read_u16 = read_be 2

abbrev pub read_u32 : Read ℕ
read_u32 = read_be 4

abbrev pub read_u64 : Read ℕ
read_u64 = read_be 8

-- `read_uint`: at most eight bytes.
unfoldable pub read_uint : ℕ → Read ℕ
read_uint zero = pure 0
read_uint (suc n) = if ltb 8 (suc n) then fail else read_be (suc n)

abbrev pub value_read : {A : Type 0} → Option (A × Cursor) → Option A
value_read none = none
value_read (some (a, _)) = some a

-- A function that starts a cursor of its own.
abbrev pub run : {A : Type 0} → Read A → Str → Option A
run m bytes = value_read (m (record { bytes = bytes; pos = 0 }))
