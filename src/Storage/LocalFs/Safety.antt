-- ===== src/Storage/LocalFs/Safety.antt =====
-- Where the path of a key leads.
use image_resizer.Prelude.{
  All, All-append, AllSome, Bool-cases, List, Option, Option-cases, [], all, arith, false, inl, inr,
  length, min, none, not, refl, some, subst, suc, take, true, zero, ℕ, ◌&&◌, ◌++◌, ◌∷◌, ◌≡◌, ◌≢◌,
  ◌≤◌,
}
use image_resizer.Text.{Str, eqb, is_empty}
use image_resizer.Storage.LocalFs.{
  PathBuf, empty_path, is_absolute, is_hex_digit, is_skipped, nonempty, path_of_parts, push,
  push_segments, relative_path, sanitize_relative, shard_prefix_len, sharded_path,
}
use image_resizer.Text.Split.{
  Lacks, contains, rsplit_once, rsplit_once-some, split_on, split_on-Lacks, split_on-ne-nil,
  split_on_of_Lacks,
}
use image_resizer.Storage.KeyValidation.{split_key}

-- A component that names an entry of its directory.
abbrev pub IsPlain : Str → Type 0
IsPlain s = is_skipped s ≡ false

-- The path stays below the directory that it is joined to.
pub record IsBelow (path : PathBuf) : Type 0 where
  pub relative : path.absolute ≡ false
  pub plain : All IsPlain path.components

IsBelow-empty : IsBelow empty_path
IsBelow-empty = record { relative = refl; plain = tt }

-- A piece without a slash that is pushed is one component.
push_plain :
    (path : PathBuf) (s : Str) → IsBelow path → Lacks b'/' s → IsPlain s → IsBelow (push path s)
unfolding push contains
push_plain path [] b lacks plain = cc
push_plain path (c ∷ s) b lacks plain =
    let one : split_on b'/' (c ∷ s) ≡ (c ∷ s) ∷ [] = split_on_of_Lacks b'/' (c ∷ s) lacks in
    let relative : is_absolute (c ∷ s) ≡ false = ground arith in
    rw relative (
      rw one (record {
        relative = b.relative;
        plain = All-append IsPlain path.components ((c ∷ s) ∷ []) b.plain (plain, tt);
      }))

push_segments-IsBelow :
    (path : PathBuf) (ss : List Str)
    → IsBelow path
    → All (Lacks b'/') ss
    → IsBelow (push_segments path ss)
unfolding push_segments
push_segments-IsBelow path [] b h = b
push_segments-IsBelow path (s ∷ ss) b (lacks, h) = elim (Bool-cases (is_skipped s)) [
  | inl skipped ↦ rw skipped (push_segments-IsBelow path ss b h)
  | inr plain ↦
      rw plain (push_segments-IsBelow (push path s) ss (push_plain path s b lacks plain) h)
]

sanitize_relative-IsBelow : (input : Str) → IsBelow (sanitize_relative input)
unfolding sanitize_relative
sanitize_relative-IsBelow input =
    push_segments-IsBelow empty_path (split_on b'/' input) IsBelow-empty (split_on-Lacks b'/' input)

List-cases : {A : Type 0} (xs : List A) → xs ≢ [] → (p : A) × (ps : List A) × (xs ≡ p ∷ ps)
List-cases [] h = absurd (h refl)
List-cases (p ∷ ps) h = (p, ps, refl)

-- A text that begins with another byte than a dot names an entry.
dotless_start : (c : ℕ) (s : Str) → c ≢ b'.' → IsPlain (c ∷ s)
unfolding eqb
dotless_start c s h = ground arith

nonempty-IsPlain : (ss : List Str) → All (Lacks b'.') ss → All IsPlain (nonempty ss)
unfolding contains
nonempty-IsPlain [] h = tt
nonempty-IsPlain ([] ∷ ss) (h, hs) = nonempty-IsPlain ss hs
nonempty-IsPlain ((c ∷ s) ∷ ss) (h, hs) = (dotless_start c s (ground arith), nonempty-IsPlain ss hs)

-- Pieces hold no byte that the whole lacks.
split_on-keeps_Lacks : (d b : ℕ) (s : Str) → Lacks d s → All (Lacks d) (split_on b s)
unfolding split_on contains
split_on-keeps_Lacks d b [] h = (refl, tt)
split_on-keeps_Lacks d b (c ∷ s) h = ground (arith, split_on-keeps_Lacks d b s)

-- What stands in front of a text goes to its first piece.
split_on-prefix :
    (b : ℕ) (a s p : Str) (ps : List Str)
    → Lacks b a
    → split_on b s ≡ p ∷ ps
    → split_on b (a ++ s) ≡ (a ++ p) ∷ ps
unfolding split_on contains
split_on-prefix b [] s p ps h e = e
split_on-prefix b (c ∷ a) s p ps h e = ground (arith, split_on-prefix b a s p ps)

hex_digits-Lacks : (s : Str) → all is_hex_digit s ≡ true → Lacks b'/' s
unfolding contains
hex_digits-Lacks [] h = refl
hex_digits-Lacks (c ∷ s) h = ground (arith, hex_digits-Lacks s)

hex_digits_take : (n : ℕ) (s : Str) → all is_hex_digit s ≡ true → all is_hex_digit (take n s) ≡ true
hex_digits_take zero s h = refl
hex_digits_take (suc n) [] h = refl
hex_digits_take (suc n) (c ∷ s) h = ground (arith, hex_digits_take n s)

split_on-cases : (b : ℕ) (s : Str) → (p : Str) × (ps : List Str) × (split_on b s ≡ p ∷ ps)
split_on-cases b s = List-cases (split_on b s) (split_on-ne-nil b s)

-- The file name that is pushed: its first piece begins with a digit of the hash, and the others hold
-- no dot, since the extension has none.
push_file :
    (path : PathBuf) (c : ℕ) (hash ext : Str)
    → IsBelow path
    → all is_hex_digit (c ∷ hash) ≡ true
    → Lacks b'.' ext
    → IsBelow (push path ((c ∷ hash) ++ (b'.' ∷ ext)))
unfolding push contains
push_file path c hash ext below hex dotless =
    let name = hash ++ (b'.' ∷ ext) in
    let (p, ps, cut) = split_on-cases b'/' ext in
    let later : All (Lacks b'.') (p ∷ ps) =
      subst (All (Lacks b'.')) cut (split_on-keeps_Lacks b'.' b'/' ext dotless) in
    let dotted : split_on b'/' (b'.' ∷ ext) ≡ (b'.' ∷ p) ∷ ps =
      split_on-prefix b'/' (b'.' ∷ []) ext p ps refl cut in
    let pieces : split_on b'/' (c ∷ name) ≡ (c ∷ (hash ++ (b'.' ∷ p))) ∷ ps =
      split_on-prefix b'/' (c ∷ hash) (b'.' ∷ ext) (b'.' ∷ p) ps (hex_digits-Lacks (c ∷ hash) hex)
        dotted in
    let relative : is_absolute (c ∷ name) ≡ false = ground arith in
    let start : c ≢ b'.' = λ same. ground arith in
    rw relative (
      rw pieces (record {
        relative = below.relative;
        plain =
            All-append IsPlain path.components _ below.plain
              (dotless_start c (hash ++ (b'.' ∷ p)) start, nonempty-IsPlain ps later.1);
      }))

-- The extension of a key that splits has no dot.
split_key-extension :
    (key prefix hash ext : Str) → split_key key ≡ some (prefix, hash, ext) → Lacks b'.' ext
unfolding split_key
split_key-extension key prefix hash ext e = elim (Option-cases (rsplit_once b'.' key)) [
  | inl none_there ↦ ground (arith, none_there)
  | inr ((before, tail), found) ↦
      ground (arith, found, (rsplit_once-some b'.' key before tail found).1)
]

push_shard :
    (path : PathBuf) (n c : ℕ) (hash : Str)
    → IsBelow path
    → 1 ≤ n
    → all is_hex_digit (c ∷ hash) ≡ true
    → IsBelow (push path (take n (c ∷ hash)))
push_shard path zero c hash below some_there hex = absurd (omega arith)
push_shard path (suc n) c hash below some_there hex =
    let start : c ≢ b'.' = λ same. ground arith in
    let shard_hex = hex_digits_take (suc n) (c ∷ hash) hex in
    push_plain path (c ∷ take n hash) below (hex_digits-Lacks (c ∷ take n hash) shard_hex)
      (dotless_start c (take n hash) start)

sharded_path-IsBelow :
    (prefix hash ext : Str)
    → is_empty hash ≡ false
    → all is_hex_digit hash ≡ true
    → Lacks b'.' ext
    → IsBelow (sharded_path prefix hash ext)
unfolding sharded_path
sharded_path-IsBelow prefix [] ext some_there hex dotless = cc
sharded_path-IsBelow prefix (c ∷ hash) ext some_there hex dotless =
    let n = min (length (c ∷ hash)) shard_prefix_len in
    let base = sanitize_relative prefix in
    push_file (push base (take n (c ∷ hash))) c hash ext
      (push_shard base n c hash (sanitize_relative-IsBelow prefix) (omega arith) hex) hex dotless

path_of_parts-IsBelow :
    (key : Str) (parts : Option (Str × Str × Str))
    → AllSome (λ p. Lacks b'.' p.2) parts
    → IsBelow (path_of_parts key parts)
unfolding path_of_parts
path_of_parts-IsBelow key none h = sanitize_relative-IsBelow key
path_of_parts-IsBelow key (some (prefix, hash, ext)) h =
    elim (Bool-cases (not (is_empty hash) && all is_hex_digit hash)) [
      | inl sharded ↦
          rw sharded (sharded_path-IsBelow prefix hash ext (ground arith) (ground arith) h)
      | inr flat ↦ rw flat (sanitize_relative-IsBelow key)
    ]

split_key-dotless : (key : Str) → AllSome (λ p. Lacks b'.' p.2) (split_key key)
split_key-dotless key = elim (Option-cases (split_key key)) [
  | inl e ↦ rw e tt
  | inr ((prefix, hash, ext), e) ↦ rw e (split_key-extension key prefix hash ext e)
]

-- Whatever the key, its path stays below the base directory: it is relative, and none of its
-- components is empty, "." or "..".
pub relative_path-IsBelow : (key : Str) → IsBelow (relative_path key)
unfolding relative_path
relative_path-IsBelow key = path_of_parts-IsBelow key (split_key key) (split_key-dotless key)
