-- ===== src/Storage/Backend.antt =====
-- src/services/storage/core.rs: the operations of a storage backend as an interface, with the time as
-- an argument; and src/services/storage/in_memory_handler.rs, which implements them and is compiled
-- for tests only.
pub mod Refinement
use image_resizer.Prelude.{
  Bool, List, Option, Result, [], err, false, if◌then◌else◌, leb, none, ok, some, true, ℕ, ◌∷◌,
}
use image_resizer.Text.{Str, eqb}

-- "Image not found", with the key, where an entry is absent or has expired.
pub data StorageError : Type 0 where
  image_not_found : Str → StorageError
  invalid_key : Str → StorageError

-- `StorageBackend`, for a state that the operations pass on.
pub record StorageBackend : Type 1 where
  pub State : Type 0
  pub upload_image_with_ttl : ℕ → Str → Str → List ℕ → Option ℕ → State → State
  pub check_cache : ℕ → Str → State → Bool
  pub get_image : ℕ → Str → State → Result StorageError (List ℕ)
  pub delete : Str → State → State

-- The provided method: no expiry.
abbrev pub upload_image :
    (b : StorageBackend) → ℕ → Str → Str → List ℕ → StorageBackend.State b → StorageBackend.State b
upload_image b now key content_type content =
    b.upload_image_with_ttl now key content_type content none

pub record Entry : Type 0 where
  pub content_type : Str
  pub bytes : List ℕ
  pub expires_at : Option ℕ

-- The hash map, as a list of keys and entries.
abbrev pub Entries : Type 0
Entries = List (Str × Entry)

unfoldable pub remove : Str → Entries → Entries
remove key [] = []
remove key ((k, e) ∷ es) = if eqb k key then remove key es else (k, e) ∷ remove key es

unfoldable pub insert : Str → Entry → Entries → Entries
unfolding remove
insert key e es = (key, e) ∷ remove key es

unfoldable pub find : Str → Entries → Option Entry
find key [] = none
find key ((k, e) ∷ es) = if eqb k key then some e else find key es

-- `Instant::now() >= *expires_at`, if there is an expiry.
unfoldable pub has_expired : ℕ → Option ℕ → Bool
has_expired now none = false
has_expired now (some at) = leb at now

-- `Instant::checked_add`, whose range the standard library leaves open, is a parameter.
module _ (checked_add : ℕ → ℕ → Option ℕ) where
  abbrev pub expiry : ℕ → Option ℕ → Option ℕ
  expiry now none = none
  expiry now (some ttl) = checked_add now ttl

  unfoldable pub memory_upload : ℕ → Str → Str → List ℕ → Option ℕ → Entries → Entries
  unfolding insert
  memory_upload now key content_type content ttl =
      insert key
        (record { content_type = content_type; bytes = content; expires_at = expiry now ttl })

unfoldable pub memory_check : ℕ → Str → Entries → Bool
unfolding find has_expired
memory_check now key es = elim (find key es) [
  | none ↦ false
  | some e ↦ if has_expired now e.expires_at then false else true
]

unfoldable pub memory_get : ℕ → Str → Entries → Result StorageError (List ℕ)
unfolding find has_expired
memory_get now key es = elim (find key es) [
  | none ↦ err (image_not_found key)
  | some e ↦ if has_expired now e.expires_at then err (image_not_found key) else ok e.bytes
]

abbrev pub in_memory : (ℕ → ℕ → Option ℕ) → StorageBackend
in_memory checked_add = record {
  State = Entries;
  upload_image_with_ttl = memory_upload checked_add;
  check_cache = memory_check;
  get_image = memory_get;
  delete = remove;
}
