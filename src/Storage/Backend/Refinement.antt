-- ===== src/Storage/Backend/Refinement.antt =====
-- The in-memory backend behind the storage service, against a specification that looks only at the
-- history of the calls.
use image_resizer.Prelude.{
  Bool-cases, List, Option, Option-cases, Result, Result-cases, [], ap, arith, err, false,
  if◌then◌else◌, inl, inr, is_some, none, ok, ok_or, refl, some, ℕ, ◌∙◌, ◌∷◌, ◌≡◌,
}
use image_resizer.Text.{Str, eqb, eqb_iff}
use image_resizer.Storage.Backend.{
  Entries, Entry, StorageError, expiry, find, has_expired, image_not_found, in_memory, insert,
  memory_check, memory_get, memory_upload, remove,
}
use image_resizer.Storage.Service.{
  service_check_cache, service_delete, service_get_image, service_upload_with_ttl,
}
use image_resizer.Storage.KeyValidation.{validate_cache_key}

-- A call that changes the state. A history lists the newest call first.
pub data Call : Type 0 where
  upload : ℕ → Str → Str → List ℕ → Option ℕ → Call
  purge : Str → Call

-- What the history says of a key: the bytes and the expiry of the last upload, unless it was purged
-- since.
unfoldable pub newest : (ℕ → ℕ → Option ℕ) → Str → List Call → Option (List ℕ × Option ℕ)
newest checked_add key [] = none
newest checked_add key (upload now k content_type content ttl ∷ earlier) =
    if eqb k key then some (content, expiry checked_add now ttl) else newest checked_add key earlier
newest checked_add key (purge k ∷ earlier) =
    if eqb k key then none else newest checked_add key earlier

-- What a reader should see at this time.
unfoldable pub live : ℕ → Option (List ℕ × Option ℕ) → Option (List ℕ)
live now none = none
live now (some (content, expires_at)) = if has_expired now expires_at then none else some content

-- A failed call leaves the state.
abbrev pub or_same : {A : Type 0} → Result StorageError A → A → A
or_same (ok s) old = s
or_same (err e) old = old

module _ (checked_add : ℕ → ℕ → Option ℕ) (key_prefix : Str) where
  abbrev step : Call → Entries → Entries
  step (upload now key content_type content ttl) s =
      or_same
        (service_upload_with_ttl (in_memory checked_add) key_prefix now key content_type content ttl
          s)
        s
  step (purge key) s = or_same (service_delete (in_memory checked_add) key_prefix key s) s

  abbrev pub run_calls : List Call → Entries
  run_calls [] = []
  run_calls (c ∷ earlier) = step c (run_calls earlier)

  pub find-remove :
      (key k : Str) (es : Entries)
      → find key (remove k es) ≡ (if eqb k key then none else find key es)
  unfolding find remove
  find-remove key k [] = ground arith
  find-remove key k ((j, e) ∷ es) =
      ground (arith, find-remove key k es, eqb_iff j k, eqb_iff k key, eqb_iff j key)

  pub find-insert :
      (key k : Str) (e : Entry) (es : Entries)
      → find key (insert k e es) ≡ (if eqb k key then some e else find key es)
  unfolding find insert
  find-insert key k e es = ground (arith, find-remove key k es)

  -- The entry of a key in the map.
  abbrev seen : Option Entry → Option (List ℕ × Option ℕ)
  seen none = none
  seen (some e) = some (e.bytes, e.expires_at)

  -- A key that fails the check is not one that passes it.
  refused-ne :
      (key k why : Str)
      → validate_cache_key key key_prefix ≡ ok tt
      → validate_cache_key k key_prefix ≡ err why
      → eqb k key ≡ false
  refused-ne key k why valid refused = elim (Bool-cases (eqb k key)) [
    | inr apart ↦ apart
    | inl same ↦ let equal : k ≡ key = (eqb_iff k key).0 same in absurd cc (equal, valid, refused)
  ]

  step_upload :
      (key : Str) (now : ℕ) (k content_type : Str) (content : List ℕ) (ttl : Option ℕ) (s : Entries)
      → validate_cache_key key key_prefix ≡ ok tt
      → seen (find key (step (upload now k content_type content ttl) s))
        ≡ (if eqb k key then some (content, expiry checked_add now ttl) else seen (find key s))
  unfolding service_upload_with_ttl memory_upload
  step_upload key now k content_type content ttl s valid =
      elim (Result-cases (validate_cache_key k key_prefix)) [
        | inl (_, passes) ↦ ground (
          arith,
          passes,
          find-insert key k
              (record {
                content_type = content_type;
                bytes = content;
                expires_at = expiry checked_add now ttl;
              })
              s,
        )
        | inr (why, refused) ↦ ground (arith, refused, refused-ne key k why valid refused)
      ]

  step_purge :
      (key k : Str) (s : Entries)
      → validate_cache_key key key_prefix ≡ ok tt
      → seen (find key (step (purge k) s)) ≡ (if eqb k key then none else seen (find key s))
  unfolding service_delete
  step_purge key k s valid = elim (Result-cases (validate_cache_key k key_prefix)) [
    | inl (_, passes) ↦ ground (arith, passes, find-remove key k s)
    | inr (why, refused) ↦ ground (arith, refused, refused-ne key k why valid refused)
  ]

  -- The map holds what the history says, for every key that passes the check.
  find-newest :
      (key : Str) (history : List Call)
      → validate_cache_key key key_prefix ≡ ok tt
      → seen (find key (run_calls history)) ≡ newest checked_add key history
  unfolding newest
  find-newest key [] valid = unfold find in refl
  find-newest key (upload now k content_type content ttl ∷ earlier) valid =
      step_upload key now k content_type content ttl (run_calls earlier) valid
      ∙ ap (λ rest. if eqb k key then some (content, expiry checked_add now ttl) else rest)
          (find-newest key earlier valid)
  find-newest key (purge k ∷ earlier) valid =
      step_purge key k (run_calls earlier) valid
      ∙ ap (λ rest. if eqb k key then none else rest) (find-newest key earlier valid)

  reads_live :
      (now : ℕ) (key : Str) (s : Entries)
      → (memory_get now key s ≡ ok_or (live now (seen (find key s))) (image_not_found key))
        × (memory_check now key s ≡ is_some (live now (seen (find key s))))
  unfolding memory_get memory_check live
  reads_live now key s = elim (Option-cases (find key s)) [
    | inl absent ↦ ground (arith, absent)
    | inr (e, present) ↦ ground (arith, present)
  ]

  -- Behind the service, for every key that passes the check and after every history of uploads and
  -- purges with any keys, the in-memory backend answers what the history says: the bytes of the last
  -- upload of the key if it was not purged since and has not expired, and "not found" otherwise.
  pub service-newest :
      (now : ℕ) (key : Str) (history : List Call)
      → validate_cache_key key key_prefix ≡ ok tt
      → (service_get_image (in_memory checked_add) key_prefix now key (run_calls history)
          ≡ ok_or (live now (newest checked_add key history)) (image_not_found key))
        × (service_check_cache (in_memory checked_add) key_prefix now key (run_calls history)
            ≡ ok (is_some (live now (newest checked_add key history))))
  unfolding service_get_image service_check_cache
  service-newest now key history valid =
      let (gets, checks) = reads_live now key (run_calls history) in
      let holds = find-newest key history valid in
      (
        rw valid (gets ∙ ap (λ o. ok_or (live now o) (image_not_found key)) holds),
        rw valid (ap ok (checks ∙ ap (λ o. is_some (live now o)) holds)),
      )
