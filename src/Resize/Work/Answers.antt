-- ===== src/Resize/Work/Answers.antt =====
-- What a request for a resize does to the storage and to the requests after it.
use image_resizer.Prelude.{
  Bool-cases, List, Option, Option-cases, Result, Result-cases, any, ap, arith, err, false,
  if◌then◌else◌, inl, inr, none, ok, refl, some, subst, sym, true, ℕ, ◌∙◌, ◌≡◌, ◌≢◌, ◌⊎◌,
}
use image_resizer.Prelude.Floats.{Floats}
use image_resizer.Text.{Str, eqb, eqb_iff}
use image_resizer.Models.Formats.{ImageFormat}
use image_resizer.Models.Query.{ResizeQuery}
use image_resizer.SourceGuard.{IpNet}
use image_resizer.SourceGuard.Allowlist.{UrlCrate}
use image_resizer.Image.Geometry.{ImageCrate}
use image_resizer.Image.Pipeline.{PixelWork}
use image_resizer.Storage.Backend.{
  StorageError, Entries, Entry, find, has_expired, image_not_found, in_memory, insert, memory_check,
  memory_get, memory_upload,
}
use image_resizer.Storage.Backend.Refinement.{find-insert}
use image_resizer.Storage.KeyValidation.{is_control, validate_cache_key}
use image_resizer.Storage.KeyValidation.Generated.{IsHexDigest, validate-generate_key}
use image_resizer.Storage.Service.{
  get_cdn_url, service_check_cache, service_get_image, service_upload_with_ttl,
}
use image_resizer.Resize.Work.{
  ImageService, WorkError, after_cache_check, do_resize_work, download, key_of, produce, resize,
  upload_result,
}

-- The check of a key and the reading of it agree.
memory_check-get :
    (now : ℕ) (key : Str) (s : Entries)
    → ((memory_check now key s ≡ true) × (bytes : List ℕ) × (memory_get now key s ≡ ok bytes))
      ⊎ ((memory_check now key s ≡ false) × (memory_get now key s ≡ err (image_not_found key)))
unfolding memory_check memory_get
memory_check-get now key s = elim (Option-cases (find key s)) [
  | inl absent ↦ inr (ground (arith, absent), ground (arith, absent))
  | inr (e, present) ↦ elim (Bool-cases (has_expired now e.expires_at)) [
    | inl late ↦ inr (ground (arith, present, late), ground (arith, present, late))
    | inr fresh ↦ inl (ground (arith, present, fresh), e.bytes, ground (arith, present, fresh))
  ]
]

-- What reading makes of an entry.
reading : ℕ → Str → Option Entry → Result StorageError (List ℕ)
reading now key none = err (image_not_found key)
reading now key (some e) =
    if has_expired now e.expires_at then err (image_not_found key) else ok e.bytes

memory_get-reading :
    (now : ℕ) (key : Str) (s : Entries) → memory_get now key s ≡ reading now key (find key s)
unfolding memory_get reading
memory_get-reading now key s = elim (Option-cases (find key s)) [
  | inl absent ↦ ground (arith, absent)
  | inr (e, present) ↦ ground (arith, present)
]

-- An upload without an expiry is read at every time, and changes what no other key gives.
get-memory_upload :
    (checked_add : ℕ → ℕ → Option ℕ) (now later : ℕ) (key other content_type : Str) (bytes : List ℕ)
    (s : Entries)
    → memory_get later other (memory_upload checked_add now key content_type bytes none s)
      ≡ (if eqb key other then ok bytes else memory_get later other s)
unfolding memory_upload reading has_expired
get-memory_upload checked_add now later key other content_type bytes s =
    let e : Entry = record { content_type = content_type; bytes = bytes; expires_at = none } in
    ground (
      arith,
      memory_get-reading later other (insert key e s),
      memory_get-reading later other s,
      find-insert checked_add key other key e s,
    )

eqb-ne : (j k : Str) → j ≢ k → eqb j k ≡ false
eqb-ne j k apart = elim (Bool-cases (eqb j k)) [
  | inl same ↦ absurd (apart ((eqb_iff j k).0 same))
  | inr differ ↦ differ
]

module _ (fl : Floats) (im : ImageCrate) (work : PixelWork fl im) (net : IpNet) (crate : UrlCrate)
    (checked_add : ℕ → ℕ → Option ℕ) (cdn_base_url sub_path : Str) (sha256_hex : List ℕ → Str)
    (digest : IsHexDigest sha256_hex) (clean : any is_control sub_path ≡ false) where
  -- The service with the in-memory backend of the tests, keys that never expire, and one sub-path for
  -- the keys and the storage.
  abbrev serve :
      ImageService fl im work net crate
      → ℕ
      → ResizeQuery fl
      → Entries
      → Entries × Result WorkError Str
  serve =
      resize fl im work net crate (in_memory checked_add) cdn_base_url sub_path sub_path none
        sha256_hex

  abbrev key : ResizeQuery fl → Str
  key params =
      key_of fl im work net crate (in_memory checked_add) cdn_base_url sub_path sub_path none
        sha256_hex params

  pub data Answers (i : ImageService fl im work net crate) (now : ℕ) (params : ResizeQuery fl)
      (s : Entries) : Entries × Result WorkError Str → Type 0 where
    hit :
        (bytes : List ℕ)
        → memory_get now (key params) s ≡ ok bytes
        → Answers i now params s (s, ok (get_cdn_url cdn_base_url (key params)))
    made :
        (bytes : List ℕ) (content_type : Str) (after : Entries)
        → memory_get now (key params) s ≡ err (image_not_found (key params))
        → produce fl im work net crate i params ≡ ok (bytes, content_type)
        → ((later : ℕ) → memory_get later (key params) after ≡ ok bytes)
        → ((other : Str) (later : ℕ)
            → key params ≢ other
            → memory_get later other after ≡ memory_get later other s)
        → Answers i now params s (after, ok (get_cdn_url cdn_base_url (key params)))
    failed :
        (e : WorkError)
        → memory_get now (key params) s ≡ err (image_not_found (key params))
        → produce fl im work net crate i params ≡ err e
        → Answers i now params s (s, err e)

  key_valid :
      (params : ResizeQuery fl)
      → params.format ≢ ImageFormat.auto
      → validate_cache_key (key params) sub_path ≡ ok tt
  key_valid params stored =
      (validate-generate_key fl sha256_hex digest sub_path params clean).1 stored

  serve_hit :
      (i : ImageService fl im work net crate) (now : ℕ) (params : ResizeQuery fl) (s : Entries)
      → params.format ≢ ImageFormat.auto
      → memory_check now (key params) s ≡ true
      → serve i now params s ≡ (s, ok (get_cdn_url cdn_base_url (key params)))
  unfolding resize after_cache_check service_check_cache
  serve_hit i now params s stored cached = rw (key_valid params stored) (rw cached refl)

  -- The state and the answer behind the work.
  abbrev written :
      ℕ
      → ResizeQuery fl
      → Entries
      → Result WorkError (List ℕ × Str)
      → Entries × Result WorkError Str
  written now params s (err e) = (s, err e)
  written now params s (ok (bytes, content_type)) = (
    memory_upload checked_add now (key params) content_type bytes none s,
    ok (get_cdn_url cdn_base_url (key params)),
  )

  upload_result-written :
      (now : ℕ) (params : ResizeQuery fl) (s : Entries) (made_of : Result WorkError (List ℕ × Str))
      → params.format ≢ ImageFormat.auto
      → upload_result fl im work net crate
          (in_memory checked_add)
          cdn_base_url
          sub_path
          sub_path
          none
          sha256_hex
          now
          (key params)
          s
          made_of
        ≡ written now params s made_of
  unfolding service_upload_with_ttl
  upload_result-written now params s (err e) stored = refl
  upload_result-written now params s (ok made_of) stored = rw (key_valid params stored) refl

  serve_miss :
      (i : ImageService fl im work net crate) (now : ℕ) (params : ResizeQuery fl) (s : Entries)
      → params.format ≢ ImageFormat.auto
      → memory_check now (key params) s ≡ false
      → serve i now params s ≡ written now params s (produce fl im work net crate i params)
  unfolding resize after_cache_check service_check_cache do_resize_work
  serve_miss i now params s stored missed = rw (key_valid params stored) (
      rw missed (upload_result-written now params s (produce fl im work net crate i params) stored))

  made_lem :
      (i : ImageService fl im work net crate) (now : ℕ) (params : ResizeQuery fl) (s : Entries)
      (bytes : List ℕ) (content_type : Str)
      → memory_get now (key params) s ≡ err (image_not_found (key params))
      → produce fl im work net crate i params ≡ ok (bytes, content_type)
      → Answers i now params s (written now params s (ok (bytes, content_type)))
  made_lem i now params s bytes content_type missed made_of =
      let k = key params in
      made bytes content_type _ missed made_of
        (λ later.
          get-memory_upload checked_add now later k k content_type bytes s
          ∙ rw ((eqb_iff k k).1 refl) refl)
        (λ other later apart.
          get-memory_upload checked_add now later k other content_type bytes s
          ∙ rw (eqb-ne k other apart) refl)

  -- For a query whose format is settled, a request that meets no other one, over the in-memory backend
  -- that the program has for its tests, with one sub-path
  -- without control bytes for keys and storage, a digest of 64 hexadecimal digits, and no expiry,
  -- has one of three answers: the location of bytes that the storage holds, with the storage left as
  -- it was; the location of the bytes that the download and the processing give, which the storage
  -- then gives at every time, while every other key reads as before; or the error of the download or
  -- the processing, with the storage left as it was. The last two happen only if the storage has
  -- nothing for the key.
  pub resize-Answers :
      (i : ImageService fl im work net crate) (now : ℕ) (params : ResizeQuery fl) (s : Entries)
      → params.format ≢ ImageFormat.auto
      → Answers i now params s (serve i now params s)
  resize-Answers i now params s stored = elim (memory_check-get now (key params) s) [
    | inl (cached, bytes, reads) ↦
        subst (Answers i now params s) (sym (serve_hit i now params s stored cached))
          (hit bytes reads)
    | inr (missed, absent) ↦ elim (Result-cases (produce fl im work net crate i params)) [
      | inl ((bytes, content_type), e) ↦
          subst (Answers i now params s)
            (sym (serve_miss i now params s stored missed ∙ ap (written now params s) e))
            (made_lem i now params s bytes content_type absent e)
      | inr (why, e) ↦
          subst (Answers i now params s)
            (sym (serve_miss i now params s stored missed ∙ ap (written now params s) e))
            (failed why absent e)
    ]
  ]

  url_of :
      {s after : Entries} {u url : Str}
      → ◌≡◌ {A = Entries × Result WorkError Str} (s, ok u) (after, ok url)
      → url ≡ u
  url_of {u} {url} e =
      let same : ◌≡◌ {A = Result WorkError Str} (ok u) (ok url) = ap (λ p. p.1) e in cc

  -- What a location that was answered stands for.
  Answers-ok :
      (i : ImageService fl im work net crate) (now : ℕ) (params : ResizeQuery fl)
      (s after : Entries) (url : Str) {r : Entries × Result WorkError Str}
      → Answers i now params s r
      → r ≡ (after, ok url)
      → (url ≡ get_cdn_url cdn_base_url (key params))
        × (bytes : List ℕ) × (memory_get now (key params) after ≡ ok bytes)
  Answers-ok i now params s after url (hit bytes reads) e = (
    url_of e,
    bytes,
    subst (λ u. memory_get now (key params) u ≡ ok bytes) (ap (λ p. p.0) e) reads,
  )
  Answers-ok i now params s after url (made bytes content_type next missed made_of reads others) e =
      (
        url_of e,
        bytes,
        subst (λ u. memory_get now (key params) u ≡ ok bytes) (ap (λ p. p.0) e) (reads now),
      )
  Answers-ok i now params s after url (failed why missed made_of) e =
      let clash : ◌≡◌ {A = Result WorkError Str} (err why) (ok url) = ap (λ p. p.1) e in cc

  check_of_get :
      (now : ℕ) (k : Str) (s : Entries) (bytes : List ℕ)
      → memory_get now k s ≡ ok bytes
      → memory_check now k s ≡ true
  check_of_get now k s bytes reads = elim (memory_check-get now k s) [
    | inl (cached, _, _) ↦ cached
    | inr (_, absent) ↦
        let clash : ◌≡◌ {A = Result StorageError (List ℕ)} (ok bytes) (err (image_not_found k)) =
          cc in
        cc
  ]

  -- Under the same conditions, a request that was answered with a location leaves a storage in which
  -- the same query at the same time, whatever its networks and its permits are, has the same answer
  -- and changes nothing, and from which the file endpoint reads the key.
  pub resize-again :
      (i j : ImageService fl im work net crate) (now : ℕ) (params : ResizeQuery fl)
      (s after : Entries) (url : Str)
      → params.format ≢ ImageFormat.auto
      → serve i now params s ≡ (after, ok url)
      → (serve j now params after ≡ (after, ok url))
        × (bytes : List ℕ) × (download (in_memory checked_add) sub_path now (key params) after
            ≡ ok bytes)
  unfolding download service_get_image
  resize-again i j now params s after url stored e =
      let (is_url, bytes, reads) =
        Answers-ok i now params s after url (resize-Answers i now params s stored) e in
      (
        rw is_url
            (serve_hit j now params after stored (check_of_get now (key params) after bytes reads)),
        bytes,
        rw (key_valid params stored) reads,
      )
