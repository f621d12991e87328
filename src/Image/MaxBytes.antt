-- ===== src/Image/MaxBytes.antt =====
-- `encode_with_max_bytes` of src/services/image/handler.rs. The encoder is a parameter.
pub mod Fits
use image_resizer.Prelude.{
  Bool, List, Result, if◌then◌else◌, leb, length, ltb, not, ok, suc, zero, ℕ, ◌&&◌, ◌+◌, ◌-◌, ◌/◌,
  ◌==◌, ◌>>=◌, ◌>>◌, ◌||◌,
}

abbrev pub max_bytes_search_attempts : ℕ
max_bytes_search_attempts = 6

module _ {E : Type 0} (max_bytes : ℕ) (encode_at : ℕ → Result E (List ℕ)) where
  abbrev pub within_budget : List ℕ → Bool
  within_budget bytes = leb (length bytes) max_bytes

  -- The smaller of two outputs, if none has fit yet.
  abbrev pub fallback : List ℕ → List ℕ → List ℕ
  fallback best candidate =
      if not (within_budget best) && ltb (length candidate) (length best) then candidate else best

  -- The loop, with the attempts that are left and `best`, `low` and `high`.
  unfoldable pub search : ℕ → List ℕ → ℕ → ℕ → Result E (List ℕ)
  search zero best low high = ok best
  search (suc attempts) best low high =
      let mid = low + (high - low) / 2 in
      if ltb high low then ok best else (do
        candidate ← encode_at mid
        if within_budget candidate
            then (if mid == 255 then ok candidate else search attempts candidate (mid + 1) high)
            else if mid == 0
            then ok (fallback best candidate)
            else search attempts (fallback best candidate) low (mid - 1))

  unfoldable pub encode_with_max_bytes : ℕ → Result E (List ℕ)
  unfolding search
  encode_with_max_bytes initial_quality = do
    first ← encode_at initial_quality
    if within_budget first || leb initial_quality 1
        then ok first
        else search max_bytes_search_attempts first 1 (initial_quality - 1)
