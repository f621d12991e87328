-- ===== src/Url/Request/Path.antt =====
-- Lemmas on `split` of src/modules/url/mod.rs.
use image_resizer.Prelude.{
  All, Option-cases, [], ap, arith, inl, inr, ok, refl, subst, sym, ℕ, ◌++◌, ◌∷◌, ◌≡◌, ◌≢◌, ◌⊎◌,
}
use image_resizer.Text.{Str}
use image_resizer.Text.Split.{
  Lacks, join, join-split_on, split_on, split_on-Lacks, split_once, split_once-some, split_once_lem,
}
use image_resizer.Url.Request.{SignedRequest, split_request, without_slash}

-- How a split request lies in the raw path: an optional slash, the signature with no slash, and the
-- signed path, which is a slash and the remaining segments joined by slashes.
pub record IsSplit (raw : Str) (r : SignedRequest) : Type 0 where
  pub whole :
      (raw ≡ b'/' ∷ (r.signature_segment ++ r.signed_path))
      ⊎ (raw ≡ r.signature_segment ++ r.signed_path)
  pub signature : Lacks b'/' r.signature_segment
  pub signed : r.signed_path ≡ b'/' ∷ join b'/' r.remainder_segments
  pub segments : All (Lacks b'/') r.remainder_segments
  pub present : r.signed_path ≢ b'/' ∷ []

without_slash-cases : (raw : Str) → (raw ≡ b'/' ∷ without_slash raw) ⊎ (raw ≡ without_slash raw)
without_slash-cases [] = inr refl
without_slash-cases (c ∷ s) = ground arith

IsSplit-pieces :
    (raw sig rest : Str)
    → without_slash raw ≡ sig ++ (b'/' ∷ rest)
    → Lacks b'/' sig
    → rest ≢ []
    → IsSplit raw (record {
      signature_segment = sig;
      signed_path = b'/' ∷ rest;
      remainder_segments = split_on b'/' rest;
    })
IsSplit-pieces raw sig rest e h some_there = record {
  whole = ground (arith, without_slash-cases raw);
  signature = h;
  signed = ap (◌∷◌ b'/') (sym (join-split_on b'/' rest));
  segments = split_on-Lacks b'/' rest;
  present = λ same. some_there cc;
}

-- A path that splits is its signature and its signed path, and the segments that are parsed are
-- exactly the signed path cut at its slashes.
pub split_request-IsSplit :
    (raw : Str) (r : SignedRequest) → split_request raw ≡ ok r → IsSplit raw r
unfolding split_request
split_request-IsSplit raw r e = elim (Option-cases (split_once b'/' (without_slash raw))) [
  | inl none_there ↦ ground arith
  | inr ((sig, rest), found) ↦
      let (lies, lacks) = split_once-some b'/' (without_slash raw) sig rest found in
      let some_there : rest ≢ [] = λ gone. ground arith in
      let built : record {
        signature_segment = sig;
        signed_path = b'/' ∷ rest;
        remainder_segments = split_on b'/' rest;
      }
          ≡ r =
        ground arith in
      subst (IsSplit raw) built (IsSplit-pieces raw sig rest lies lacks some_there)
]

-- A signature with no slash and a remainder that is not empty split as written.
pub split_request_lem :
    (sig : Str) (c : ℕ) (rest : Str)
    → Lacks b'/' sig
    → split_request (b'/' ∷ (sig ++ (b'/' ∷ c ∷ rest)))
      ≡ ok (record {
        signature_segment = sig;
        signed_path = b'/' ∷ c ∷ rest;
        remainder_segments = split_on b'/' (c ∷ rest);
      })
unfolding split_request
split_request_lem sig c rest h = ground (arith, split_once_lem b'/' sig (c ∷ rest) h)
