-- ===== src/Signing.antt =====
-- src/modules/signing/config.rs and verify.rs: the signing key and salt from the environment, and
-- the signature of a path. HMAC-SHA256 and the codec `URL_SAFE_NO_PAD` of base64 are parameters.
pub mod Laws
use image_resizer.Prelude.{
  Bool, List, Option, Result, [], false, guard, if◌then◌else◌, leb, length, none, not, ok, ok_or,
  some, ℕ, ◌%◌, ◌&&◌, ◌*◌, ◌++◌, ◌+◌, ◌-◌, ◌==◌, ◌>>=◌, ◌>>◌, ◌||◌, ◌∷◌,
}
use image_resizer.Text.{Str, eqb, is_empty}

pub record SigningConfig : Type 0 where
  pub key : List ℕ
  pub salt : List ℕ
  pub allow_unsigned : Bool

-- The fields of `EnvConfig` that `from_env` reads.
pub record SigningEnv : Type 0 where
  pub signing_key : Option Str
  pub signing_salt : Option Str
  pub allow_unsigned_requests : Option Bool

pub data ConfigError : Type 0 where
  odd_length : ℕ → ConfigError
  non_hex : ℕ → ConfigError
  signing_required : ConfigError

unfoldable pub enabled : SigningConfig → Bool
enabled c = not (is_empty c.key) && not (is_empty c.salt)

unfoldable pub hex_nibble : ℕ → Option ℕ
hex_nibble b =
    if leb b'0' b && leb b b'9'
    then some (b - b'0')
    else if leb b'a' b && leb b b'f'
    then some (b - b'a' + 10)
    else if leb b'A' b && leb b b'F'
    then some (b - b'A' + 10)
    else none

-- The loop over the pairs of `chunks_exact(2)`. The halves of `(hi << 4) | lo` do not overlap.
unfoldable pub decode_pairs : Str → Result ConfigError (List ℕ)
unfolding hex_nibble
decode_pairs [] = ok []
decode_pairs (_ ∷ []) = ok []
decode_pairs (a ∷ b ∷ rest) = do
  hi ← ok_or (hex_nibble a) (non_hex a)
  lo ← ok_or (hex_nibble b) (non_hex b)
  bytes ← decode_pairs rest
  ok ((hi * 16 + lo) ∷ bytes)

unfoldable pub decode_hex_env : Option Str → Result ConfigError (List ℕ)
unfolding decode_pairs
decode_hex_env none = ok []
decode_hex_env (some raw) =
    if is_empty raw
    then ok []
    else guard (length raw % 2 == 0) (odd_length (length raw)) >> decode_pairs raw

abbrev pub unsigned_or_false : Option Bool → Bool
unsigned_or_false none = false
unsigned_or_false (some b) = b

unfoldable pub from_env : SigningEnv → Result ConfigError SigningConfig
unfolding decode_hex_env enabled
from_env config = do
  key ← decode_hex_env config.signing_key
  salt ← decode_hex_env config.signing_salt
  let signing : SigningConfig = record {
    key = key;
    salt = salt;
    allow_unsigned = unsigned_or_false config.allow_unsigned_requests;
  }
  guard (enabled signing || signing.allow_unsigned) signing_required
  ok signing

-- The packages hmac, sha2 and base64.
pub record Crypto : Type 0 where
  pub hmac_sha256 : List ℕ → List ℕ → List ℕ
  pub base64_encode : List ℕ → Str
  pub base64_decode : Str → Option (List ℕ)

module _ (crypto : Crypto) where
  open crypto use {hmac_sha256, base64_encode, base64_decode}

  unfoldable pub compute_signature : List ℕ → List ℕ → Str → List ℕ
  compute_signature key salt signed_path = hmac_sha256 key (salt ++ signed_path)

  -- `provided.len() != expected.len()`, then `ct_eq`, whose result is equality.
  unfoldable pub verify_signature : List ℕ → List ℕ → Str → Str → Bool
  unfolding compute_signature eqb
  verify_signature key salt signed_path provided_signature =
      elim (base64_decode provided_signature) [
        | none ↦ false
        | some provided ↦
            let expected = compute_signature key salt signed_path in
            if not (length provided == length expected) then false else eqb provided expected
      ]

  unfoldable pub sign : List ℕ → List ℕ → Str → Str
  unfolding compute_signature
  sign key salt signed_path = base64_encode (compute_signature key salt signed_path)
