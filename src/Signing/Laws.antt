-- ===== src/Signing/Laws.antt =====
-- Lemmas on signing: the hexadecimal keys of the environment, and signatures.
use image_resizer.Text.Split.{contains}
use image_resizer.Prelude.{
  >>=-eq-ok, All, Bool, Bool-cases, List, Option, Option-cases, [], ap, arith, false, guard-eq-ok,
  if◌then◌else◌, inl, inr, length, ltb, none, ok, refl, some, sym, true, ℕ, ◌%◌, ◌*◌, ◌++◌, ◌+◌,
  ◌-◌, ◌/◌, ◌<◌, ◌==◌, ◌↔◌, ◌∙◌, ◌∷◌, ◌≡◌, ◌≢◌, ◌⊎◌,
}
use image_resizer.Text.{Str, eqb_iff}
use image_resizer.Signing.{
  Crypto, SigningConfig, SigningEnv, compute_signature, decode_hex_env, decode_pairs, enabled,
  from_env, hex_nibble, sign, signing_required, unsigned_or_false, verify_signature,
}

-- What the packages document: the codec is a round trip on an alphabet without `/`, 32 bytes are
-- encoded in 43 characters, and HMAC-SHA256 has 32 bytes.
pub record CryptoLaws (crypto : Crypto) : Type 0 where
  pub decode_encode : (b : List ℕ) → crypto.base64_decode (crypto.base64_encode b) ≡ some b
  pub encode_no_slash : (b : List ℕ) → contains b'/' (crypto.base64_encode b) ≡ false
  pub encode_length : (b : List ℕ) → length b ≡ 32 → length (crypto.base64_encode b) ≡ 43
  pub hmac_length : (k m : List ℕ) → length (crypto.hmac_sha256 k m) ≡ 32

-- Two lower-case digits for each byte.
abbrev pub hex_digit : ℕ → ℕ
hex_digit n = if ltb n 10 then b'0' + n else b'a' + (n - 10)

abbrev pub show_hex : List ℕ → Str
show_hex [] = []
show_hex (b ∷ bs) = hex_digit (b / 16) ∷ hex_digit (b % 16) ∷ show_hex bs

abbrev pub IsByte : ℕ → Type 0
IsByte b = b < 256

hex_nibble-hex_digit : (n : ℕ) → n < 16 → hex_nibble (hex_digit n) ≡ some n
unfolding hex_nibble
hex_nibble-hex_digit n h = ground arith

decode_pairs-show_hex : (bs : List ℕ) → All IsByte bs → decode_pairs (show_hex bs) ≡ ok bs
unfolding decode_pairs
decode_pairs-show_hex [] h = refl
decode_pairs-show_hex (b ∷ bs) (small, h) =
    let hi = hex_nibble-hex_digit (b / 16) (omega arith) in
    let lo = hex_nibble-hex_digit (b % 16) (omega arith) in
    let rest = decode_pairs-show_hex bs h in
    let whole : b / 16 * 16 + b % 16 ≡ b = omega arith in simp (hi, lo, rest, whole)

length-show_hex : (bs : List ℕ) → length (show_hex bs) ≡ 2 * length bs
length-show_hex [] = refl
length-show_hex (b ∷ bs) = omega (arith, length-show_hex bs)

decode_hex_env-show_hex :
    (bs : List ℕ) → All IsByte bs → decode_hex_env (some (show_hex bs)) ≡ ok bs
unfolding decode_hex_env
decode_hex_env-show_hex [] h = refl
decode_hex_env-show_hex (b ∷ bs) h =
    let even : (length (show_hex (b ∷ bs)) % 2 == 0) ≡ true =
      ground (arith, length-show_hex (b ∷ bs)) in
    simp (even, decode_pairs-show_hex (b ∷ bs) h)

-- A key and a salt that are not empty, written in hexadecimal, are read back.
pub from_env-show_hex :
    (key salt : List ℕ) (flag : Option Bool)
    → All IsByte key
    → All IsByte salt
    → key ≢ []
    → salt ≢ []
    → from_env (record {
      signing_key = some (show_hex key);
      signing_salt = some (show_hex salt);
      allow_unsigned_requests = flag;
    })
      ≡ ok (record { key = key; salt = salt; allow_unsigned = unsigned_or_false flag })
unfolding from_env enabled
from_env-show_hex [] salt flag hk hs k s = absurd (k refl)
from_env-show_hex (a ∷ key) [] flag hk hs k s = absurd (s refl)
from_env-show_hex (a ∷ key) (b ∷ salt) flag hk hs k s =
    let read_key = decode_hex_env-show_hex (a ∷ key) hk in
    let read_salt = decode_hex_env-show_hex (b ∷ salt) hs in rw read_key (rw read_salt refl)

unsigned-true : (flag : Option Bool) → unsigned_or_false flag ≡ true → flag ≡ some true
unsigned-true none h = cc
unsigned-true (some b) h = ap some h

-- A configuration that starts can check signatures, or the environment says to go without.
pub from_env-safe :
    (env : SigningEnv) (signing : SigningConfig)
    → from_env env ≡ ok signing
    → (enabled signing ≡ true) ⊎ (env.allow_unsigned_requests ≡ some true)
unfolding from_env enabled
from_env-safe env signing e =
    let (key, read_key, e1) = >>=-eq-ok (decode_hex_env env.signing_key) _ e in
    let (salt, read_salt, e2) = >>=-eq-ok (decode_hex_env env.signing_salt) _ e1 in
    let (started, e3) = guard-eq-ok _ signing_required (ok _) e2 in
    let here : SigningConfig = record {
      key = key;
      salt = salt;
      allow_unsigned = unsigned_or_false env.allow_unsigned_requests;
    } in
    let same : here ≡ signing = cc in
    elim (Bool-cases (enabled here)) [
      | inl can ↦ inl (ap enabled (sym same) ∙ can)
      | inr cannot ↦ inr (unsigned-true env.allow_unsigned_requests (rw cannot at started))
    ]

module _ (crypto : Crypto) where
  -- A signature is accepted exactly when it decodes to the code of the salt and the path under the key.
  pub verify_signature_iff :
      (key salt : List ℕ) (signed_path provided : Str)
      → (verify_signature crypto key salt signed_path provided ≡ true)
        ↔ (crypto.base64_decode provided ≡ some (crypto.hmac_sha256 key (salt ++ signed_path)))
  unfolding verify_signature compute_signature
  verify_signature_iff key salt signed_path provided =
      let code = crypto.hmac_sha256 key (salt ++ signed_path) in
      elim (Option-cases (crypto.base64_decode provided)) [
        | inl none_there ↦ ground (arith, none_there)
        | inr (bytes, found) ↦ ground (arith, found, eqb_iff bytes code)
      ]

  pub verify_signature-sign :
      CryptoLaws crypto
      → (key salt : List ℕ) (signed_path : Str)
      → verify_signature crypto key salt signed_path (sign crypto key salt signed_path) ≡ true
  unfolding sign compute_signature
  verify_signature-sign laws key salt signed_path =
      (verify_signature_iff key salt signed_path _).1 (laws.decode_encode _)
