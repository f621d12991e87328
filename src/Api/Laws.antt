-- ===== src/Api/Laws.antt =====
-- Lemmas on the handler of a signed path.
use image_resizer.Prelude.{
  Bool-cases, err, false, inl, inr, ok, refl, some, true, ◌++◌, ◌≡◌, ◌≢◌, ◌⊎◌,
}
use image_resizer.Text.{codes, eqb, eqb_iff, ne_of_eqb}
use image_resizer.Api.{invalid_signature, no_signing_key, unsigned_refused, verify_or_reject}
use image_resizer.Api.Errors.{AppError, status_code}
use image_resizer.Signing.{Crypto, SigningConfig, enabled, verify_signature}
use image_resizer.Url.Request.{SignedRequest}
use image_resizer.Signing.Laws.{verify_signature_iff}

-- What lets a request through: the escape, if it is on, or a signature that decodes to the code of
-- the salt and the signed path under the configured key.
pub data Authorized (crypto : Crypto) (signing : SigningConfig) (signed : SignedRequest)
    : Type 0 where
  by_escape :
      signed.signature_segment ≡ codes "unsigned"
      → signing.allow_unsigned ≡ true
      → Authorized crypto signing signed
  by_signature :
      signed.signature_segment ≢ codes "unsigned"
      → enabled signing ≡ true
      → crypto.base64_decode signed.signature_segment
        ≡ some (crypto.hmac_sha256 signing.key (signing.salt ++ signed.signed_path))
      → Authorized crypto signing signed

module _ (crypto : Crypto) where
  -- The outcome that the check should have.
  abbrev Checks : SigningConfig → SignedRequest → Type 0
  Checks signing signed =
      (Authorized crypto signing signed × (verify_or_reject crypto signing signed ≡ ok tt))
      ⊎ ((¬ Authorized crypto signing signed)
          × (why : AppError) × (status_code why ≡ 403)
          × (verify_or_reject crypto signing signed ≡ err why))

  Checks-escape :
      (signing : SigningConfig) (signed : SignedRequest)
      → eqb signed.signature_segment (codes "unsigned") ≡ true
      → Checks signing signed
  unfolding verify_or_reject status_code
  Checks-escape signing signed h =
      let same = (eqb_iff signed.signature_segment (codes "unsigned")).0 h in
      elim (Bool-cases signing.allow_unsigned) [
        | inl allowed ↦ inl (by_escape same allowed, rw h (rw allowed refl))
        | inr refused ↦ inr (
          λ a. elim a [ by_escape _ on ↦ cc | by_signature apart _ _ ↦ apart same ],
          unsigned_refused,
          refl,
          rw h (rw refused refl),
        )
      ]

  Checks-signature :
      (signing : SigningConfig) (signed : SignedRequest)
      → eqb signed.signature_segment (codes "unsigned") ≡ false
      → Checks signing signed
  unfolding verify_or_reject status_code
  Checks-signature signing signed h =
      let apart = ne_of_eqb signed.signature_segment (codes "unsigned") h in
      let valid =
        verify_signature_iff crypto signing.key signing.salt signed.signed_path
          signed.signature_segment in
      elim (Bool-cases (enabled signing)) [
        | inr off ↦ inr (
          λ a. elim a [ by_escape same _ ↦ apart same | by_signature _ on _ ↦ cc ],
          no_signing_key,
          refl,
          rw h (rw off refl),
        )
        | inl on ↦
            elim (Bool-cases (
              verify_signature crypto signing.key signing.salt signed.signed_path
                signed.signature_segment)) [
                  | inl good ↦
                      inl (by_signature apart on (valid.0 good), rw h (rw on (rw good refl)))
                  | inr bad ↦ inr (
                    λ a. elim a [
                      | by_escape same _ ↦ apart same
                      | by_signature _ _ decodes ↦ cc (valid.1 decodes)
                    ],
                    invalid_signature,
                    refl,
                    rw h (rw on (rw bad refl)),
                  )
                ]
      ]

  -- The check passes exactly for the authorized requests, and all others are answered with 403.
  pub verify_or_reject-Checks :
      (signing : SigningConfig) (signed : SignedRequest) → Checks signing signed
  verify_or_reject-Checks signing signed =
      elim (Bool-cases (eqb signed.signature_segment (codes "unsigned"))) [
        | inl h ↦ Checks-escape signing signed h
        | inr h ↦ Checks-signature signing signed h
      ]

  pub Authorized-passes :
      (signing : SigningConfig) (signed : SignedRequest)
      → Authorized crypto signing signed
      → verify_or_reject crypto signing signed ≡ ok tt
  Authorized-passes signing signed a = elim (verify_or_reject-Checks signing signed) [
    | inl (_, passes) ↦ passes
    | inr (apart, _, _, _) ↦ absurd (apart a)
  ]
