-- ===== src/Vault/Envelope.antt =====
-- A stored secret can be read back (vault_service.go).
use Prim.Native.String.{◌++◌ as append}
use bonipam.Common.{
  String, ◌≡◌, Option, none, some, ◌==◌, arith, ok, Option-cases, Result-cases, inl, inr,
  if◌then◌else◌,
}
use bonipam.Go.Map.{put, get-put}
use bonipam.Go.Text.{trim_space}
use bonipam.Vault.Types.{Bytes, CreateSecretRequest, CreateSecretResponse, VaultService}
use bonipam.Vault.Kms.{KmsProvider, Unwraps}
use bonipam.Vault.Secrets.{
  Aead, Ciphers, SecretDraws, Envelope, seal_envelope, encrypt_with_envelope, open_envelope,
  decrypt_with_envelope, new_secret, insert_secret, store_secret, get_secret, secret_response,
  envelope_of,
}

-- What the vault relies on: the decoding of what was encoded, the text of a text's bytes, and an AEAD
-- that opens what it has sealed under the same key and nonce.
pub record IsSound (c : Ciphers) : Type 0 where
  pub decodes : (bs : Bytes) → c.decode_base64 (c.encode_base64 bs) ≡ some bs
  pub text_of-bytes_of : (s : String) → c.text_of (c.bytes_of s) ≡ s
  pub opens :
      (block : Bytes) (gcm : Aead) (nonce plaintext : Bytes)
      → c.new_gcm block ≡ some gcm
      → gcm.open_sealed nonce (gcm.seal nonce plaintext) ≡ some plaintext

module _ (c : Ciphers) (kms : KmsProvider) (sound : IsSound c) (unwraps : Unwraps kms) where
  decrypt-encrypt :
      (plaintext : Bytes) (dek nonce : Option Bytes) (e : Envelope)
      → encrypt_with_envelope c kms plaintext dek nonce ≡ ok e
      → decrypt_with_envelope c kms e ≡ ok plaintext
  unfolding encrypt_with_envelope seal_envelope decrypt_with_envelope open_envelope
  decrypt-encrypt plaintext none drawn e h = absurd (cc)
  decrypt-encrypt plaintext (some dek) none e h = absurd (ground arith)
  decrypt-encrypt plaintext (some dek) (some nonce) e h = elim (Option-cases (c.new_cipher dek)) [
    | inl failed ↦ absurd (ground arith)
    | inr (block, made) ↦ elim (Option-cases (c.new_gcm block)) [
      | inl failed ↦ absurd (ground arith)
      | inr (gcm, keyed) ↦ elim (Result-cases (kms.wrap_key dek)) [
        | inr (failure, refused) ↦ absurd (ground arith)
        | inl (wrapped, done) ↦ ground (
          arith,
          h,
          unwraps.unwrap_key-wrap_key dek wrapped done,
          sound.decodes wrapped,
          sound.decodes nonce,
          sound.decodes (gcm.seal nonce plaintext),
          sound.opens block gcm nonce plaintext keyed,
        )
      ]
    ]
  ]

  -- What is stored when StoreSecret succeeds.
  stored :
      (s : VaultService) (req : CreateSecretRequest) (draws : SecretDraws)
      (r : CreateSecretResponse)
      → (store_secret c kms s req draws).0 ≡ ok r
      → (e : Envelope) × (encrypt_with_envelope c kms
            (c.bytes_of (trim_space req.value))
            draws.dek
            draws.nonce
          ≡ ok e)
        × (r.id ≡ append "sec-" draws.id)
        × (store_secret c kms s req draws).1 ≡ record s {
          secrets =
              put s.secrets
                (append "sec-" draws.id)
                (new_secret c kms s (trim_space req.name) req.metadata e draws);
        }
  unfolding store_secret insert_secret new_secret
  stored s req draws r h =
      elim (Result-cases
        (encrypt_with_envelope c kms (c.bytes_of (trim_space req.value)) draws.dek draws.nonce)) [
          | inr (failure, failed) ↦ absurd (ground arith)
          | inl (e, done) ↦ (e, done, ground arith, ground arith)
        ]

  -- If StoreSecret succeeds, then GetSecret gives under the new id the trimmed name and the trimmed
  -- value of the request, with its metadata, and under any other id what it gave before, provided that
  -- what is encoded, sealed and wrapped can be decoded, opened and unwrapped.
  pub get_secret-store_secret :
      (s : VaultService) (req : CreateSecretRequest) (draws : SecretDraws)
      (r : CreateSecretResponse) (j : String)
      → (store_secret c kms s req draws).0 ≡ ok r
      → get_secret c kms (store_secret c kms s req draws).1 j ≡ (
          if r.id == j
          then ok (record {
            id = r.id;
            name = trim_space req.name;
            value = trim_space req.value;
            metadata = req.metadata;
            kek_version = s.kek_version;
            created_at = draws.now;
            updated_at = draws.now;
          })
          else get_secret c kms s j)
  unfolding get_secret secret_response envelope_of new_secret
  get_secret-store_secret s req draws r j h =
      let (e, done, id, after) = stored s req draws r h in
      let value = c.bytes_of (trim_space req.value) in
      rw (after, id)
        (ground (
          arith,
          decrypt-encrypt value draws.dek draws.nonce e done,
          sound.text_of-bytes_of (trim_space req.value),
          get-put s.secrets (append "sec-" draws.id) j
              (new_secret c kms s (trim_space req.name) req.metadata e draws),
        ))
