-- ===== src/Vault/Secrets.antt =====
-- Secrets under envelope encryption (vault_service.go: StoreSecret, GetSecret, encryptWithEnvelope,
-- decryptWithEnvelope).
use Prim.Native.String.{◌++◌ as append}
use bonipam.Common.{String, ◌||◌, Option, none, some, [], ◌==◌, if◌then◌else◌, ltb, Result, ok, err}
use bonipam.Common.Lists.{length}
use bonipam.Go.Map.{Map, get, put, any_entry}
use bonipam.Go.Text.{trim_space, equal_fold}
use bonipam.Go.Time.{Time}
use bonipam.Vault.Types.{
  Bytes, SecretRecord, CreateSecretRequest, CreateSecretResponse, GetSecretResponse, KmsAdapterInfo,
  VaultError, vault_key_required, vault_key_short, kms_not_initialized, name_and_value_required,
  secret_name_exists, secret_not_found, data_key_failed, cipher_failed, gcm_failed, nonce_failed,
  wrap_failed, unwrap_failed, ciphertext_encoding, dek_encoding, nonce_encoding, decryption_failed,
  VaultService,
}
use bonipam.Vault.Kms.{KmsProvider, Digest, LocalKmsProvider, new_local_kms_provider}

-- A cipher.AEAD without associated data: Seal and Open, at a nonce and a text.
pub record Aead : Type 0 where
  pub seal : Bytes → Bytes → Bytes
  pub open_sealed : Bytes → Bytes → Option Bytes

-- `[]byte(text)` and `string(bytes)`, base64.StdEncoding, aes.NewCipher to the expanded key, and
-- cipher.NewGCM.
pub record Ciphers : Type 0 where
  pub bytes_of : String → Bytes
  pub text_of : Bytes → String
  pub encode_base64 : Bytes → String
  pub decode_base64 : String → Option Bytes
  pub new_cipher : Bytes → Option Bytes
  pub new_gcm : Bytes → Option Aead

-- What StoreSecret draws: the 32 bytes of a data key, the bytes of a nonce, each unless the generator
-- fails, a uuid and the time.
pub record SecretDraws : Type 0 where
  pub dek : Option Bytes
  pub nonce : Option Bytes
  pub id : String
  pub now : Time

-- NewVaultService, with the provider that it makes.
unfoldable pub new_vault_service :
    Digest → String → Result VaultError (LocalKmsProvider × VaultService)
new_vault_service digest master_key =
    let trimmed = trim_space master_key in
    if trimmed == ""
    then err vault_key_required
    else if ltb (length (digest.bytes_of trimmed)) 16
    then err vault_key_short
    else elim (new_local_kms_provider digest trimmed) [
      | err e ↦ err (kms_not_initialized e)
      | ok kms ↦
          ok (kms, record { secrets = []; leases = []; rotation_policies = []; kek_version = "v1" })
    ]

-- The base64 texts of an encrypted value.
pub record Envelope : Type 0 where
  pub ciphertext : String
  pub wrapped_dek : String
  pub nonce : String

module _ (c : Ciphers) (kms : KmsProvider) where
  unfoldable pub kms_info : KmsAdapterInfo
  kms_info = kms.describe

  -- The rest of encryptWithEnvelope once the data key has given a GCM.
  unfoldable pub seal_envelope : Bytes → Aead → Option Bytes → Bytes → Result VaultError Envelope
  seal_envelope dek gcm drawn plaintext = elim drawn [
    | none ↦ err nonce_failed
    | some nonce ↦
        let ciphertext = gcm.seal nonce plaintext in
        elim (kms.wrap_key dek) [
          | err e ↦ err (wrap_failed e)
          | ok wrapped ↦ ok (record {
            ciphertext = c.encode_base64 ciphertext;
            wrapped_dek = c.encode_base64 wrapped;
            nonce = c.encode_base64 nonce;
          })
        ]
  ]

  unfoldable pub encrypt_with_envelope :
      Bytes → Option Bytes → Option Bytes → Result VaultError Envelope
  encrypt_with_envelope plaintext drawn_dek drawn_nonce = elim drawn_dek [
    | none ↦ err data_key_failed
    | some dek ↦ elim (c.new_cipher dek) [
      | none ↦ err cipher_failed
      | some block ↦ elim (c.new_gcm block) [
        | none ↦ err gcm_failed
        | some gcm ↦ seal_envelope dek gcm drawn_nonce plaintext
      ]
    ]
  ]

  -- The rest of decryptWithEnvelope once the texts are decoded.
  unfoldable pub open_envelope : Bytes → Bytes → Bytes → Result VaultError Bytes
  open_envelope ciphertext wrapped_dek nonce = elim (kms.unwrap_key wrapped_dek) [
    | err e ↦ err (unwrap_failed e)
    | ok dek ↦ elim (c.new_cipher dek) [
      | none ↦ err cipher_failed
      | some block ↦ elim (c.new_gcm block) [
        | none ↦ err gcm_failed
        | some gcm ↦ elim (gcm.open_sealed nonce ciphertext) [
          | none ↦ err decryption_failed
          | some plaintext ↦ ok plaintext
        ]
      ]
    ]
  ]

  unfoldable pub decrypt_with_envelope : Envelope → Result VaultError Bytes
  decrypt_with_envelope e = elim (c.decode_base64 e.ciphertext) [
    | none ↦ err ciphertext_encoding
    | some ciphertext ↦ elim (c.decode_base64 e.wrapped_dek) [
      | none ↦ err dek_encoding
      | some wrapped_dek ↦ elim (c.decode_base64 e.nonce) [
        | none ↦ err nonce_encoding
        | some nonce ↦ open_envelope ciphertext wrapped_dek nonce
      ]
    ]
  ]

  -- The record that StoreSecret stores.
  unfoldable pub new_secret :
      VaultService → String → Map String → Envelope → SecretDraws → SecretRecord
  new_secret s name metadata e draws = record {
    id = append "sec-" draws.id;
    name = name;
    metadata = metadata;
    ciphertext = e.ciphertext;
    wrapped_dek = e.wrapped_dek;
    nonce = e.nonce;
    kek_version = s.kek_version;
    created_at = draws.now;
    updated_at = draws.now;
  }

  unfoldable pub insert_secret :
      VaultService → SecretRecord → Result VaultError CreateSecretResponse × VaultService
  insert_secret s entry =
      if any_entry (λ _ existing. equal_fold existing.name entry.name) s.secrets
      then (err secret_name_exists, s)
      else (
        ok (record {
          id = entry.id;
          name = entry.name;
          metadata = entry.metadata;
          kek_version = entry.kek_version;
          created_at = entry.created_at;
        }),
        record s { secrets = put s.secrets entry.id entry },
      )

  unfoldable pub store_secret :
      VaultService
      → CreateSecretRequest
      → SecretDraws
      → Result VaultError CreateSecretResponse × VaultService
  store_secret s req draws =
      let name = trim_space req.name in
      let value = trim_space req.value in
      if name == "" || value == ""
      then (err name_and_value_required, s)
      else elim (encrypt_with_envelope (c.bytes_of value) draws.dek draws.nonce) [
        | err e ↦ (err e, s)
        | ok e ↦ insert_secret s (new_secret s name req.metadata e draws)
      ]

  unfoldable pub secret_response : SecretRecord → Bytes → GetSecretResponse
  secret_response entry plaintext = record {
    id = entry.id;
    name = entry.name;
    value = c.text_of plaintext;
    metadata = entry.metadata;
    kek_version = entry.kek_version;
    created_at = entry.created_at;
    updated_at = entry.updated_at;
  }

  unfoldable pub envelope_of : SecretRecord → Envelope
  envelope_of entry = record {
    ciphertext = entry.ciphertext;
    wrapped_dek = entry.wrapped_dek;
    nonce = entry.nonce;
  }

  unfoldable pub get_secret : VaultService → String → Result VaultError GetSecretResponse
  get_secret s secret_id = elim (get s.secrets secret_id) [
    | none ↦ err secret_not_found
    | some entry ↦ elim (decrypt_with_envelope (envelope_of entry)) [
      | err e ↦ err e
      | ok plaintext ↦ ok (secret_response entry plaintext)
    ]
  ]
