-- ===== src/Vault/Kms.antt =====
-- The key providers (backend/internal/service/kms_provider.go): the interface KMSProvider, the local one
-- that wraps a key by XOR with a digest, and the remote one that is not there yet.
use Prim.Native.Nat.{bit_xor}
use bonipam.Common.{
  ℕ, zero, suc, ◌%◌, ◌≡◌, String, ◌==◌, [], ◌∷◌, Result, ok, err, ltb, nat_eq, if◌then◌else◌,
}
use bonipam.Common.Lists.{length}
use bonipam.Go.Text.{trim_space, to_lower}
use bonipam.Vault.Types.{
  Bytes, KmsAdapterInfo, KmsError, master_key_required, master_key_short, dek_empty,
  wrapped_key_empty, not_implemented,
}

pub record KmsProvider : Type 0 where
  pub wrap_key : Bytes → Result KmsError Bytes
  pub unwrap_key : Bytes → Result KmsError Bytes
  pub describe : KmsAdapterInfo

-- What the vault relies on: a wrapped key can be unwrapped.
pub record Unwraps (kms : KmsProvider) : Type 0 where
  pub unwrap_key-wrap_key :
      (dek wrapped : Bytes) → kms.wrap_key dek ≡ ok wrapped → kms.unwrap_key wrapped ≡ ok dek

-- `[]byte(text)` and sha256.Sum256.
pub record Digest : Type 0 where
  pub bytes_of : String → Bytes
  pub sum256 : Bytes → Bytes

pub record LocalKmsProvider : Type 0 where
  pub master_key : Bytes
  pub kek_version : String
  pub key_id : String

unfoldable pub new_local_kms_provider : Digest → String → Result KmsError LocalKmsProvider
new_local_kms_provider digest key =
    let trimmed = trim_space key in
    if trimmed == ""
    then err master_key_required
    else if ltb (length (digest.bytes_of trimmed)) 16
    then err master_key_short
    else ok (record {
      master_key = digest.bytes_of trimmed;
      kek_version = "v1";
      key_id = "local-kek-v1";
    })

-- kek[i]; the index is below the length of the array.
unfoldable pub byte_at : Bytes → ℕ → ℕ
byte_at [] i = 0
byte_at (b ∷ bs) zero = b
byte_at (b ∷ bs) (suc i) = byte_at bs i

-- The loop of WrapKey and of UnwrapKey, from the index `i`.
unfoldable pub xor_bytes : Bytes → ℕ → Bytes → Bytes
xor_bytes kek i [] = []
xor_bytes kek i (b ∷ bs) = bit_xor b (byte_at kek (i % length kek)) ∷ xor_bytes kek (suc i) bs

module _ (digest : Digest) (p : LocalKmsProvider) where
  unfoldable pub local_wrap_key : Bytes → Result KmsError Bytes
  local_wrap_key dek =
      if nat_eq (length dek) 0
      then err dek_empty
      else ok (xor_bytes (digest.sum256 p.master_key) 0 dek)

  unfoldable pub local_unwrap_key : Bytes → Result KmsError Bytes
  local_unwrap_key wrapped =
      if nat_eq (length wrapped) 0
      then err wrapped_key_empty
      else ok (xor_bytes (digest.sum256 p.master_key) 0 wrapped)

  unfoldable pub local_describe : KmsAdapterInfo
  local_describe = record {
    provider = "local";
    key_id = p.key_id;
    kek_version = p.kek_version;
    endpoint = "";
  }

  abbrev pub local_kms : KmsProvider
  local_kms = record {
    wrap_key = local_wrap_key;
    unwrap_key = local_unwrap_key;
    describe = local_describe;
  }

pub record RemoteKmsProvider : Type 0 where
  pub provider : String
  pub endpoint : String
  pub key_id : String

unfoldable pub new_remote_kms_provider : String → String → String → RemoteKmsProvider
new_remote_kms_provider provider endpoint key_id = record {
  provider = to_lower (trim_space provider);
  endpoint = trim_space endpoint;
  key_id = trim_space key_id;
}

unfoldable pub remote_kms : RemoteKmsProvider → KmsProvider
remote_kms p = record {
  wrap_key = λ dek. err (not_implemented p.provider);
  unwrap_key = λ wrapped. err (not_implemented p.provider);
  describe = record {
    provider = p.provider;
    key_id = p.key_id;
    kek_version = "n/a";
    endpoint = p.endpoint;
  };
}
