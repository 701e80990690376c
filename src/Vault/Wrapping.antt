-- ===== src/Vault/Wrapping.antt =====
-- What the local provider wraps, it unwraps (backend/internal/service/kms_provider.go).
use bonipam.Common.{ℕ, suc, ◌%◌, ◌≡◌, refl, ap, [], ◌∷◌, arith}
use bonipam.Common.Lists.{length}
use bonipam.Vault.Types.{Bytes}
use bonipam.Vault.Xor.{bit_xor_twice}
use bonipam.Vault.Kms.{
  Unwraps, Digest, LocalKmsProvider, byte_at, xor_bytes, local_wrap_key, local_unwrap_key,
  local_kms,
}

pub xor_bytes_twice : (kek : Bytes) (i : ℕ) (bs : Bytes) → xor_bytes kek i (xor_bytes kek i bs) ≡ bs
unfolding xor_bytes
xor_bytes_twice kek i [] = refl
xor_bytes_twice kek i (b ∷ bs) =
    rw (bit_xor_twice b (byte_at kek (i % length kek)), xor_bytes_twice kek (suc i) bs) refl

length-xor_bytes : (kek : Bytes) (i : ℕ) (bs : Bytes) → length (xor_bytes kek i bs) ≡ length bs
unfolding xor_bytes
length-xor_bytes kek i [] = refl
length-xor_bytes kek i (b ∷ bs) = ap suc (length-xor_bytes kek (suc i) bs)

-- Whatever the digest is, UnwrapKey of the local provider gives back each key that its WrapKey has
-- wrapped.
pub local_kms-Unwraps : (digest : Digest) (p : LocalKmsProvider) → Unwraps (local_kms digest p)
unfolding local_wrap_key local_unwrap_key
local_kms-Unwraps digest p = record {
  unwrap_key-wrap_key = λ dek wrapped h. ground (
    arith,
    h,
    xor_bytes_twice (digest.sum256 p.master_key) 0 dek,
    length-xor_bytes (digest.sum256 p.master_key) 0 dek,
  );
}
