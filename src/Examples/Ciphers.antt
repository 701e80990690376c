-- ===== src/Examples/Ciphers.antt =====
-- A cipher, an encoding and a digest that keep what the vault relies on.
use Prim.Native.Char.{Char, char, code, nul, IsLt, IsScalar}
use Prim.Native.Nat.{compare, Ordering}
use Prim.Native.Nat.Ordering.{lt, eq, gt}
use Prim.Native.String as Text
use Prim.Native.String.{char_at}
use text.Mathlib.TextEquality.{Char-path}
use bonipam.Common.{
  ℕ, zero, suc, ◌≡◌, refl, true, String, Option, none, some, is_some, [], ◌∷◌, arith, nat_eq,
  if◌then◌else◌, Option-cases, inl, inr,
}
use bonipam.Vault.Types.{Bytes}
use bonipam.Vault.Kms.{Digest, LocalKmsProvider, KmsProvider, xor_bytes, local_kms}
use bonipam.Vault.Wrapping.{xor_bytes_twice}
use bonipam.Vault.Secrets.{Aead, Ciphers}
use bonipam.Vault.Envelope.{IsSound}

-- Whether a number is that of a character, by the three comparisons of IsScalar.
abbrev pub IsHighBy : Ordering → Ordering → Type 0
IsHighBy lt o = IsLt o
IsHighBy eq o = ⊥
IsHighBy gt o = ⊥

abbrev pub IsScalarBy : Ordering → Ordering → Ordering → Type 0
IsScalarBy lt o p = Unit
IsScalarBy eq o p = IsHighBy o p
IsScalarBy gt o p = IsHighBy o p

abbrev pub find_both : (o p : Ordering) → Option (IsHighBy o p)
find_both lt lt = some tt
find_both lt eq = none
find_both lt gt = none
find_both eq p = none
find_both gt p = none

abbrev pub find_scalar : (o p q : Ordering) → Option (IsScalarBy o p q)
find_scalar lt p q = some tt
find_scalar eq p q = find_both p q
find_scalar gt p q = find_both p q

find_both-some : (o p : Ordering) → IsHighBy o p → is_some (find_both o p) ≡ true
find_both-some lt lt h = refl
find_both-some lt eq h = absurd h
find_both-some lt gt h = absurd h
find_both-some eq p h = absurd h
find_both-some gt p h = absurd h

find_scalar-some : (o p q : Ordering) → IsScalarBy o p q → is_some (find_scalar o p q) ≡ true
find_scalar-some lt p q h = refl
find_scalar-some eq p q h = find_both-some p q h
find_scalar-some gt p q h = find_both-some p q h

abbrev pub scalar_of : (n : ℕ) → Option (IsScalar n)
scalar_of n = find_scalar (compare n 55296) (compare 57343 n) (compare n 1114112)

char_of : ℕ → Char
char_of n = elim (scalar_of n) [ none ↦ nul | some p ↦ char n p ]

char_of-code : (c : Char) → char_of (code c) ≡ c
unfolding char_of
char_of-code (char n p) = elim (Option-cases (scalar_of n)) [
  | inl missing ↦ absurd (
      ground (
        arith,
        missing,
        find_scalar-some (compare n 55296) (compare 57343 n) (compare n 1114112) p,
      ))
  | inr (q, found) ↦ rw (found, char_of) (Char-path (char n q) (char n p) refl)
]

-- A text as the numbers of its characters.
unfoldable pub codes_of : String → Bytes
codes_of Text.[] = []
codes_of (Text.◌∷◌ c s) = code c ∷ codes_of s

unfoldable pub text_of_codes : Bytes → String
unfolding char_of
text_of_codes [] = ""
text_of_codes (n ∷ bs) = Text.◌∷◌ (char_of n) (text_of_codes bs)

text_of_codes-codes_of : (s : String) → text_of_codes (codes_of s) ≡ s
unfolding text_of_codes codes_of
text_of_codes-codes_of Text.[] = refl
text_of_codes-codes_of (Text.◌∷◌ c s) = rw (char_of-code c, text_of_codes-codes_of s) refl

-- A list of numbers as a text: each number as so many letters a and a letter b.
tally : ℕ → String → String
tally zero s = Text.◌∷◌ (char_at "b" 0) s
tally (suc n) s = Text.◌∷◌ (char_at "a" 0) (tally n s)

unfoldable pub tallies : Bytes → String
unfolding tally
tallies [] = ""
tallies (n ∷ bs) = tally n (tallies bs)

bump : Option Bytes → Option Bytes
bump none = none
bump (some []) = none
bump (some (n ∷ bs)) = some (suc n ∷ bs)

start : Option Bytes → Option Bytes
start none = none
start (some bs) = some (0 ∷ bs)

unfoldable pub count_tallies : String → Option Bytes
unfolding bump start
count_tallies Text.[] = some []
count_tallies (Text.◌∷◌ c s) =
    let rest = count_tallies s in if nat_eq (code c) b'a' then bump rest else start rest

count_tallies-tally :
    (n : ℕ) (s : String) (bs : Bytes)
    → count_tallies s ≡ some bs
    → count_tallies (tally n s) ≡ some (n ∷ bs)
unfolding count_tallies tally bump start
count_tallies-tally zero s bs h = rw (h, start) refl
count_tallies-tally (suc n) s bs h = rw (count_tallies-tally n s bs h, bump) refl

count_tallies-tallies : (bs : Bytes) → count_tallies (tallies bs) ≡ some bs
unfolding count_tallies tallies
count_tallies-tallies [] = refl
count_tallies-tallies (n ∷ bs) = count_tallies-tally n (tallies bs) bs (count_tallies-tallies bs)

-- An AEAD: a mark before the text under XOR.
unfoldable pub open_marked : Bytes → Bytes → Option Bytes
open_marked key [] = none
open_marked key (mark ∷ bs) = if nat_eq mark 174 then some (xor_bytes key 0 bs) else none

abbrev marked : Bytes → Aead
marked key = record {
  seal = λ nonce plaintext. 174 ∷ xor_bytes key 0 plaintext;
  open_sealed = λ nonce ciphertext. open_marked key ciphertext;
}

abbrev pub ciphers : Ciphers
ciphers = record {
  bytes_of = codes_of;
  text_of = text_of_codes;
  encode_base64 = tallies;
  decode_base64 = count_tallies;
  new_cipher = λ key. some key;
  new_gcm = λ block. some (marked block);
}

pub ciphers-IsSound : IsSound ciphers
unfolding open_marked
ciphers-IsSound = record {
  decodes = count_tallies-tallies;
  text_of-bytes_of = text_of_codes-codes_of;
  opens = λ block gcm nonce plaintext made.
      let same : marked block ≡ gcm = ground arith in
      rw⁻¹ same (rw (xor_bytes_twice block 0 plaintext) refl);
}

abbrev pub digest : Digest
digest = record { bytes_of = codes_of; sum256 = λ bs. 7 ∷ 200 ∷ bs }

abbrev pub provider : LocalKmsProvider
provider = record {
  master_key = codes_of "a master key of the vault";
  kek_version = "v1";
  key_id = "local-kek-v1";
}

abbrev pub kms : KmsProvider
kms = local_kms digest provider
