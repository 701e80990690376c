-- ===== src/Vault/Random.antt =====
-- Random texts (vault_service.go: randomString, randomPassword, shortToken, normalizeForCredential).
use Prim.Native.String.{String, [], ◌∷◌, char_at, slice}
use Prim.Native.Char.{code}
use bonipam.Common.{ℕ, zero, suc, Option, none, some, ◌==◌, nat_eq, if◌then◌else◌}
use bonipam.Go.Text.{trim_space, to_lower}

-- What rand.Int(rand.Reader, max) returns in the i-th round, a number below `max`; `none` is an error.
abbrev pub Rolls : Type 0
Rolls = ℕ → Option ℕ

-- The loop of randomString, with `n` rounds to go.
unfoldable pub random_chars : String → Rolls → ℕ → ℕ → Option String
random_chars charset rolls i zero = some ""
random_chars charset rolls i (suc n) =
    let rest = random_chars charset rolls (suc i) n in
    elim (rolls i) [
      | none ↦ none
      | some roll ↦ elim rest [ none ↦ none | some text ↦ some (char_at charset roll ∷ text) ]
    ]

unfoldable pub random_string : ℕ → String → Rolls → Option String
random_string n charset rolls =
    if nat_eq n 0 then none else if charset == "" then none else random_chars charset rolls 0 n

abbrev pub password_charset : String
password_charset = "abcdefghijklmnopqrstuvwxyzABCDEFGHIJKLMNOPQRSTUVWXYZ0123456789!@#$%^&*()_-+=<>?"

unfoldable pub random_password : ℕ → Rolls → Option String
random_password n rolls = random_string n password_charset rolls

-- `uuid` is used where the random generator fails.
unfoldable pub short_token : ℕ → Rolls → String → String
short_token n rolls uuid = elim (random_string n "abcdefghijklmnopqrstuvwxyz0123456789" rolls) [
  | none ↦ slice uuid 0 n
  | some token ↦ token
]

-- strings.ReplaceAll(value, " ", "-")
replace_spaces : String → String
replace_spaces [] = []
replace_spaces (c ∷ s) =
    let rest = replace_spaces s in if nat_eq (code c) b' ' then char_at "-" 0 ∷ rest else c ∷ rest

unfoldable pub normalize_for_credential : String → String
unfolding replace_spaces
normalize_for_credential value =
    let normalized = replace_spaces (to_lower (trim_space value)) in
    if normalized == "" then "target" else normalized
