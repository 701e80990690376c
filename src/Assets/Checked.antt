-- ===== src/Assets/Checked.antt =====
-- Metadata that was accepted is accepted again (asset_service.go: validateConnectionMetadata).
use bonipam.Common.{
  String, Bool, ◌≡◌, refl, ap, ◌∙◌, true, ◌||◌, some, [], ◌∷◌, arith, eq_iff, ◌==◌, if◌then◌else◌,
  ok, is_ok, is_some, Option-cases, Bool-cases, inl, inr, ◌⊎◌,
}
use bonipam.Go.Map.{Map, get, put, get-put}
use bonipam.Go.Keys.{HasDistinctKeys, put-HasDistinctKeys}
use bonipam.Go.Text.{trim_space, to_lower}
use bonipam.Policy.Value.{Value, as_text}
use bonipam.Policy.Value.Value.{str}
use bonipam.Assets.Metadata.{
  clean, normalize_keys, has_key, validate_ssh, validate_database, validate_connection_metadata,
}
use bonipam.Assets.Cleaned.{clean_twice}

abbrev pub HasCleanKeys : Map Value → Type 0
HasCleanKeys [] = Unit
HasCleanKeys ((k, v) ∷ m) = (clean k ≡ k) × HasCleanKeys m

put-HasCleanKeys :
    (m : Map Value) (k : String) (v : Value)
    → clean k ≡ k
    → HasCleanKeys m
    → HasCleanKeys (put m k v)
unfolding put
put-HasCleanKeys [] k v plain h = (plain, tt)
put-HasCleanKeys ((j, w) ∷ m) k v plain (h, hs) = elim (Bool-cases (j == k)) [
  | inl same ↦ rw same (plain, hs)
  | inr other ↦ rw other (h, put-HasCleanKeys m k v plain hs)
]

normalize_keys-HasCleanKeys :
    (acc m : Map Value) → HasCleanKeys acc → HasCleanKeys (normalize_keys acc m)
unfolding normalize_keys
normalize_keys-HasCleanKeys acc [] h = h
normalize_keys-HasCleanKeys acc ((k, v) ∷ m) h =
    normalize_keys-HasCleanKeys (put acc (clean k) v) m
      (put-HasCleanKeys acc (clean k) v (clean_twice k) h)

normalize_keys-HasDistinctKeys :
    (acc m : Map Value) → HasDistinctKeys acc → HasDistinctKeys (normalize_keys acc m)
unfolding normalize_keys
normalize_keys-HasDistinctKeys acc [] h = h
normalize_keys-HasDistinctKeys acc ((k, v) ∷ m) h =
    normalize_keys-HasDistinctKeys (put acc (clean k) v) m (put-HasDistinctKeys acc (clean k) v h)

-- A map whose keys are clean already is copied.
get-normalize_keys :
    (acc m : Map Value) (k : String)
    → HasCleanKeys m
    → HasDistinctKeys m
    → get (normalize_keys acc m) k ≡ (if is_some (get m k) then get m k else get acc k)
unfolding normalize_keys get
get-normalize_keys acc [] k h d = refl
get-normalize_keys acc ((j, v) ∷ m) k (plain, h) (unused, d) =
    let rest = get-normalize_keys (put acc (clean j) v) m k h d in
    ground (arith, rest, plain, eq_iff j k, eq_iff (clean j) k, get-put acc (clean j) k v)

unfoldable pub is_auth_method : String → Bool
is_auth_method a = a == "password" || a == "key"

unfoldable pub is_engine : String → Bool
is_engine e = e == "postgres" || e == "mysql" || e == "mssql"

-- What the accepted metadata of an asset holds.
pub record IsChecked (asset_type : String) (m : Map Value) : Type 0 where
  pub keys : HasDistinctKeys m
  pub plain : HasCleanKeys m
  pub username : has_key m "username" ≡ true
  pub method :
      ((asset_type ≡ "ssh")
        × (a : String) × (get m "auth_method" ≡ some (str a))
        × (is_auth_method a ≡ true))
      ⊎ ((asset_type ≡ "database")
          × (e : String) × (get m "engine" ≡ some (str e))
          × (is_engine e ≡ true)
          × (has_key m "database" ≡ true))

is_auth_method-clean : (a : String) → is_auth_method a ≡ true → clean a ≡ a
unfolding is_auth_method clean to_lower trim_space
is_auth_method-clean a known = elim (Bool-cases (a == "password")) [
  | inl password ↦ rw ((eq_iff a "password").0 password) refl
  | inr other ↦
      let key : (a == "key") ≡ true = ground (arith, known) in rw ((eq_iff a "key").0 key) refl
]

is_engine-clean : (e : String) → is_engine e ≡ true → clean e ≡ e
unfolding is_engine clean to_lower trim_space
is_engine-clean e known = elim (Bool-cases (e == "postgres")) [
  | inl postgres ↦ rw ((eq_iff e "postgres").0 postgres) refl
  | inr other ↦ elim (Bool-cases (e == "mysql")) [
    | inl mysql ↦ rw ((eq_iff e "mysql").0 mysql) refl
    | inr other' ↦
        let mssql : (e == "mssql") ≡ true = ground (arith, known) in
        rw ((eq_iff e "mssql").0 mssql) refl
  ]
]

-- Metadata with the required entries is accepted.
validate_ssh-accepts :
    (n : Map Value) (a : String)
    → has_key n "username" ≡ true
    → get n "auth_method" ≡ some (str a)
    → is_auth_method a ≡ true
    → is_ok (validate_ssh n) ≡ true
unfolding validate_ssh is_auth_method as_text
validate_ssh-accepts n a username method known = ground (arith, is_auth_method-clean a known)

validate_database-accepts :
    (n : Map Value) (e : String)
    → has_key n "username" ≡ true
    → has_key n "database" ≡ true
    → get n "engine" ≡ some (str e)
    → is_engine e ≡ true
    → is_ok (validate_database n) ≡ true
unfolding validate_database is_engine as_text has_key
validate_database-accepts n e username database engine known = ground (
  arith,
  is_engine-clean e known,
  get-put n "engine" "database" (str e),
  get-put n "engine" "username" (str e),
)

auth_method_plain : clean "auth_method" ≡ "auth_method"
unfolding clean to_lower trim_space
auth_method_plain = refl

engine_plain : clean "engine" ≡ "engine"
unfolding clean to_lower trim_space
engine_plain = refl

validate_ssh-IsChecked :
    (n m : Map Value)
    → HasDistinctKeys n
    → HasCleanKeys n
    → validate_ssh n ≡ ok m
    → IsChecked "ssh" m
unfolding validate_ssh has_key is_auth_method
validate_ssh-IsChecked n m keys plain accepted = elim (Option-cases (get n "auth_method")) [
  | inl missing ↦ absurd (ground arith)
  | inr (raw, at) ↦ elim (Option-cases (as_text raw)) [
    | inl other ↦ absurd (ground arith)
    | inr (text, read) ↦
        let a = clean text in
        let known : is_auth_method a ≡ true = ground arith in
        let written : put n "auth_method" (str a) ≡ m = ground arith in
        rw⁻¹ written (record {
          keys = put-HasDistinctKeys n "auth_method" (str a) keys;
          plain = put-HasCleanKeys n "auth_method" (str a) auth_method_plain plain;
          username = ground (arith, get-put n "auth_method" "username" (str a));
          method = inl (refl, a, get-put n "auth_method" "auth_method" (str a), known);
        })
  ]
]

validate_database-IsChecked :
    (n m : Map Value)
    → HasDistinctKeys n
    → HasCleanKeys n
    → validate_database n ≡ ok m
    → IsChecked "database" m
unfolding validate_database has_key is_engine
validate_database-IsChecked n m keys plain accepted = elim (Option-cases (get n "engine")) [
  | inl missing ↦ absurd (ground arith)
  | inr (raw, at) ↦ elim (Option-cases (as_text raw)) [
    | inl other ↦ absurd (ground arith)
    | inr (text, read) ↦
        let e = clean text in
        let known : is_engine e ≡ true = ground arith in
        let written : put n "engine" (str e) ≡ m = ground arith in
        rw⁻¹ written (record {
          keys = put-HasDistinctKeys n "engine" (str e) keys;
          plain = put-HasCleanKeys n "engine" (str e) engine_plain plain;
          username = ground arith;
          method = inr (refl, e, get-put n "engine" "engine" (str e), known, ground arith);
        })
  ]
]

pub validate_connection_metadata-IsChecked :
    (asset_type : String) (raw m : Map Value)
    → validate_connection_metadata asset_type raw ≡ ok m
    → IsChecked asset_type m
unfolding validate_connection_metadata
validate_connection_metadata-IsChecked asset_type [] m accepted = absurd (ground arith)
validate_connection_metadata-IsChecked asset_type (entry ∷ rest) m accepted =
    let n = normalize_keys [] (entry ∷ rest) in
    let keys = normalize_keys-HasDistinctKeys [] (entry ∷ rest) tt in
    let plain = normalize_keys-HasCleanKeys [] (entry ∷ rest) tt in
    elim (Bool-cases (asset_type == "ssh")) [
      | inl ssh ↦
          rw ((eq_iff asset_type "ssh").0 ssh)
            (validate_ssh-IsChecked n m keys plain (ground arith))
      | inr other ↦ elim (Bool-cases (asset_type == "database")) [
        | inl database ↦
            rw ((eq_iff asset_type "database").0 database)
              (validate_database-IsChecked n m keys plain (ground arith))
        | inr other' ↦ absurd (ground arith)
      ]
    ]

same_entries :
    (m : Map Value) (k : String)
    → HasDistinctKeys m
    → HasCleanKeys m
    → get (normalize_keys [] m) k ≡ get m k
unfolding get
same_entries m k keys plain = ground (arith, get-normalize_keys [] m k plain keys)

pub IsChecked-accepted :
    (asset_type : String) (m : Map Value)
    → IsChecked asset_type m
    → is_ok (validate_connection_metadata asset_type m) ≡ true
unfolding validate_connection_metadata has_key get
IsChecked-accepted asset_type [] c = absurd (ground (arith, c.username))
IsChecked-accepted asset_type (entry ∷ rest) c =
    let m = entry ∷ rest in
    let n = normalize_keys [] m in
    let username : has_key n "username" ≡ true =
      ap is_some (same_entries m "username" c.keys c.plain) ∙ c.username in
    elim c.method [
      | inl (ssh, a, at, known) ↦
          let accepted =
            validate_ssh-accepts n a username (same_entries m "auth_method" c.keys c.plain ∙ at)
              known in
          rw ssh accepted
      | inr (database, e, at, known, named) ↦
          let accepted =
            validate_database-accepts n e username
              (ap is_some (same_entries m "database" c.keys c.plain) ∙ named)
              (same_entries m "engine" c.keys c.plain ∙ at) known in
          rw database accepted
    ]
