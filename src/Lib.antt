-- ===== src/Lib.antt =====
-- The backend of boni-pam, a privileged access manager: its in-memory services, as functions from a
-- state and a request to a result and the next state, and what holds of them.
--
-- The parts, and how they interact. Users carry groups and roles; roles carry permissions; a group
-- mapping gives the members of a group its roles, over the user and the role service. The policy engine
-- decides requests by the rules of a stored policy. The gateway opens sessions to assets, under a
-- just-in-time grant that somebody asked for and somebody approved. The authentication service signs
-- users in, over the user service and the identity provider's directory, and keeps their sessions,
-- refresh tokens and MFA challenges. The vault keeps secrets under keys that a key provider wraps,
-- leases credentials for targets, and renews them by rotation policies. The asset service keeps the
-- inventory, the owners of its assets and the transfers between owners.
--
-- The files (paths under backend/internal):
--   Common       booleans, conditionals, results, int64 arithmetic, loops over slices
--   Go           maps, texts, instants, sort.Slice and the loops that collect texts once
--   Users        service/user_service.go, domain/user.go: CreateUser is create_user, and so on
--   Roles        service/role_service.go, domain/role.go
--   Permissions  service/permission_service.go, domain/permission.go
--   Groups       service/group_mapping_service.go, domain/group_mapping.go
--   Gateway      service/gateway_service.go, domain/gateway.go: Types the data, Grants and Sessions
--                the operations, the other files their theorems
--   Policy       service/policy_service.go, service/context_resolver_service.go, domain/policy.go:
--                Value to Evaluate the evaluation, Store and Change the operations on policies
--   Auth         service/auth_service.go, service/user_sync_service.go, domain/auth.go: Tokens the
--                sessions and refresh tokens, Mfa the challenges, Service the sign-in, Sync the directory
--   Vault        service/vault_service.go, service/kms_provider.go, domain/vault.go: Kms the providers,
--                Secrets the envelopes, Leases and Rotation the operations, the other files their theorems
--   Assets       service/asset_service.go, domain/asset.go: Metadata and Tagging the checks, Service,
--                Transfers, Rows and Import the operations, the other files their theorems
--   Http         transport/http/response.go, gateway_handler.go and vault_handler.go: from a parsed body to
--                the service and back to a status, a code and a message
--   Examples     the theorems at concrete values
--
-- How the code is read. A method is a function with the name in snake case, from the service's state to
-- its result and the state that it leaves; a method that only reads gives the result alone. An error is
-- a constructor for each message. A method that holds its mutex throughout is one step. VerifyMFA lets
-- the lock go between its check and its acceptance, so these are two functions, and steps of their own.
-- RefreshToken lets the lock go before it issues the new session, and InitiateSession between its check
-- of the grant and the storing of the session; each is one step here, so that the theorems on runs are
-- about runs in which no other call comes between these parts. TriggerRotation takes its lock three
-- times and RunDueRotations and ImportAssets once for each policy or row: find_enabled,
-- issue_credential and finish_rotation are these parts, and the theorems on rotations and imports are
-- about calls that nothing comes between. A service that another one points to is a field of that one's
-- state; the key provider of the vault is an argument of the operations that use it.
--
-- A call of time.Now() or uuid.NewString(), and a value of the random generator, is an argument of the
-- function that draws it. The uuid of a new record is not in use yet where a theorem on runs says so.
-- Instants are integers in nanoseconds, and a number of seconds becomes a duration by an int64 product
-- that wraps. A uuid is its canonical text. A Go map is an association list, and a loop over a map
-- visits it in the order of that list; no theorem rests on an order. A status is a constructor where
-- the service writes only certain texts. Go/Text changes the case of the ASCII letters and of the three
-- other characters that Go relates to one of them, so that EqualFold and equality under ToLower are two
-- relations; other letters have no case. Where a theorem needs the two to agree, it is about ASCII
-- names. A number in a policy's condition is a finite float64, written as the integer by which 2 ^
-- -1074 is multiplied, and the values are those that encoding/json decodes. Versions of policies are
-- natural numbers without a bound.
--
-- What is outside the repository is a parameter: the record Outside of Policy/Types (uuid.Parse, the
-- JSON schema validator, the time layouts), the record Crypto of Auth/Types (SHA-256, the JWT
-- signature), the records Digest of Vault/Kms (SHA-256) and Ciphers of Vault/Secrets (AES-GCM, base64),
-- and the record Decoders of Assets/Rows (the CSV reader, strconv.Atoi, json.Unmarshal). Of these the
-- theorems assume only, where they say so, that no digest is the empty text, and that what is encoded,
-- sealed or wrapped can be decoded, opened or unwrapped.
--
-- No function runs on fuel but the printing of a number in Go/Decimal, whose fuel is the number and one
-- more, at least its number of digits. The loops are recursion on a list.
--
-- Not modelled: the other HTTP handlers, the middleware, the configuration and the commands, which are
-- input and output around the services.
pub mod Common
pub mod Go
pub mod Users
pub mod Roles
pub mod Permissions
pub mod Groups
pub mod Gateway
pub mod Policy
pub mod Auth
pub mod Vault
pub mod Assets
pub mod Http
pub mod Examples
