-- ===== src/Examples.antt =====
-- The theorems at concrete values, one file for each component.
pub mod GatewayRuns
pub mod Users
pub mod Access
pub mod Policy
pub mod Auth
pub mod Challenges
pub mod Ciphers
pub mod Vault
pub mod Assets
pub mod Rotations
pub mod Imports
pub mod Http
use bonipam.Common.{String, ◌≡◌, ◌≢◌, false, ◌==◌, eq_iff, arith}

-- Two texts of which the test says that they differ.
pub differ : (a b : String) → (a == b) ≡ false → a ≢ b
differ a b h e = ground (arith, eq_iff a b)
