-- ===== src/Go.antt =====
-- What the services use of Go and of its standard library: texts, maps, sorting and times.
pub mod Text
pub mod Map
pub mod Keys
pub mod Keeps
pub mod Sort
pub mod Time
pub mod Once
pub mod Decimal
