-- ===== src/Assets.antt =====
-- Assets: their metadata and tags, their owners, and their import (asset_service.go).
pub mod Types
pub mod Metadata
pub mod Tagging
pub mod Service
pub mod Transfers
pub mod Rows
pub mod Import
pub mod Cleaned
pub mod Checked
pub mod Valid
pub mod Owners
pub mod Kept
pub mod Steps
pub mod Runs
pub mod Batch
pub mod Each
pub mod Whole
pub mod Probe
pub mod Review
