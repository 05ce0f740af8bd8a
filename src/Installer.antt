-- ===== src/Installer.antt =====
-- internal/installer: the status line command, and the installation and its removal.
pub mod Quote
pub mod RoundTrip
pub mod Fuel
pub mod StatusLine
pub mod Classify
pub mod Manifest
pub mod Settings
pub mod Unit
pub mod Plan
pub mod Compute
pub mod Apply
pub mod Reads
pub mod Refused
pub mod Calm
pub mod Installs
pub mod Applied
pub mod Line
pub mod Patched
pub mod Laws
pub mod Refines
pub mod Removal
pub mod Removes
pub mod Cycle
