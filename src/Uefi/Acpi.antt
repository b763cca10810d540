-- ===== src/Uefi/Acpi.antt =====
-- The ACPI patches of the EFI application (uefi/acpi/).
pub mod Checksum
pub mod PkgLength
pub mod Dsdt
pub mod Method
pub mod Find
pub mod HookPts
mod Tests
