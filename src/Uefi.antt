-- ===== src/Uefi.antt =====
-- The EFI application (uefi/).
pub mod RamAreas
pub mod Acpi
pub mod SetVariable
pub mod CoreLoader
