-- ===== src/Package.antt =====
-- The scripts of the package: postinstall.py, which seeds the machine's settings.
pub mod Seeding
pub mod Install
