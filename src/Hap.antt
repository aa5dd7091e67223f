-- ===== src/Hap.antt =====
-- hap.py: the parts of the HAP-python accessory that the package changes.
pub mod Characteristic
pub mod Driver
pub mod Rollback
