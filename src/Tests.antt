-- ===== src/Tests.antt =====
-- Runs of the modelled code on small inputs, and the theorems applied to them.
mod Floats
mod Hds
mod Tlv
mod Control
mod Siri
mod Stream
mod Media
mod Connection
mod Sessions
mod Saving
mod Http
