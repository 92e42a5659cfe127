-- ===== src/Witness.antt =====
-- Concrete runs of the modelled code, on which the theorems are applied.
pub mod Agreement
pub mod Attestation
pub mod Binding
pub mod Processing
pub mod Servers
pub mod Sessions
pub mod Streams
pub mod Transport
