-- ===== src/Ra.antt =====
-- Remote attestation: NFV_Remote_Attestation_C/sgx, the service provider, the attestation server that
-- it simulates, the enclave and the client application.
pub mod Crypto
pub mod Ecp
pub mod Ias
pub mod Provider
pub mod Client
pub mod Session
pub mod Enclave
pub mod Transport
