-- ===== src/Nfv.antt =====
-- Packets sent over a socket to be processed elsewhere: the servers of NFV_Basic_SGX and
-- NFV_Basic_No_SGX and their clients in click_experiments.
pub mod Text
pub mod Server
pub mod Client
pub mod Run
pub mod Program
pub mod Standalone
