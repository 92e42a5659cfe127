-- ===== src/Nfv/Client/Copies.antt =====
-- The copies of `sendData` in click_experiments/basicelementnosgx.cc, basicelementsha256.cc and
-- basicelementnosgxsha256.cc. They are those of basicelement.cc, and no element calls its own.
use sgx_nfv.Prelude.{ℕ, Outcome}
use sgx_nfv.Nfv.Text.{Bytes}
use sgx_nfv.Nfv.Client.{Net, Sent, send_data}

unfoldable pub send_data_no_sgx : Bytes → ℕ → Net → Outcome Sent
send_data_no_sgx = send_data

unfoldable pub send_data_sha256 : Bytes → ℕ → Net → Outcome Sent
send_data_sha256 = send_data

unfoldable pub send_data_no_sgx_sha256 : Bytes → ℕ → Net → Outcome Sent
send_data_no_sgx_sha256 = send_data
