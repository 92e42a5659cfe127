-- ===== src/Benchmark.antt =====
-- The memory benchmark: `ecall_stress_memory` of
-- SGX_Execution_Benchmark/sgx/enclave_enclave/trusted/enclave.cpp.
pub mod Sums
pub mod Chain
pub mod Program
pub mod Endings
use sgx_nfv.Prelude.{ℕ, zero, suc, ◌+◌, ◌-◌, ◌%◌, List, set, Outcome, done, ◌>>=◌}
use sgx_nfv.Packet.{read}

-- `data_local[i] += data_local[i-1]` for `n` more values of `i`.
unfoldable pub accumulate : ℕ → ℕ → List ℕ → Outcome (List ℕ)
accumulate zero i d = done d
accumulate (suc n) i d =
    read d i >>= λ a. read d (i - 1) >>= λ b. accumulate n (i + 1) (set d i ((a + b) % 0x100))

-- `for(i=1; i<length; i++)`
unfoldable pub ecall_stress_memory : List ℕ → ℕ → Outcome (List ℕ)
unfolding accumulate
ecall_stress_memory d len = accumulate (len - 1) 1 d
