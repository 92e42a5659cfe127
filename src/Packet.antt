-- ===== src/Packet.antt =====
-- Packet inspection: NFV_Basic_SGX/sgx/enclave_enclave1/trusted/enclave1.cpp (ecall_process_packet),
-- NFV_Basic_SGX/sgx/enclave_enclave1/untrusted/App.cpp (call_process_packet_no_sgx_test, its copy
-- outside the enclave).
pub mod Packing
pub mod Compare
pub mod Count
pub mod Short
pub mod Memchr
pub mod Overread
pub mod Trial
use sgx_nfv.Prelude.{
  ℕ, zero, suc, ◌+◌, ◌-◌, ◌/◌, ◌%◌, ◌^◌, Bool, true, false, not, Option, none, some, List, ltb, leb,
  ◌==◌, if◌then◌else◌, get_elem?, Outcome, done, fault, spinning, ◌>>=◌,
}

-- `data[i]`
abbrev pub read : List ℕ → ℕ → Outcome ℕ
read d i = elim (get_elem? d i) [ none ↦ fault | some b ↦ done b ]

-- `a += b` on `int`
abbrev pub add_int : ℕ → ℕ → Outcome ℕ
add_int a b = if ltb (a + b) 0x8000_0000 then done (a + b) else fault

-- `a - b` on `unsigned int`
abbrev pub sub_uint : ℕ → ℕ → ℕ
sub_uint a b = (a + 0x1_0000_0000 - b) % 0x1_0000_0000

-- `for(i=0; i<sequence_len; i++) if(ptr[i] != data[index + i]) { found = false; break; }` with `n`
-- rounds left.
unfoldable pub found : List ℕ → ℕ → ℕ → ℕ → Outcome Bool
found d index zero i = done true
found d index (suc n) i =
    let rest = found d index n (i + 1) in
    read d i >>= λ a. read d (index + i) >>= λ b. if a == b then rest else done false

-- `while(index <= (length - sequence_len))`; `last` is `length - sequence_len`, an unsigned number.
unfoldable pub search : List ℕ → ℕ → ℕ → ℕ → ℕ → ℕ → Outcome ℕ
search d last s zero index count = spinning
search d last s (suc f) index count =
    let skip = add_int index 1 >>= λ i. search d last s f i count in
    let jump = add_int count 1 >>= λ c. add_int index s >>= λ i. search d last s f i c in
    if leb index last
    then (read d 0 >>= λ a. read d index >>= λ b.
        if not (a == b) then skip else (found d index s 0 >>= λ e. if e then jump else skip))
    else done count

-- `ceil((double)(length/500))`: the quotient is already whole.
abbrev pub sequence_len : ℕ → ℕ
sequence_len len = len / 500

unfoldable pub ecall_process_packet : ℕ → List ℕ → ℕ → Outcome ℕ
ecall_process_packet fuel d len =
    search d (sub_uint len (sequence_len len)) (sequence_len len) fuel 0 0

-- The copy outside the enclave, in NFV_Basic_SGX/sgx/enclave_enclave1/untrusted/App.cpp.
unfoldable pub call_process_packet_no_sgx_test : ℕ → List ℕ → ℕ → Outcome ℕ
call_process_packet_no_sgx_test fuel d len =
    search d (sub_uint len (sequence_len len)) (sequence_len len) fuel 0 0
