-- ===== src/Click.antt =====
-- The packet path of the Click elements: click_experiments/basicelement.cc, basicelementnosgx.cc,
-- basicelementsha256.cc and basicelementnosgxsha256.cc, with the calls of
-- NFV_Basic_SGX/sgx/enclave_enclave1/untrusted/App.cpp that they make. A packet is its bytes. What an
-- element sends on is the result of `push`.
pub mod Elements
pub mod Forward
pub mod Router
pub use sgx_nfv.Prelude.{Bytes}
use sgx_nfv.Prelude.{
  ℕ, ◌+◌, Bool, List, [], ◌∷◌, ltb, if◌then◌else◌, length, Outcome, done, fault, ◌>>=◌,
}
use sgx_nfv.Packet.{add_int, ecall_process_packet, call_process_packet_no_sgx_test}

-- `count` and `sgx_sum`
pub record BasicElement : Type 0 where
  pub count : ℕ
  pub sgx_sum : ℕ

-- the SHA-256 elements, which have no sum
pub record BasicElementSha256 : Type 0 where
  pub count : ℕ

-- `a += b` on `long`
abbrev pub add_long : ℕ → ℕ → Outcome ℕ
add_long a b = if ltb (a + b) 0x8000_0000_0000_0000 then done (a + b) else fault

-- `success` says whether the enclave was entered. If not, `sgx_return` was never written.
unfoldable pub call_process_packet_sgx : Bool → ℕ → Bytes → ℕ → Outcome ℕ
call_process_packet_sgx success fuel d len =
    if success then ecall_process_packet fuel d len else fault

-- The body that `push` has in the two counting elements, `call` being what counts.
unfoldable pub push_counting :
    (Bytes → Outcome ℕ) → BasicElement → Bytes → Outcome (BasicElement × Bytes)
push_counting call e p = do
  count ← add_int e.count 1
  n ← call p
  sgx_sum ← add_long e.sgx_sum n
  done (record { count = count; sgx_sum = sgx_sum }, p)

-- One round of fuel a byte and two more.
unfoldable pub basic_element_push : Bool → BasicElement → Bytes → Outcome (BasicElement × Bytes)
unfolding push_counting call_process_packet_sgx
basic_element_push success =
    push_counting (λ p. call_process_packet_sgx success (length p + 2) p (length p))

unfoldable pub basic_element_no_sgx_push : BasicElement → Bytes → Outcome (BasicElement × Bytes)
unfolding push_counting
basic_element_no_sgx_push =
    push_counting (λ p. call_process_packet_no_sgx_test (length p + 2) p (length p))

-- The body of `push` in the two SHA-256 elements: `sha256` is the digest of the packet, which they drop.
unfoldable pub push_digest :
    (Bytes → Outcome Bytes) → BasicElementSha256 → Bytes → Outcome (BasicElementSha256 × Bytes)
push_digest sha256 e p = do
  count ← add_int e.count 1
  hash ← sha256 p
  done (record { count = count }, p)

-- Packets one after the other, with what is sent on.
module _ {E : Type 0} (push : E → Bytes → Outcome (E × Bytes)) where
  unfoldable pub run : E → List Bytes → Outcome (E × List Bytes)
  run e [] = done (e, [])
  run e (p ∷ ps) = do a ← push e p; b ← run a.0 ps; done (b.0, a.1 ∷ b.1)
