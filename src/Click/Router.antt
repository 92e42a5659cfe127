-- ===== src/Click/Router.antt =====
-- Elements from their construction on.
use sgx_nfv.Prelude.{
  ℕ, ◌+◌, ◌≤◌, ◌<◌, ◌≡◌, refl, ap, ◌∙◌, Bool, true, false, some, List, arith, ltb, length, take,
  take-all, done,
}
use sgx_nfv.Loader.{Disk}
use sgx_nfv.Loader.Files.{Keeps, initialize_enclave-Keeps}
use sgx_nfv.Nfv.Text.{scan}
use sgx_nfv.Nfv.Text.Numbers.{scan-decimal_whole}
use sgx_nfv.Nfv.Program.{initialize_enclave_nfv}
use sgx_nfv.Click.{
  Bytes, BasicElement, BasicElementSha256, basic_element_push, basic_element_no_sgx_push, run,
}
use sgx_nfv.Click.Elements.{
  new_basic_element, sgx_read_handler, basic_element_sha256_push, basic_element_no_sgx_sha256_push,
  ecall_process_packet_sha256, call_process_packet_sgx_sha256, call_process_packet_no_sgx_sha_256,
  zero_hash,
}
use sgx_nfv.Packet.{sequence_len}
use sgx_nfv.Click.Forward.{
  Inspectable, total_length, sum, Counted, none_left, counted, IsLargest-le-length,
  run-basic_element_push, run-push_digest,
}

new_basic_element_fresh :
    (d : Disk) (e : BasicElement) → new_basic_element d ≡ some e → (e.count ≡ 0) × (e.sgx_sum ≡ 0)
unfolding new_basic_element
new_basic_element_fresh d e h = ground arith

sgx_read_handler-scan :
    (e : BasicElement)
    → e.sgx_sum < 0x8000_0000_0000_0000
    → scan 10 0 0 (sgx_read_handler e) ≡ (e.sgx_sum, length (sgx_read_handler e))
unfolding sgx_read_handler
sgx_read_handler-scan e h = scan-decimal_whole 18 e.sgx_sum (omega arith)

Counted-le :
    {ps : List Bytes} {ns : List ℕ} → Inspectable ps → Counted ps ns → sum ns ≤ total_length ps
Counted-le h none_left = omega arith
Counted-le h (counted p n {ps} {ns} l c) = omega (
  arith,
  IsLargest-le-length p (length p) (sequence_len (length p)) n (omega arith) l,
  Counted-le (h.2) c,
)

-- A new `BasicElement` has loaded its enclave and closed each file that it opened for that, and then any
-- stream of packets of 500 bytes or more, each below 2 ^ 31 bytes, passes it whole and in order, where
-- the enclave can be entered, the stream has fewer than 2 ^ 31 packets and is shorter than 2 ^ 63 bytes:
-- its read handler then gives the decimal digits of the sum of the counts, each the largest number of
-- disjoint occurrences of the packet's own prefix. The element that inspects outside the enclave, whose
-- counters start at 0 too, does the same.
pub basic_element-stream :
    (d : Disk) (e : BasicElement) (ps : List Bytes)
    → new_basic_element d ≡ some e
    → Inspectable ps
    → length ps < 0x8000_0000
    → total_length ps < 0x8000_0000_0000_0000
    → Keeps d (initialize_enclave_nfv d)
      × (e' : BasicElement) × (ns : List ℕ) × (run (basic_element_push true) e ps ≡ done (e', ps))
      × (run basic_element_no_sgx_push e ps ≡ done (e', ps))
      × Counted ps ns
      × (scan 10 0 0 (sgx_read_handler e') ≡ (sum ns, length (sgx_read_handler e')))
unfolding initialize_enclave_nfv
basic_element-stream d e ps h big room sums =
    let zero_first = new_basic_element_fresh d e h in
    let (e', ns, passes, same, c, count, total) =
      run-basic_element_push ps e big (omega arith) (omega arith) in
    let small = Counted-le big c in
    let value : e'.sgx_sum ≡ sum ns = omega arith in
    (
      initialize_enclave-Keeps d,
      e',
      ns,
      passes,
      same,
      c,
      sgx_read_handler-scan e' (omega arith)
          ∙ ap (λ (n : ℕ). (n, length (sgx_read_handler e'))) value,
    )

digest-whole :
    (sha256 : Bytes → Bytes) (success : Bool) (p : Bytes)
    → (hash : Bytes) × (call_process_packet_sgx_sha256 sha256 success p (length p) ≡ done hash)
unfolding call_process_packet_sgx_sha256 ecall_process_packet_sha256
digest-whole sha256 true p =
    let inside : ltb (length p) (length p) ≡ false = ground arith in
    let all : take (length p) p ≡ p = take-all (length p) p (omega arith) in
    (sha256 p, rw (inside, all) refl)
digest-whole sha256 false p = (zero_hash, refl)

digest-outside :
    (sha256 : Bytes → Bytes) (p : Bytes)
    → (hash : Bytes) × (call_process_packet_no_sgx_sha_256 sha256 p (length p) ≡ done hash)
unfolding call_process_packet_no_sgx_sha_256
digest-outside sha256 p =
    let inside : ltb (length p) (length p) ≡ false = ground arith in
    let all : take (length p) p ≡ p = take-all (length p) p (omega arith) in
    (sha256 p, rw (inside, all) refl)

-- The SHA-256 elements pass a stream whole and in order as long as `count` has room, also where the
-- enclave cannot be entered.
sha256_elements-stream :
    (sha256 : Bytes → Bytes) (success : Bool) (ps : List Bytes) (e : BasicElementSha256)
    → e.count + length ps < 0x8000_0000
    → (run (basic_element_sha256_push sha256 success) e ps
        ≡ done (record { count = e.count + length ps }, ps))
      × (run (basic_element_no_sgx_sha256_push sha256) e ps
          ≡ done (record { count = e.count + length ps }, ps))
unfolding basic_element_sha256_push basic_element_no_sgx_sha256_push
sha256_elements-stream sha256 success ps e room = (
  run-push_digest (λ p. call_process_packet_sgx_sha256 sha256 success p (length p)) ps e
      (digest-whole sha256 success) room,
  run-push_digest (λ p. call_process_packet_no_sgx_sha_256 sha256 p (length p)) ps e
      (digest-outside sha256) room,
)
