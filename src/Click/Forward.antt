-- ===== src/Click/Forward.antt =====
-- Streams of packets through the elements.
use sgx_nfv.Prelude.{
  ℕ, ◌+◌, ◌≤◌, ◌<◌, ◌≡◌, ◌≢◌, refl, ap, true, List, [], ◌∷◌, ◌++◌, arith, length, Outcome, done,
  >>=-eq-done,
}
use sgx_nfv.Packet.{add_int, sequence_len, ecall_process_packet, call_process_packet_no_sgx_test}
use sgx_nfv.Packet.Packing.{Packing, IsLargest}
use sgx_nfv.Packet.Count.{ecall_process_packet-IsLargest}
use sgx_nfv.Packet.Short.{ecall_process_packet_short}
use sgx_nfv.Click.{
  Bytes, BasicElement, BasicElementSha256, add_long, call_process_packet_sgx, push_counting,
  basic_element_push, basic_element_no_sgx_push, push_digest, run,
}

-- Each packet has 500 bytes or more, and less than 2 ^ 31.
abbrev pub Inspectable : List Bytes → Type 0
Inspectable [] = Unit
Inspectable (p ∷ ps) = (500 ≤ length p) × (length p < 0x8000_0000) × Inspectable ps

abbrev pub total_length : List Bytes → ℕ
total_length [] = 0
total_length (p ∷ ps) = length p + total_length ps

abbrev pub sum : List ℕ → ℕ
sum [] = 0
sum (n ∷ ns) = n + sum ns

-- `ns` are the counts of the packets, one for each.
pub data Counted : List Bytes → List ℕ → Type 0 where
  none_left : Counted [] []
  counted :
      (p : Bytes) (n : ℕ) {ps : List Bytes} {ns : List ℕ}
      → IsLargest p (length p) (sequence_len (length p)) 0 n
      → Counted ps ns
      → Counted (p ∷ ps) (n ∷ ns)

Packing-length :
    (d : List ℕ) (len s a : ℕ) (ps : List ℕ)
    → 1 ≤ s
    → a ≤ len
    → Packing d len s a ps
    → a + length ps ≤ len
Packing-length d len s a [] pos h k = omega arith
Packing-length d len s a (p ∷ ps) pos h k =
    omega (arith, Packing-length d len s (p + s) ps pos k.1 k.3)

-- A count is at most the length of the packet.
pub IsLargest-le-length : (d : List ℕ) (len s n : ℕ) → 1 ≤ s → IsLargest d len s 0 n → n ≤ len
IsLargest-le-length d len s n pos l =
    omega (arith, Packing-length d len s 0 l.packing pos (omega arith) l.fits, l.size)

-- A stream through a counting element whose calls give `n` as said.
module _ (call : Bytes → Outcome ℕ)
    (counts : (p : Bytes)
      → 500 ≤ length p
      → length p < 0x8000_0000
      → (n : ℕ) × (call p ≡ done n) × IsLargest p (length p) (sequence_len (length p)) 0 n) where
  Result : List Bytes → BasicElement → Type 0
  Result ps e =
      (e' : BasicElement) × (ns : List ℕ) × (run (push_counting call) e ps ≡ done (e', ps))
      × Counted ps ns
      × (e'.count ≡ e.count + length ps)
      × (e'.sgx_sum ≡ e.sgx_sum + sum ns)

  run_counting :
      (ps : List Bytes) (e : BasicElement)
      → Inspectable ps
      → e.count + length ps < 0x8000_0000
      → e.sgx_sum + total_length ps < 0x8000_0000_0000_0000
      → Result ps e
  unfolding run push_counting Result
  run_counting [] e h room sums = (e, [], refl, none_left, omega arith, omega arith)
  run_counting (p ∷ ps) e h room sums =
      let (n, got, l) = counts p h.0 h.1 in
      let small = IsLargest-le-length p (length p) (sequence_len (length p)) n (omega arith) l in
      let next : BasicElement = record { count = e.count + 1; sgx_sum = e.sgx_sum + n } in
      let (e', ns, rest, c, at, sums') = run_counting ps next h.2 (omega arith) (omega arith) in
      let one : add_int e.count 1 ≡ done (e.count + 1) = ground arith in
      let more : add_long e.sgx_sum n ≡ done (e.sgx_sum + n) = ground arith in
      let pushed : push_counting call e p ≡ done (next, p) =
        rw (push_counting, one, got, more) refl in
      (e', n ∷ ns, rw (pushed, rest) refl, counted p n l c, omega arith, omega arith)

-- A stream of packets of 500 bytes or more, each below 2 ^ 31 bytes, passes `BasicElement` whole and in
-- order, if the enclave can be entered and the two counters have room for the number of packets and for
-- their total length: `count` grows by the number of packets and `sgx_sum` by the sum of their counts,
-- each the largest number of disjoint occurrences of the packet's own prefix. The element that inspects
-- outside the enclave does the same.
pub run-basic_element_push :
    (ps : List Bytes) (e : BasicElement)
    → Inspectable ps
    → e.count + length ps < 0x8000_0000
    → e.sgx_sum + total_length ps < 0x8000_0000_0000_0000
    → (e' : BasicElement) × (ns : List ℕ) × (run (basic_element_push true) e ps ≡ done (e', ps))
      × (run basic_element_no_sgx_push e ps ≡ done (e', ps))
      × Counted ps ns
      × (e'.count ≡ e.count + length ps)
      × (e'.sgx_sum ≡ e.sgx_sum + sum ns)
unfolding basic_element_push basic_element_no_sgx_push call_process_packet_sgx
    call_process_packet_no_sgx_test ecall_process_packet Result
run-basic_element_push ps e big room sums =
    let (e', ns, runs, c, at, sums') =
      run_counting (λ p. call_process_packet_sgx true (length p + 2) p (length p))
        (λ p long small.
          ecall_process_packet-IsLargest (length p + 2) (length p) p long small (omega arith)
            (omega arith))
        ps e big room sums in
    (e', ns, runs, runs, c, at, sums')

push_counting-done :
    (call : Bytes → Outcome ℕ) (e : BasicElement) (p : Bytes) (r : BasicElement × Bytes)
    → push_counting call e p ≡ done r
    → (n : ℕ) × (call p ≡ done n)
unfolding push_counting
push_counting-done call e p r h =
    let (c, got_c, h1) = >>=-eq-done (add_int e.count 1) _ h in
    let (n, got_n, h2) = >>=-eq-done (call p) _ h1 in (n, got_n)

-- A packet that is not counted stops the stream.
run_stops :
    (call : Bytes → Outcome ℕ) (p : Bytes)
    → ((n : ℕ) → call p ≢ done n)
    → (before after : List Bytes) (e : BasicElement) (r : BasicElement × List Bytes)
    → run (push_counting call) e (before ++ (p ∷ after)) ≢ done r
unfolding run
run_stops call p never [] after e r h =
    let (a, got, h1) = >>=-eq-done (push_counting call e p) _ h in
    let (n, counts) = push_counting-done call e p a got in never n counts
run_stops call p never (q ∷ before) after e r h =
    let (a, got, h1) = >>=-eq-done (push_counting call e q) _ h in
    let (b, got_b, h2) = >>=-eq-done (run (push_counting call) a.0 (before ++ (p ∷ after))) _ h1 in
    run_stops call p never before after a.0 b got_b

-- A stream with a packet of less than 500 bytes never gets through `BasicElement` where the enclave can
-- be entered: the element does not return from that packet.
run-basic_element_push_short :
    (p : Bytes) (before after : List Bytes) (e : BasicElement) (r : BasicElement × List Bytes)
    → length p < 500
    → run (basic_element_push true) e (before ++ (p ∷ after)) ≢ done r
unfolding basic_element_push call_process_packet_sgx
run-basic_element_push_short p before after e r short =
    run_stops (λ p. call_process_packet_sgx true (length p + 2) p (length p)) p
      (λ n. ecall_process_packet_short (length p + 2) (length p) n p short) before after e r

-- Where the digest of each packet is computed, a stream passes the SHA-256 elements whole and in order
-- as long as `count` has room, whatever the digests are.
pub run-push_digest :
    (sha256 : Bytes → Outcome Bytes) (ps : List Bytes) (e : BasicElementSha256)
    → ((p : Bytes) → (hash : Bytes) × (sha256 p ≡ done hash))
    → e.count + length ps < 0x8000_0000
    → run (push_digest sha256) e ps ≡ done (record { count = e.count + length ps }, ps)
unfolding run push_digest
run-push_digest sha256 [] e total room =
    let same : e.count ≡ e.count + 0 = omega arith in
    ap (λ (c : ℕ). Outcome.done (record { count = c }, [])) same
run-push_digest sha256 (p ∷ ps) e total room =
    let (hash, got) = total p in
    let next : BasicElementSha256 = record { count = e.count + 1 } in
    let one : add_int e.count 1 ≡ done (e.count + 1) = ground arith in
    let pushed : push_digest sha256 e p ≡ done (next, p) = rw (push_digest, one, got) refl in
    let rest = run-push_digest sha256 ps next total (omega arith) in
    let sum : e.count + 1 + length ps ≡ e.count + length (p ∷ ps) = omega arith in
    rw (pushed, rest) (ap (λ (c : ℕ). Outcome.done (record { count = c }, p ∷ ps)) sum)
