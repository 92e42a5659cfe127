-- ===== src/Packet/Trial.antt =====
-- `test_process_packet` of NFV_Basic_SGX/sgx/enclave_enclave1/untrusted/App.cpp, the inspection by `memcmp`
-- whose count is dropped.
use sgx_nfv.Prelude.{
  ℕ, zero, suc, ◌+◌, ◌-◌, ◌/◌, ◌≤◌, ◌<◌, ◌≡◌, ◌∙◌, refl, sym, ap, inl, inr, true, false, List,
  arith, length, done, spinning, Outcome, ◌>>=◌, ltb, leb, if◌then◌else◌, Bool-cases,
}
use sgx_nfv.Packet.{add_int, sub_uint, found, search, sequence_len}
use sgx_nfv.Packet.Compare.{found_decides}
use sgx_nfv.Packet.Count.{search_end, search_skip, search_jump, search-IsLargest}
use sgx_nfv.Packet.Memchr.{memcmp}
use sgx_nfv.Packet.Packing.{IsLargest}

-- `while(index<(length-sequence_len))`; `end_index` is `length-sequence_len`, an unsigned number, and `curr`
-- is always `data + index`.
unfoldable pub trial : List ℕ → ℕ → ℕ → ℕ → ℕ → ℕ → Outcome ℕ
trial d end_index s zero index count = spinning
trial d end_index s (suc f) index count =
    let jump = add_int index s >>= λ i. add_int count 1 >>= λ c. trial d end_index s f i c in
    let skip = add_int index 1 >>= λ i. trial d end_index s f i count in
    if ltb index end_index then (memcmp d index s >>= λ e. if e then jump else skip) else done count

-- The local `count` with which `test_process_packet` ends.
unfoldable pub trial_count : ℕ → List ℕ → ℕ → Outcome ℕ
trial_count fuel d len = trial d (sub_uint len (sequence_len len)) (sequence_len len) fuel 0 0

unfoldable pub test_process_packet : ℕ → List ℕ → ℕ → Outcome (Unit {0})
test_process_packet fuel d len = trial_count fuel d len >>= λ count. done tt

-- `len` is one less than the length of the packet, so that the strict test is that of the other loop.
module _ (d : List ℕ) (len s : ℕ) (some_prefix : 0 < s) (fits : s ≤ len) (whole : len < length d)
    (small : len < 0x7fff_ffff) where
  trial_end : (f i c : ℕ) → len < i + s → trial d (len + 1 - s) s (suc f) i c ≡ done c
  unfolding trial
  trial_end f i c h = let e : ltb i (len + 1 - s) ≡ false = ground arith in rw e

  trial_skip :
      (f i c : ℕ)
      → i + s ≤ len
      → found d i s 0 ≡ done false
      → trial d (len + 1 - s) s (suc f) i c ≡ trial d (len + 1 - s) s f (i + 1) c
  unfolding trial memcmp
  trial_skip f i c h e =
      let low : ltb i (len + 1 - s) ≡ true = ground arith in
      let inside : ltb (length d) (i + s) ≡ false = ground arith in
      let room : ltb (i + 1) 0x8000_0000 ≡ true = ground arith in rw (low, inside, e, room, add_int)

  trial_jump :
      (f i c : ℕ)
      → i + s ≤ len
      → c ≤ i
      → found d i s 0 ≡ done true
      → trial d (len + 1 - s) s (suc f) i c ≡ trial d (len + 1 - s) s f (i + s) (c + 1)
  unfolding trial memcmp
  trial_jump f i c h ci e =
      let low : ltb i (len + 1 - s) ≡ true = ground arith in
      let inside : ltb (length d) (i + s) ≡ false = ground arith in
      let room : ltb (i + s) 0x8000_0000 ≡ true = ground arith in
      let room' : ltb (c + 1) 0x8000_0000 ≡ true = ground arith in
      rw (low, inside, e, room, add_int, room')

  trial-search : (f i c : ℕ) → c ≤ i → trial d (len + 1 - s) s f i c ≡ search d (len - s) s f i c
  unfolding trial search
  trial-search zero i c ci = refl
  trial-search (suc f) i c ci = elim (Bool-cases (leb (i + s) len)) [
    | inr past ↦
        trial_end f i c (ground arith)
        ∙ sym (search_end d len s some_prefix fits (omega arith) (omega arith) f i c (ground arith))
    | inl inside ↦
        let low : i + s ≤ len = ground arith in
        elim (found_decides d i s (omega arith)) [
          | inl (e, o) ↦
              trial_jump f i c low ci e
              ∙ trial-search f (i + s) (c + 1) (omega arith)
              ∙ sym (
                  search_jump d len s some_prefix fits (omega arith) (omega arith) f i c low ci o e)
          | inr (e, o) ↦
              trial_skip f i c low e
              ∙ trial-search f (i + 1) c (omega arith)
              ∙ sym (search_skip d len s some_prefix fits (omega arith) (omega arith) f i c low o e)
        ]
  ]

-- On a packet of 500 bytes or more, and less than 2 ^ 31, that lies within its buffer,
-- `test_process_packet` reads nothing outside the buffer, overflows nothing and returns, and its local
-- count is the size of the largest set of places, no two of them overlapping, where the first `length/500`
-- bytes of the packet occur within the packet less its last byte. `length` is that of the whole packet.
pub test_process_packet-IsLargest :
    (fuel len : ℕ) (d : List ℕ)
    → 500 ≤ len
    → len < 0x8000_0000
    → len ≤ length d
    → len + 1 ≤ fuel
    → (n : ℕ) × (trial_count fuel d len ≡ done n)
      × (test_process_packet fuel d len ≡ done tt)
      × IsLargest d (len - 1) (sequence_len len) 0 n
unfolding trial_count test_process_packet
test_process_packet-IsLargest zero len d big small whole enough = absurd (omega arith)
test_process_packet-IsLargest (suc f) len d big small whole enough =
    let s = len / 500 in
    let (n, run, l) =
      search-IsLargest d (len - 1) s (omega arith) (omega arith) (omega arith) (omega arith) f 0 0
        (omega arith) (omega arith) in
    let same =
      trial-search d (len - 1) s (omega arith) (omega arith) (omega arith) (omega arith) (suc f) 0 0
        (omega arith) in
    let last : len - 1 + 1 - s ≡ sub_uint len (sequence_len len) = omega arith in
    let counted : trial d (sub_uint len (sequence_len len)) (sequence_len len) (suc f) 0 0
        ≡ done n =
      ap (λ (k : ℕ). trial d k s (suc f) 0 0) (sym last) ∙ same ∙ run ∙ ap done (omega arith) in
    (n, counted, rw counted, l)
