-- ===== src/Packet/Overread.antt =====
-- Where the inspection by `memchr` and `memcmp` reads past the end of the packet.
use sgx_nfv.Prelude.{
  ℕ, zero, suc, ◌+◌, ◌*◌, ◌/◌, ◌≤◌, ◌<◌, ◌≡◌, ◌≢◌, ◌∙◌, refl, sym, ap, true, false, some, ltb, leb,
  ◌==◌, arith, get_elem?, replicate, length-replicate, done, fault, Bool-cases, inl, inr,
}
use native.Mathlib.Nat.{zero-add}
use sgx_nfv.Packet.{read, add_int, found}
use sgx_nfv.Packet.Memchr.{memchr, memcmp, scan, call_process_packet_no_sgx}

get_elem?-replicate : (n i a : ℕ) → i < n → get_elem? (replicate n a) i ≡ some a
get_elem?-replicate zero i a h = absurd (omega arith)
get_elem?-replicate (suc n) zero a h = refl
get_elem?-replicate (suc n) (suc i) a h = get_elem?-replicate n i a (omega arith)

positive : (s : ℕ) → 1 ≤ s → (n : ℕ) × (s ≡ suc n)
positive zero h = absurd (omega arith)
positive (suc n) h = (n, refl)

-- A packet of `len` equal bytes.
module _ (len a : ℕ) where
  found-equal : (n i j : ℕ) → i + j + n ≤ len → found (replicate len a) i n j ≡ done true
  unfolding found
  found-equal zero i j h = refl
  found-equal (suc n) i j h =
      let here = get_elem?-replicate len j a (omega arith) in
      let there = get_elem?-replicate len (i + j) a (omega arith) in
      let same : a == a ≡ true = ground arith in
      rw (read, here, there, same) (found-equal n i (j + 1) (omega arith))

  memchr-equal : (n i : ℕ) → i < len → memchr (replicate len a) a (suc n) i ≡ done (some i)
  unfolding memchr
  memchr-equal n i h =
      let same : a == a ≡ true = ground arith in rw (read, get_elem?-replicate len i a h, same) refl

  scan-overread :
      (n f i count : ℕ)
      → 1 ≤ len
      → ((k : ℕ) → len ≢ i + k * suc n)
      → i < len
      → len < f + i
      → count ≤ i
      → len < 0x8000_0000
      → scan (replicate len a) len (suc n) f i count ≡ fault
  unfolding scan memcmp
  scan-overread n zero i count some_byte uneven inside enough low small = absurd (omega arith)
  scan-overread n (suc f) i count some_byte uneven inside enough low small =
      let first = get_elem?-replicate len 0 a (omega arith) in
      let size = length-replicate len a in
      elim (Bool-cases (ltb len (i + suc n))) [
        | inl past ↦ rw (read, first, memchr-equal n i inside, size, past) refl
        | inr within ↦
            let whole = found-equal (suc n) i 0 (ground arith) in
            let counted : add_int count 1 ≡ done (count + 1) = ground arith in
            let next : ((k : ℕ) → len ≢ i + suc n + k * suc n) =
              λ k e. uneven (suc k) (omega arith) in
            let ne : len ≢ i + suc n = λ e. uneven 1 (omega arith) in
            let on : i + suc n < len = ground (arith, ne) in
            let more : leb len (i + suc n) ≡ false = ground arith in
            rw (read, first, memchr-equal n i inside, size, within, whole, counted, more)
              (scan-overread n f (i + suc n) (count + 1) some_byte next on (omega arith)
                (omega arith) small)
      ]

-- On a packet of equal bytes that fills its buffer, of 1000 bytes or more and less than 2 ^ 31, whose length
-- is no multiple of `length/500`, the inspection by `memchr` counts up to the end and then compares past it.
pub call_process_packet_no_sgx-overread :
    (fuel len a : ℕ)
    → 1000 ≤ len
    → len < 0x8000_0000
    → ((k : ℕ) → len ≢ k * (len / 500))
    → len + 1 ≤ fuel
    → call_process_packet_no_sgx fuel (replicate len a) len ≡ fault
unfolding call_process_packet_no_sgx
call_process_packet_no_sgx-overread fuel len a big small uneven enough =
    let (n, s) = positive (len / 500) (omega arith) in
    let odd : ((k : ℕ) → len ≢ 0 + k * suc n) =
      λ k e. uneven k (e ∙ zero-add (k * suc n) ∙ ap (λ (m : ℕ). k * m) (sym s)) in
    ap (λ (m : ℕ). scan (replicate len a) len m fuel 0 0) s
    ∙ scan-overread len a n fuel 0 0 (omega arith) odd (omega arith) (omega arith) (omega arith)
        small
