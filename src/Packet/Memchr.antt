-- ===== src/Packet/Memchr.antt =====
-- `call_process_packet_no_sgx` of click_experiments/basicelementnosgx.cc, the inspection by `memchr` and
-- `memcmp`.
use sgx_nfv.Prelude.{
  ℕ, zero, suc, ◌+◌, ◌≤◌, ◌<◌, ◌≡◌, ◌∙◌, refl, ap, Bool, true, false, Option, none, some, List, [],
  ◌∷◌, ltb, leb, ◌==◌, if◌then◌else◌, arith, length, take, drop, get_elem?, drop_next, Outcome,
  done, fault, spinning, ◌>>=◌, Bool-cases, inl, inr,
}
use sgx_nfv.Packet.{read, add_int, found, sequence_len}

-- `memchr(data + i, c, n)`, which reads up to the first match
unfoldable pub memchr : List ℕ → ℕ → ℕ → ℕ → Outcome (Option ℕ)
memchr d c zero i = done none
memchr d c (suc n) i =
    let rest = memchr d c n (i + 1) in read d i >>= λ b. if b == c then done (some i) else rest

-- `memcmp(data + i, data, n) == 0`; all `n` bytes may be read.
unfoldable pub memcmp : List ℕ → ℕ → ℕ → Outcome Bool
memcmp d i n = if ltb (length d) (i + n) then fault else found d i n 0

-- the loop from `ptr = data + i` on
unfoldable pub scan : List ℕ → ℕ → ℕ → ℕ → ℕ → ℕ → Outcome ℕ
scan d len s zero i count = spinning
scan d len s (suc f) i count =
    let next : ℕ → ℕ → Outcome ℕ =
      λ j c. let rest = scan d len s f j c in if leb len j then done c else rest in
    read d 0 >>= λ first. memchr d first s i >>= λ ptr. elim ptr [
      | none ↦ done count
      | some p ↦ memcmp d p s >>= λ e.
          if e then (add_int count 1 >>= λ c. next (p + s) c) else next (p + 1) count
    ]

unfoldable pub call_process_packet_no_sgx : ℕ → List ℕ → ℕ → Outcome ℕ
call_process_packet_no_sgx fuel d len = scan d len (sequence_len len) fuel 0 0

-- How many bytes equal to `b` a list begins with.
unfoldable pub leading : ℕ → List ℕ → ℕ
leading b [] = 0
leading b (x ∷ xs) = let rest = leading b xs in if x == b then suc rest else 0

scan_short : (d : List ℕ) (len a f : ℕ) → get_elem? d 0 ≡ some a → scan d len 0 (suc f) 0 0 ≡ done 0
unfolding scan memchr
scan_short d len a f head = rw (read, head) refl

module _ (d : List ℕ) (len a : ℕ) (head : get_elem? d 0 ≡ some a) where
  memchr_one :
      (i b : ℕ)
      → get_elem? d i ≡ some b
      → memchr d a 1 i ≡ (if b == a then done (some i) else done none)
  unfolding memchr
  memchr_one i b at = rw (read, at) refl

  memcmp_one : (i : ℕ) → get_elem? d i ≡ some a → i < length d → memcmp d i 1 ≡ done true
  unfolding memcmp found
  memcmp_one i at inside =
      let same : a == a ≡ true = ground arith in
      let whole : ltb (length d) (i + 1) ≡ false = ground arith in
      let here : i + 0 ≡ i = omega arith in rw (whole, read, head, here, at, same) refl

  scan_match :
      (f i count : ℕ)
      → get_elem? d i ≡ some a
      → i < length d
      → count + 1 < 0x8000_0000
      → scan d len 1 (suc f) i count
        ≡ (if leb len (i + 1) then done (count + 1) else scan d len 1 f (i + 1) (count + 1))
  unfolding scan
  scan_match f i count at inside room =
      let same : a == a ≡ true = ground arith in
      let more : add_int count 1 ≡ done (count + 1) = ground arith in
      rw (read, head, memchr_one i a at, same, memcmp_one i at inside, more) refl

  scan_stop :
      (f i count b : ℕ)
      → get_elem? d i ≡ some b
      → (b == a) ≡ false
      → scan d len 1 (suc f) i count ≡ done count
  unfolding scan
  scan_stop f i count b at other = rw (read, head, memchr_one i b at, other) refl

  scan-leading :
      (n f i count : ℕ)
      → i + suc n ≡ len
      → len ≤ length d
      → suc n ≤ f
      → count ≤ i
      → len < 0x8000_0000
      → scan d len 1 f i count ≡ done (count + leading a (take (suc n) (drop i d)))
  unfolding leading
  scan-leading n zero i count ends whole enough low small = absurd (omega arith)
  scan-leading zero (suc f) i count ends whole enough low small =
      let (b, at, next) = drop_next d i (omega arith) in
      elim (Bool-cases (b == a)) [
        | inr other ↦
            let ended : count ≡ count + 0 = omega arith in
            scan_stop f i count b at other ∙ ap done ended ∙ rw (next, other) refl
        | inl same ↦
            let is_a : b ≡ a = ground arith in
            let last : leb len (i + 1) ≡ true = ground arith in
            scan_match f i count (at ∙ ap some is_a) (omega arith) (omega arith)
            ∙ rw (last, next, same) refl
      ]
  scan-leading (suc n) (suc f) i count ends whole enough low small =
      let (b, at, next) = drop_next d i (omega arith) in
      elim (Bool-cases (b == a)) [
        | inr other ↦
            let ended : count ≡ count + 0 = omega arith in
            scan_stop f i count b at other ∙ ap done ended ∙ rw (next, other) refl
        | inl same ↦
            let is_a : b ≡ a = ground arith in
            let more : leb len (i + 1) ≡ false = ground arith in
            let rest =
              scan-leading n f (i + 1) (count + 1) (omega arith) whole (omega arith) (omega arith)
                small in
            let up : i + 1 ≡ suc i = omega arith in
            let size = leading a (take (suc n) (drop (i + 1) d)) in
            let sum : count + 1 + size ≡ count + suc size = omega arith in
            let tail : count + suc size ≡ count + leading a (take (suc (suc n)) (drop i d)) =
              ap (λ (k : ℕ). count + suc (leading a (take (suc n) (drop k d)))) up
              ∙ rw (next, same) refl in
            scan_match f i count (at ∙ ap some is_a) (omega arith) (omega arith)
            ∙ rw more refl
            ∙ rest
            ∙ ap done (sum ∙ tail)
      ]

-- The inspection by `memchr`, on a packet that is not empty, has less than 1000 bytes and lies within its
-- buffer, returns with one round of fuel a byte and one more. It counts nothing in fewer than 500 bytes,
-- and else only the bytes equal to the first that the packet begins with: it ends at the first other byte.
pub call_process_packet_no_sgx-leading :
    (fuel len a : ℕ) (d : List ℕ)
    → get_elem? d 0 ≡ some a
    → 1 ≤ len
    → len < 1000
    → len ≤ length d
    → len + 1 ≤ fuel
    → call_process_packet_no_sgx fuel d len
      ≡ done (if ltb len 500 then 0 else leading a (take len d))
unfolding call_process_packet_no_sgx
call_process_packet_no_sgx-leading zero len a d head some_byte small whole enough =
    absurd (omega arith)
call_process_packet_no_sgx-leading (suc f) zero a d head some_byte small whole enough =
    absurd (omega arith)
call_process_packet_no_sgx-leading (suc f) (suc n) a d head some_byte small whole enough =
    elim (Bool-cases (ltb (suc n) 500)) [
      | inl few ↦
          let none_long : sequence_len (suc n) ≡ 0 = ground arith in
          rw (few, none_long) (scan_short d (suc n) a f head)
      | inr many ↦
          let one_long : sequence_len (suc n) ≡ 1 = ground arith in
          rw (many, one_long)
            (scan-leading d (suc n) a head n (suc f) 0 0 (omega arith) whole (omega arith)
                (omega arith) (omega arith)
              ∙ ap done (omega arith))
    ]
