-- ===== src/Packet/Count.antt =====
-- The inspection of packets of 500 bytes or more.
use sgx_nfv.Prelude.{
  ℕ, zero, suc, ◌+◌, ◌-◌, ◌/◌, ◌≤◌, ◌<◌, ◌≡◌, ◌∙◌, ap, inl, inr, true, false, some, List, arith,
  get_elem?, length, done, ◌==◌, ltb, leb, Bool-cases,
}
use native.Mathlib.Nat.{add-zero}
use sgx_nfv.Packet.{read, add_int, sub_uint, found, search, sequence_len, ecall_process_packet}
use sgx_nfv.Packet.Packing.{Occurs, IsLargest, IsLargest-end, IsLargest-skip, IsLargest-jump}
use sgx_nfv.Packet.Compare.{get_elem?-within, found_decides}

-- The packet: `len` bytes of a buffer that holds at least as many, the prefix not empty, and the
-- length in the range of `int`.
module _ (d : List ℕ) (len s : ℕ) (some_prefix : 0 < s) (fits : s ≤ len) (whole : len ≤ length d)
    (small : len < 0x8000_0000) where
  pub search_end : (f i c : ℕ) → len < i + s → search d (len - s) s (suc f) i c ≡ done c
  unfolding search
  search_end f i c h = let e : leb i (len - s) ≡ false = ground arith in rw e

  pub search_skip :
      (f i c : ℕ)
      → i + s ≤ len
      → ¬ Occurs d s i
      → found d i s 0 ≡ done false
      → search d (len - s) s (suc f) i c ≡ search d (len - s) s f (i + 1) c
  unfolding search
  search_skip f i c h no_copy e =
      let (a, ea) = get_elem?-within d 0 (omega arith) in
      let (b, eb) = get_elem?-within d i (omega arith) in
      let low : leb i (len - s) ≡ true = ground arith in
      let room : ltb (i + 1) 0x8000_0000 ≡ true = ground arith in
      elim (Bool-cases (a == b)) [
        | inl same ↦ rw (low, ea, read, eb, same, e, room, add_int)
        | inr differ ↦ rw (low, ea, read, eb, differ, room, add_int)
      ]

  pub search_jump :
      (f i c : ℕ)
      → i + s ≤ len
      → c ≤ i
      → Occurs d s i
      → found d i s 0 ≡ done true
      → search d (len - s) s (suc f) i c ≡ search d (len - s) s f (i + s) (c + 1)
  unfolding search
  search_jump f i c h ci o e =
      let (a, ea) = get_elem?-within d 0 (omega arith) in
      let at : get_elem? d (i + 0) ≡ get_elem? d 0 = o 0 some_prefix in
      let eb : get_elem? d i ≡ some a = rw (add-zero i) at at ∙ ea in
      let low : leb i (len - s) ≡ true = ground arith in
      let same : a == a ≡ true = ground arith in
      let room : ltb (i + s) 0x8000_0000 ≡ true = ground arith in
      let room' : ltb (c + 1) 0x8000_0000 ≡ true = ground arith in
      rw (low, ea, read, eb, same, e, room', add_int, room)

  pub search-IsLargest :
      (f i c : ℕ)
      → len < f + i
      → c ≤ i
      → (n : ℕ) × (search d (len - s) s (suc f) i c ≡ done (c + n)) × IsLargest d len s i n
  search-IsLargest zero i c enough ci = (
    0,
    search_end zero i c (omega arith) ∙ ap done (omega arith),
    IsLargest-end d len s i (omega arith),
  )
  search-IsLargest (suc f) i c enough ci = elim (Bool-cases (leb (i + s) len)) [
    | inr past ↦ (
      0,
      search_end (suc f) i c (ground arith) ∙ ap done (omega arith),
      IsLargest-end d len s i (ground arith),
    )
    | inl inside ↦
        let low : i + s ≤ len = ground arith in
        elim (found_decides d i s (omega arith)) [
          | inl (e, o) ↦
              let (n, run, l) = search-IsLargest f (i + s) (c + 1) (omega arith) (omega arith) in
              (
                n + 1,
                search_jump (suc f) i c low ci o e ∙ run ∙ ap done (omega arith),
                IsLargest-jump d len s i n o low l,
              )
          | inr (e, o) ↦
              let (n, run, l) = search-IsLargest f (i + 1) c (omega arith) (omega arith) in
              (n, search_skip (suc f) i c low o e ∙ run, IsLargest-skip d len s i n o l)
        ]
  ]

sub_uint-sequence_len :
    (len : ℕ) → len < 0x1_0000_0000 → sub_uint len (sequence_len len) ≡ len - sequence_len len
sub_uint-sequence_len len h = omega arith

-- On a packet of 500 bytes or more, and less than 2 ^ 31, that lies within its buffer,
-- `ecall_process_packet` reads nothing outside the buffer, overflows nothing and returns: with fuel
-- for one round a byte and two more it gives the size of the largest set of places, no two of them
-- overlapping, where the first `length/500` bytes of the packet occur.
pub ecall_process_packet-IsLargest :
    (fuel len : ℕ) (d : List ℕ)
    → 500 ≤ len
    → len < 0x8000_0000
    → len ≤ length d
    → len + 2 ≤ fuel
    → (n : ℕ) × (ecall_process_packet fuel d len ≡ done n) × IsLargest d len (sequence_len len) 0 n
unfolding ecall_process_packet
ecall_process_packet-IsLargest zero len d big small whole enough = absurd (omega arith)
ecall_process_packet-IsLargest (suc f) len d big small whole enough =
    let (n, run, l) =
      search-IsLargest d len (len / 500) (omega arith) (omega arith) whole small f 0 0 (omega arith)
        (omega arith) in
    (n, rw (sub_uint-sequence_len len (omega arith)) (run ∙ ap done (omega arith)), l)
