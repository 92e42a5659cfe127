-- ===== src/Packet/Short.antt =====
-- The inspection of packets of less than 500 bytes.
use sgx_nfv.Prelude.{
  ℕ, zero, suc, ◌+◌, ◌<◌, ◌≡◌, ◌≢◌, inl, inr, List, arith, get_elem?, done, Option-cases,
}
use sgx_nfv.Packet.{sub_uint, found, search, sequence_len, ecall_process_packet}

search_empty : (f last c n : ℕ) (d : List ℕ) → search d last 0 f 0 c ≢ done n
unfolding search found
search_empty zero last c n d e = cc
search_empty (suc f) last c n d e = elim (Option-cases (get_elem? d 0)) [
  | inl nothing ↦ ground arith
  | inr (a, ea) ↦ ground (arith, search_empty f last (c + 1) n d)
]

-- Of a packet shorter than 500 bytes `ecall_process_packet` never returns a count, however long it
-- runs: each round matches the empty prefix and leaves the index where it is.
pub ecall_process_packet_short :
    (fuel len n : ℕ) (d : List ℕ) → len < 500 → ecall_process_packet fuel d len ≢ done n
unfolding ecall_process_packet
ecall_process_packet_short fuel len n d h =
    let e : sequence_len len ≡ 0 = omega arith in rw e (search_empty fuel (sub_uint len 0) 0 n d)
