-- ===== src/Nfv/Server/Newlines.antt =====
-- What `process_packet` of NFV_Basic_No_SGX/App.cpp counts.
use sgx_nfv.Prelude.{
  ℕ, zero, suc, ◌+◌, ◌≤◌, ◌<◌, ◌≡◌, refl, ◌∙◌, ap, [], ◌∷◌, ◌==◌, arith, if◌then◌else◌, length,
  take, drop, drop_next, pos, done,
}
use native.Mathlib.Nat.{zero-add}
use sgx_nfv.Nfv.Text.{Bytes}
use sgx_nfv.Packet.{add_int}
use sgx_nfv.Nfv.Server.{count_from, process_packet}

-- The number of line feeds among some bytes.
unfoldable pub newlines : Bytes → ℕ
newlines [] = 0
newlines (b ∷ bs) = let rest = newlines bs in if b == 0x0a then suc rest else rest

pub newlines_le : (d : Bytes) → newlines d ≤ length d
unfolding newlines
newlines_le [] = omega arith
newlines_le (x ∷ d) = ground (arith, newlines_le d)

count_from-newlines :
    (n : ℕ) (d : Bytes) (i count : ℕ)
    → i + n ≤ length d
    → i + n < 0x8000_0000
    → count ≤ i
    → count_from n d i count ≡ done (count + newlines (take n (drop i d)))
unfolding count_from newlines
count_from-newlines zero d i count inside small low = ap done (omega arith)
count_from-newlines (suc n) d i count inside small low =
    let (b, at, next) = drop_next d i (omega arith) in
    let one : ℕ = if b == 0x0a then 1 else 0 in
    let bit : one ≤ 1 = ground arith in
    let add : add_int count one ≡ done (count + one) = ground arith in
    let up : add_int i 1 ≡ done (suc i) = ground arith in
    let step =
      count_from-newlines n d (suc i) (count + one) (omega arith) (omega arith) (omega arith) in
    let sum : count + one + newlines (take n (drop (suc i) d))
        ≡ count + newlines (b ∷ take n (drop (suc i) d)) =
      ground arith in
    let round : count_from (suc n) d i count ≡ count_from n d (suc i) (count + one) =
      ground (arith, at, add, up) in
    round ∙ step ∙ ap done sum ∙ rw next refl

-- On a buffer that holds the announced bytes, the count is that of the line feeds among them, and
-- nothing is read out of bounds.
pub process_packet-newlines :
    (d : Bytes) (len : ℕ)
    → len ≤ length d
    → len < 0x8000_0000
    → process_packet d len ≡ done (pos (newlines (take len d)))
unfolding process_packet
process_packet-newlines d len inside small =
    rw
      (
        count_from-newlines len d 0 0 (omega arith) (omega arith) (omega arith),
        zero-add (newlines (take len d)),
      )
      refl
