-- ===== src/Ra/Transport/Bounds.antt =====
-- The block into which service_provider/network_ra.cpp receives a response has the size of the request.
use sgx_nfv.Prelude.{
  ℕ, suc, ◌+◌, ◌≤◌, ◌<◌, ◌≡◌, refl, ◌∙◌, Bool, true, false, none, some, List, ◌∷◌, ltb, length,
  fault, arith,
}
use sgx_nfv.Nfv.Text.{format_int, decimal}
use sgx_nfv.Ra.Client.{Request}
use sgx_nfv.Ra.Crypto.{Bytes}
use sgx_nfv.Ra.Transport.{
  Peer, buffer_size, received_at, receive, find_inet, transmit, send_request, port,
}

-- A peer with which nothing fails up to the receiving of the response.
pub record IsReached (p : Peer) (request : Request) (info : Bool) (infos : List Bool) : Type 0 where
  pub socket : p.socket ≡ true
  pub getaddrinfo : p.getaddrinfo ≡ some (info ∷ infos)
  pub inet : find_inet (info ∷ infos) ≡ true
  pub connect : p.connect ≡ true
  pub whole : request.size ≤ length request.body
  pub send : p.send request ≡ true

pub buffer_size-eq :
    (request : Request) → request.size < 0x7fff_fff0 → buffer_size request ≡ 8 + request.size
buffer_size-eq request small = ground arith

port_digits : ltb 99 (length (format_int port)) ≡ false
unfolding format_int decimal
port_digits = refl

send_request-receive :
    (p : Peer) (request : Request) (info : Bool) (infos : List Bool) (fuel : ℕ)
    → IsReached p request info infos
    → request.size < 0x7fff_fff0
    → send_request p request fuel port ≡ receive p request fuel 0 0 0 none
unfolding send_request transmit
send_request-receive p request info infos fuel r small =
    let n = buffer_size-eq request small in
    let there : ltb (8 + length request.body) (buffer_size request) ≡ false =
      ground (arith, n, r.whole) in
    simp (r.socket, port_digits, r.getaddrinfo, r.inet, r.connect, there, r.send)

-- The first round, up to the writing of the piece.
receive-first :
    (p : Peer) (request : Request) (fuel : ℕ) (piece : Bytes)
    → request.size < 0x7fff_fff0
    → p.realloc 0 (8 + request.size) ≡ true
    → length (p.heap (8 + request.size)) ≡ 8 + request.size
    → p.recv 0 ≡ some piece
    → 8 + request.size < length piece
    → receive p request (suc fuel) 0 0 0 none ≡ fault
unfolding receive received_at
receive-first p request fuel piece small alloc fresh got large =
    let n = buffer_size-eq request small in
    let over : ltb (length (p.heap (8 + request.size))) (0 + length piece) ≡ true =
      ground (arith, fresh, large) in
    simp (n, alloc, got, over)

-- Where nothing fails before it, a first piece of the response that is longer than the request with its
-- header is written past the end of the block, whatever it holds.
pub send_request-fault :
    (p : Peer) (request : Request) (info : Bool) (infos : List Bool) (fuel : ℕ) (piece : Bytes)
    → IsReached p request info infos
    → request.size < 0x7fff_fff0
    → p.realloc 0 (8 + request.size) ≡ true
    → length (p.heap (8 + request.size)) ≡ 8 + request.size
    → p.recv 0 ≡ some piece
    → 8 + request.size < length piece
    → send_request p request (suc fuel) port ≡ fault
send_request-fault p request info infos fuel piece r small alloc fresh got large =
    send_request-receive p request info infos (suc fuel) r small
    ∙ receive-first p request fuel piece small alloc fresh got large
