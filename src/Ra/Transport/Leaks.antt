-- ===== src/Ra/Transport/Leaks.antt =====
-- What service_provider/network_ra.cpp leaves open, and what its caller gets.
use sgx_nfv.Prelude.{
  ℕ, zero, suc, ◌+◌, ◌≡◌, refl, Bool, true, false, not, ◌||◌, Option, none, some, List, [], ◌∷◌,
  ltb, if◌then◌else◌, length, ℤ, pos, negsuc, Outcome, done, fault, spinning, ◌>>=◌, bit, arith,
  Whenever, Whenever-bind, Whenever-if, >>=-eq-done,
}
use mathlib.Core.Path.{subst}
use sgx_nfv.Nfv.Text.{format_int}
use sgx_nfv.Packet.{add_int}
use sgx_nfv.Ra.Client.{Request}
use sgx_nfv.Ra.Crypto.{Bytes}
use sgx_nfv.Ra.Transport.{
  header_size, ends, held, given_or, Peer, Exchange, buffer_size, block_or, received_at,
  current_response_size, covers, is_empty, receive, find_inet, transmit, send_request, port,
  ra_network_send_receive,
}

spinning-Whenever : {A : Type 0} (P : A → Type 0) → Whenever P spinning
unfolding Whenever
spinning-Whenever P = tt

fault-Whenever : {A : Type 0} (P : A → Type 0) → Whenever P fault
unfolding Whenever
fault-Whenever P = tt

-- An exchange that comes to an end leaves its socket open. Where its result is 0 the request was sent, and
-- the response and the list of addresses stay allocated.
pub record LeavesOpen (p : Peer) (request : Request) (e : Exchange) : Type 0 where
  pub sockets : e.sockets ≡ bit p.socket
  pub success :
      e.result ≡ pos 0
      → (e.blocks ≡ 1) × (e.infos ≡ 1) × (e.sent ≡ request ∷ []) × (p.socket ≡ true)

given_or-Whenever :
    {A : Type 0} (P : Exchange → Type 0) (o : Option A) (failure : Outcome Exchange)
    (next : A → Outcome Exchange)
    → Whenever P failure
    → ((a : A) → Whenever P (next a))
    → Whenever P (given_or o failure next)
given_or-Whenever P none failure next h k = h
given_or-Whenever P (some b) failure next h k = k b

unopened-LeavesOpen :
    (p : Peer) (request : Request)
    → not p.socket ≡ true
    → Whenever
        (LeavesOpen p request)
        (done (record { result = negsuc 0; sockets = 0; infos = 0; blocks = 0; sent = [] }))
unfolding Whenever
unopened-LeavesOpen p request h = record { sockets = ground (arith, h); success = λ e. cc }

module _ (p : Peer) (request : Request) (has_socket : p.socket ≡ true) where
  ends-LeavesOpen :
      (ret : ℤ) (blocks : ℕ)
      → (ret ≡ pos 0 → blocks ≡ 1)
      → Whenever (LeavesOpen p request) (ends p request ret blocks)
  unfolding Whenever
  ends-LeavesOpen ret blocks h = record {
    sockets = ground (arith, has_socket);
    success = λ e. (h e, refl, refl, has_socket);
  }

  receive-LeavesOpen :
      (fuel i received offset : ℕ) (block : Option Bytes)
      → Whenever (LeavesOpen p request) (receive p request fuel i received offset block)
  unfolding receive
  receive-LeavesOpen zero i received offset block = spinning-Whenever (LeavesOpen p request)
  receive-LeavesOpen (suc fuel) i received offset block =
      let P = LeavesOpen p request in
      Whenever-bind P _ _ λ received'.
        Whenever-if P (not (p.realloc i (buffer_size request))) _ _
          (λ h. ends-LeavesOpen (negsuc 0) (held block) (λ e. cc))
          λ h. given_or-Whenever P (p.recv i) _ _ (ends-LeavesOpen (negsuc 0) 1 (λ e. cc)) λ piece.
            Whenever-bind P (received_at (block_or p (buffer_size request) block) offset piece) _
              λ b. Whenever-bind P (add_int offset 1000) _ λ offset'.
                Whenever-bind P (current_response_size b) _ λ size.
                  Whenever-if P (covers received' size || is_empty piece) _ _
                    (λ h. ends-LeavesOpen (pos 0) 1 (λ e. refl))
                    λ h. receive-LeavesOpen fuel (i + 1) received' offset' (some b)

  early-LeavesOpen :
      (infos : ℕ)
      → Whenever
          (LeavesOpen p request)
          (done (record { result = negsuc 0; sockets = 1; infos = infos; blocks = 0; sent = [] }))
  unfolding Whenever
  early-LeavesOpen infos = record { sockets = ground (arith, has_socket); success = λ e. cc }

  transmit-LeavesOpen :
      (fuel : ℕ) (infos : List Bool)
      → Whenever (LeavesOpen p request) (transmit p request fuel infos)
  unfolding transmit
  transmit-LeavesOpen fuel [] = early-LeavesOpen 0
  transmit-LeavesOpen fuel (info ∷ infos) =
      let P = LeavesOpen p request in
      Whenever-if P (not (find_inet (info ∷ infos))) _ _ (λ h. fault-Whenever P)
        λ h.
          Whenever-if P (not p.connect) _ _ (λ h. early-LeavesOpen 1)
            λ h.
              Whenever-if P (ltb (header_size + length request.body) (buffer_size request)) _ _
                (λ h. fault-Whenever P)
                λ h.
                  Whenever-if P (not (p.send request)) _ _ (λ h. early-LeavesOpen 1)
                    λ h. receive-LeavesOpen fuel 0 0 0 none

-- Whatever the peer does, an exchange that ends leaves its socket open, if it got one; and where its result
-- is 0, the request was sent, and the response and the list of addresses stay allocated.
send_request-LeavesOpen :
    (p : Peer) (request : Request) (fuel : ℕ) (server_port : ℤ)
    → Whenever (LeavesOpen p request) (send_request p request fuel server_port)
unfolding send_request
send_request-LeavesOpen p request fuel server_port =
    let P = LeavesOpen p request in
    Whenever-if P (not p.socket) _ _ (λ h. unopened-LeavesOpen p request h)
      λ h.
        let has_socket : p.socket ≡ true = ground (arith, h) in
        Whenever-if P (ltb 99 (length (format_int server_port))) _ _
          (λ h. early-LeavesOpen p request has_socket 0)
          λ h.
            given_or-Whenever P p.getaddrinfo _ _ (early-LeavesOpen p request has_socket 0)
              λ infos. transmit-LeavesOpen p request has_socket fuel infos

abbrev Returned : Type 0
Returned = ℤ × Option ℕ × Option Exchange

-- A result of 0 is not that of an early return.
late :
    (b : Bool) (rest : Outcome Returned) (out : Option ℕ) (x : Option Exchange)
    → (if b then done (negsuc 0, none, none) else rest) ≡ done (pos 0, out, x)
    → (b ≡ false) × (rest ≡ done (pos 0, out, x))
late true rest out x h = ground arith
late false rest out x h = (refl, h)

of_LeavesOpen :
    (p : Peer) (request : Request) (e : Exchange)
    → Whenever (LeavesOpen p request) (done e)
    → LeavesOpen p request e
unfolding Whenever
of_LeavesOpen p request e h = h

-- Where the transport returns 0, the pointers were given and the request was sent; the response is a
-- block that stays allocated and of which the caller gets no address, only the indeterminate value of a
-- local; and the socket and the list of addresses stay open.
pub ra_network_send_receive-Loses :
    (p : Peer) (fuel indeterminate : ℕ) (server_url p_resp : Bool) (p_req : Option Request)
    (out : Option ℕ) (x : Option Exchange)
    → ra_network_send_receive p fuel indeterminate server_url p_req p_resp ≡ done (pos 0, out, x)
    → (request : Request) × (e : Exchange) × (p_req ≡ some request)
      × (out ≡ some indeterminate)
      × (x ≡ some e)
      × (e.sent ≡ request ∷ [])
      × (e.blocks ≡ 1)
      × (e.infos ≡ 1)
      × (e.sockets ≡ 1)
unfolding ra_network_send_receive
ra_network_send_receive-Loses p fuel indeterminate server_url p_resp none out x h = ground arith
ra_network_send_receive-Loses p fuel indeterminate server_url p_resp (some request) out x h =
    let next : Exchange → Outcome Returned = λ e. done (e.result, some indeterminate, some e) in
    let rest : Outcome Returned = send_request p request fuel port >>= next in
    let (given, h1) =
      late (not server_url) (if not p_resp then done (negsuc 0, none, none) else rest) out x h in
    let (given', h2) = late (not p_resp) rest out x h1 in
    let (e, sent, same) = >>=-eq-done (send_request p request fuel port) next h2 in
    let kept = of_LeavesOpen p request e (
      subst (λ o. Whenever (LeavesOpen p request) o) sent
        (send_request-LeavesOpen p request fuel port)) in
    let zero : e.result ≡ pos 0 = ground (arith, same) in
    let (blocks, infos, is_sent, has_socket) = kept.success zero in
    let one : e.sockets ≡ 1 = ground (arith, kept.sockets, has_socket) in
    (request, e, refl, ground (arith, same), ground (arith, same), is_sent, blocks, infos, one)
