-- ===== src/Ra/Transport/Single.antt =====
-- What a successful exchange of service_provider/network_ra.cpp has received.
use sgx_nfv.Prelude.{
  ℕ, zero, suc, ◌+◌, ◌≤◌, ◌<◌, ◌≡◌, refl, ap, ◌≢◌, Bool, true, false, not, ◌||◌, Option, none, some,
  List, [], ◌∷◌, ltb, if◌then◌else◌, length, take, drop, ◌++◌, ◌∙◌, length-append, length-take,
  length-drop, ℤ, pos, negsuc, Outcome, done, fault, arith, >>=-eq-done, ◌>>=◌,
}
use sgx_nfv.Nfv.Text.{format_int}
use sgx_nfv.Ra.Client.{Request}
use sgx_nfv.Ra.Crypto.{Bytes}
use sgx_nfv.Ra.Transport.{
  Peer, Exchange, buffer_size, received_at, current_response_size, covers, is_empty, receive,
  find_inet, transmit, send_request, given_or, header_size,
}
use sgx_nfv.Ra.Transport.Bounds.{buffer_size-eq}

-- A result of 0 comes neither from a failure nor from undefined behaviour.
after_failure :
    (b : Bool) (failure rest : Outcome Exchange) (e : Exchange)
    → failure ≢ done e
    → (if b then failure else rest) ≡ done e
    → (b ≡ false) × (rest ≡ done e)
after_failure true failure rest e differs h = absurd (differs h)
after_failure false failure rest e differs h = (refl, h)

after_given :
    {A : Type 0} (o : Option A) (failure : Outcome Exchange) (next : A → Outcome Exchange)
    (e : Exchange)
    → failure ≢ done e
    → given_or o failure next ≡ done e
    → (a : A) × (o ≡ some a) × (next a ≡ done e)
after_given none failure next e differs h = absurd (differs h)
after_given (some a) failure next e differs h = (a, refl, h)

skipped : (b : Bool) (x y : Outcome Exchange) → b ≡ false → (if b then x else y) ≡ y
skipped true x y h = cc
skipped false x y h = refl

taken : (b : Bool) (x y : Outcome Exchange) → b ≡ true → (if b then x else y) ≡ x
taken true x y h = refl
taken false x y h = cc

given :
    {A : Type 0} (o : Option A) (a : A) (failure : Outcome Exchange) (next : A → Outcome Exchange)
    → o ≡ some a
    → given_or o failure next ≡ next a
given o a failure next h = ap (λ o. given_or o failure next) h

bound :
    {A : Type 0} (m : Outcome A) (a : A) (next : A → Outcome Exchange)
    → m ≡ done a
    → (m >>= next) ≡ next a
bound m a next h = ap (λ m. m >>= next) h

last_round :
    (b : Bool) (x y : Outcome Exchange) (e : Exchange)
    → y ≢ done e
    → (if b then x else y) ≡ done e
    → (b ≡ true) × (x ≡ done e)
last_round true x y e differs h = (refl, h)
last_round false x y e differs h = absurd (differs h)

result_of : Outcome Exchange → ℤ
result_of (done e) = e.result
result_of _ = negsuc 0

-- a failure, of whatever resources
failed : (f e : Exchange) → e.result ≡ pos 0 → f.result ≡ negsuc 0 → done f ≢ done e
unfolding result_of
failed f e is_zero is_failure h =
    let same : f.result ≡ e.result = ap result_of h in ground (arith, same, is_zero, is_failure)

length-received_at :
    (block block' : Bytes) (offset : ℕ) (bytes : Bytes)
    → received_at block offset bytes ≡ done block'
    → (offset + length bytes ≤ length block) × (length block' ≡ length block)
unfolding received_at
length-received_at block block' offset bytes h =
    let fits : offset + length bytes ≤ length block = ground arith in
    let head = length-take offset block in
    let tail = length-drop (offset + length bytes) block in
    let parts = length-append (take offset block) (bytes ++ drop (offset + length bytes) block) in
    let parts' = length-append bytes (drop (offset + length bytes) block) in
    let written : take offset block ++ (bytes ++ drop (offset + length bytes) block) ≡ block' =
      ground arith in
    let size = ap (λ (l : Bytes). length l) written in
    (fits, omega (arith, head, tail, parts, parts', size, fits))

module _ (p : Peer) (request : Request) (e : Exchange) (succeeds : e.result ≡ pos 0) where
  -- A second round has no room for its offset.
  receive-second :
      (fuel : ℕ) (block : Bytes)
      → length block < 1000
      → receive p request fuel 1 1000 1000 (some block) ≢ done e
  unfolding receive
  receive-second zero block short h = cc
  receive-second (suc fuel) block short h =
      let (got, h1) =
        after_failure (not (p.realloc 1 (buffer_size request))) _ _ e (failed _ e succeeds refl)
          h in
      let (piece, is_piece, h2) = after_given (p.recv 1) _ _ e (failed _ e succeeds refl) h1 in
      let (block', written, h3) = >>=-eq-done (received_at block 1000 piece) _ h2 in
      let fits = length-received_at block block' 1000 piece written in omega (arith, fits.0, short)

  -- The first round was the last.
  receive-first :
      (fuel : ℕ)
      → request.size < 992
      → length (p.heap (8 + request.size)) ≡ 8 + request.size
      → receive p request fuel 0 0 0 none ≡ done e
      → (piece : Bytes) × (p.recv 0 ≡ some piece)
        × (length piece ≤ 8 + request.size)
        × (receive p request 1 0 0 0 none ≡ done e)
  unfolding receive
  receive-first zero small fresh h = cc
  receive-first (suc fuel) small fresh h =
      let n = buffer_size-eq request (omega (arith, small)) in
      let (got, h1) =
        after_failure (not (p.realloc 0 (buffer_size request))) _ _ e (failed _ e succeeds refl)
          h in
      let (piece, is_piece, h2) = after_given (p.recv 0) _ _ e (failed _ e succeeds refl) h1 in
      let (block, written, h3) =
        >>=-eq-done (received_at (p.heap (buffer_size request)) 0 piece) _ h2 in
      let (size, is_size, h4) = >>=-eq-done (current_response_size block) _ h3 in
      let (fits, same) = length-received_at _ block 0 piece written in
      let all : length (p.heap (buffer_size request)) ≡ 8 + request.size =
        ap (λ (k : ℕ). length (p.heap k)) n ∙ fresh ∙ refl in
      let short : length block < 1000 = omega (arith, same, all, small) in
      let (ended, is_end) =
        last_round (covers 1000 size || is_empty piece) _ _ e (receive-second fuel block short)
          h4 in
      let once : receive p request 1 0 0 0 none ≡ done e =
        skipped _ _ _ got
        ∙ given _ piece _ _ is_piece
        ∙ bound _ block _ written
        ∙ bound _ size _ is_size
        ∙ taken _ _ _ ended
        ∙ is_end in
      (piece, is_piece, omega (arith, fits, all), once)

  transmit-inverted :
      (fuel : ℕ) (infos : List Bool)
      → transmit p request fuel infos ≡ done e
      → (receive p request fuel 0 0 0 none ≡ done e)
        × (transmit p request 1 infos ≡ receive p request 1 0 0 0 none)
  unfolding transmit
  transmit-inverted fuel [] h = absurd (failed _ e succeeds refl h)
  transmit-inverted fuel (info ∷ infos) h =
      let unsent =
        failed (record { result = negsuc 0; sockets = 1; infos = 1; blocks = 0; sent = [] }) e
          succeeds refl in
      let (inet, h1) = after_failure (not (find_inet (info ∷ infos))) fault _ e (λ k. cc) h in
      let (connected, h2) = after_failure (not p.connect) _ _ e unsent h1 in
      let (whole, h3) =
        after_failure (ltb (header_size + length request.body) (buffer_size request)) fault _ e
          (λ k. cc) h2 in
      let (is_sent, h4) = after_failure (not (p.send request)) _ _ e unsent h3 in
      (
        h4,
        skipped _ _ _ inet ∙ skipped _ _ _ connected ∙ skipped _ _ _ whole ∙ skipped _ _ _ is_sent,
      )

  send_request-inverted :
      (fuel : ℕ) (server_port : ℤ)
      → send_request p request fuel server_port ≡ done e
      → (receive p request fuel 0 0 0 none ≡ done e)
        × (send_request p request 1 server_port ≡ receive p request 1 0 0 0 none)
  unfolding send_request
  send_request-inverted fuel server_port h =
      let (opened, h1) = after_failure (not p.socket) _ _ e (failed _ e succeeds refl) h in
      let (digits, h2) =
        after_failure (ltb 99 (length (format_int server_port))) _ _ e (failed _ e succeeds refl)
          h1 in
      let (infos, found, h3) = after_given p.getaddrinfo _ _ e (failed _ e succeeds refl) h2 in
      let (h4, once) = transmit-inverted fuel infos h3 in
      (h4, skipped _ _ _ opened ∙ skipped _ _ _ digits ∙ given _ infos _ _ found ∙ once)

  -- Where a request of fewer than 992 bytes succeeds, the response was received in one piece of no more bytes
  -- than the request has with its header, and the loop ended after one round.
  pub send_request-Single :
      (fuel : ℕ) (server_port : ℤ)
      → request.size < 992
      → length (p.heap (8 + request.size)) ≡ 8 + request.size
      → send_request p request fuel server_port ≡ done e
      → (piece : Bytes) × (p.recv 0 ≡ some piece)
        × (length piece ≤ 8 + request.size)
        × (send_request p request 1 server_port ≡ done e)
  send_request-Single fuel server_port small fresh h =
      let (received, once) = send_request-inverted fuel server_port h in
      let (piece, is_piece, fits, ended) = receive-first fuel small fresh received in
      (piece, is_piece, fits, once ∙ ended)
