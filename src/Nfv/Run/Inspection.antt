-- ===== src/Nfv/Run/Inspection.antt =====
-- The server of NFV_Basic_SGX with the inspection in the enclave.
use sgx_nfv.Prelude.{
  ℕ, ◌≤◌, ◌<◌, ◌≡◌, ◌≢◌, ◌∙◌, refl, sym, Bool, true, false, some, List, [], ◌∷◌, ◌++◌, map, arith,
  length, length-append, ℤ, pos, Outcome, done, ◌>>=◌, >>=-eq-done,
}
use sgx_nfv.Packet.{ecall_process_packet}
use sgx_nfv.Packet.Count.{ecall_process_packet-IsLargest}
use sgx_nfv.Packet.Short.{ecall_process_packet_short}
use sgx_nfv.Click.{call_process_packet_sgx}
use sgx_nfv.Nfv.Text.{Bytes}
use sgx_nfv.Nfv.Client.{header}
use sgx_nfv.Nfv.Server.{got, Round, Handled, response, handle_connection_sgx}
use sgx_nfv.Nfv.Server.Request.{request, padding, handle_connection-request}
use sgx_nfv.Nfv.Run.{Setup, Accepted, accepted, Serving, peer, serve, run_server}
use sgx_nfv.Nfv.Run.Service.{up, serve_stops}

-- `call_process_packet_sgx(data, data_length)` in `handle_connection`, whose result is not used
unfoldable pub inspect : Bool → ℕ → Bytes → ℕ → Outcome ℤ
inspect success fuel d len = call_process_packet_sgx success fuel d len >>= λ n. done (pos n)

abbrev pub run_server_sgx : Bool → ℕ → Setup → List Accepted → Outcome Serving
run_server_sgx success fuel = run_server (handle_connection_sgx (inspect success fuel))

-- A client whose request comes in one piece.
abbrev pub whole : Bytes → List Round → Accepted
whole d rounds = accepted (record { allocated = true; first = got (request d); rounds = rounds })

-- How a request is handled that the enclave can inspect.
abbrev pub inspected : Bytes → Handled
inspected d = record {
  closes = 1;
  frees = 1;
  processed = some (d ++ padding (request d), length d);
  sent = some (response (pos 0));
}

-- Each request fits the first 1000 bytes and has 500 bytes of data or more.
abbrev pub Inspectable : List Bytes → Type 0
Inspectable [] = Unit
Inspectable (d ∷ ds) = (length (request d) ≤ 1000) × (500 ≤ length d) × Inspectable ds

inspect_short : (fuel len : ℕ) (d : Bytes) (r : ℤ) → len < 500 → inspect true fuel d len ≢ done r
unfolding inspect call_process_packet_sgx
inspect_short fuel len d r short h =
    let (n, e, _) = >>=-eq-done (ecall_process_packet fuel d len) _ h in
    ecall_process_packet_short fuel len n d short e

-- Where the enclave can be entered, one client that sends a whole request with fewer than 500 bytes of
-- data stops the server of NFV_Basic_SGX for all: it never waits in `accept` again, for however many
-- rounds the inspection runs, and whoever comes before and after.
pub run_server_sgx-short :
    (fuel : ℕ) (d : Bytes) (rounds : List Round) (before after : List Accepted) (s : Serving)
    → length (request d) ≤ 1000
    → length d < 500
    → run_server_sgx true fuel up (before ++ (whole d rounds ∷ after)) ≢ done s
unfolding run_server handle_connection_sgx
run_server_sgx-short fuel d rounds before after s room short e =
    let handle = handle_connection_sgx (inspect true fuel) in
    let (hs, serves, _) = >>=-eq-done (serve handle _) _ e in
    let never : (h : Handled) → handle (peer (whole d rounds)) ≢ done h = λ h k.
      let (r, got_r, _) =
        >>=-eq-done (inspect true fuel (d ++ padding (request d)) (length d)) _ (
          sym (handle_connection-request (inspect true fuel) (λ count. pos 0) d rounds room) ∙ k) in
      inspect_short fuel (length d) (d ++ padding (request d)) r short got_r in
    serve_stops handle (whole d rounds) never before after hs serves

inspect_done :
    (fuel : ℕ) (d rest : Bytes)
    → 500 ≤ length d
    → length d ≤ 1000
    → 1002 ≤ fuel
    → (r : ℤ) × (inspect true fuel (d ++ rest) (length d) ≡ done r)
unfolding inspect call_process_packet_sgx
inspect_done fuel d rest long room enough =
    let (n, counts, _) =
      ecall_process_packet-IsLargest fuel (length d) (d ++ rest) long (omega arith)
        (omega (arith, length-append d rest)) (omega arith) in
    (pos n, rw counts refl)

handle_inspected :
    (fuel : ℕ) (d : Bytes)
    → length (request d) ≤ 1000
    → 500 ≤ length d
    → 1002 ≤ fuel
    → handle_connection_sgx (inspect true fuel) (peer (whole d [])) ≡ done (inspected d)
unfolding handle_connection_sgx
handle_inspected fuel d room long enough =
    let (r, runs) =
      inspect_done fuel d (padding (request d)) long
        (omega (arith, length-append (header (length d)) d)) enough in
    handle_connection-request (inspect true fuel) (λ count. pos 0) d [] room ∙ rw runs refl

serve-inspected :
    (fuel : ℕ) (ds : List Bytes)
    → Inspectable ds
    → 1002 ≤ fuel
    → serve (handle_connection_sgx (inspect true fuel)) (map (λ d. whole d []) ds)
      ≡ done (map inspected ds)
unfolding serve
serve-inspected fuel [] h enough = refl
serve-inspected fuel (d ∷ ds) h enough =
    rw (handle_inspected fuel d h.0 h.1 enough, serve-inspected fuel ds h.2 enough) refl

-- Whole requests that fit the first 1000 bytes and have 500 bytes of data or more are all served, in order,
-- with 1002 rounds of fuel for the inspection of each: its data go to the enclave once, with their length,
-- and it gets the answer "OK:0", whatever the enclave counts; and the server waits for more.
pub run_server_sgx-inspected :
    (fuel : ℕ) (ds : List Bytes)
    → Inspectable ds
    → 1002 ≤ fuel
    → run_server_sgx true fuel up (map (λ d. whole d []) ds)
      ≡ done (record { opened = 1; closed = 0; returned = false; handled = map inspected ds })
unfolding run_server
run_server_sgx-inspected fuel ds h enough = rw (serve-inspected fuel ds h enough) refl
