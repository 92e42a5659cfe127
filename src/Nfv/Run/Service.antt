-- ===== src/Nfv/Run/Service.antt =====
-- The servers with many clients.
use sgx_nfv.Prelude.{
  ℕ, ◌≤◌, ◌<◌, ◌≡◌, ◌≢◌, refl, Bool, true, false, Option, none, some, List, [], ◌∷◌, ◌++◌, map,
  length, replicate, ℤ, pos, Outcome, done, >>=-eq-done,
}
use sgx_nfv.Nfv.Text.{Bytes}
use sgx_nfv.Nfv.Server.{
  got, Round, Peer, Handled, handle_connection, handle_connection_no_sgx, parse, starts_with, blank,
}
use sgx_nfv.Nfv.Server.Request.{request, padding}
use sgx_nfv.Nfv.Server.Newlines.{newlines}
use sgx_nfv.Nfv.Server.Reply.{hung_up, handle_connection-hung_up}
use sgx_nfv.Nfv.Client.{Net, Sent, header, has_inet, send_data}
use sgx_nfv.Nfv.Client.Exchange.{send_data-handle_connection}
use sgx_nfv.Nfv.Run.{
  Setup, Accepted, accepted, not_accepted, Serving, peer, serve, run_server, run_server_no_sgx,
}

-- What comes to the server: a client with its data and its own network, or a failure of `accept`.
pub data Event : Type 0 where
  asks : (d : Bytes) (rounds : List Round) (entries : List Bool) (fresh : Bytes) → Event
  fails : (allocated : Bool) → Event

-- The service as its clients see it: a number for each request, and nothing else.
unfoldable pub service : List Event → List (Option ℕ)
service [] = []
service (asks d rounds entries fresh ∷ es) = some (newlines d) ∷ service es
service (fails allocated ∷ es) = none ∷ service es

abbrev pub arrival : Event → Accepted
arrival (asks d rounds entries fresh) =
    accepted (record { allocated = true; first = got (request d); rounds = rounds })
arrival (fails allocated) = not_accepted allocated

-- Each request fits the first 1000 bytes, and each client finds an address.
abbrev pub Fits : List Event → Type 0
Fits [] = Unit
Fits (asks d rounds entries fresh ∷ es) =
    (length (request d) ≤ 1000) × (has_inet entries ≡ true) × Fits es
Fits (fails allocated ∷ es) = Fits es

abbrev pub net : List Bool → Bytes → Bytes → Net
net entries fresh reply = record {
  socket = true;
  addrinfo = some entries;
  connect = true;
  send_header = true;
  send_data = true;
  fresh = fresh;
  reply = got reply;
}

-- The connection was closed once, and what the client gets from `sendData` is the number.
pub data Answered : Event → Handled → Option ℕ → Type 0 where
  asked :
      (d : Bytes) (rounds : List Round) (entries : List Bool) (fresh : Bytes) (h : Handled)
      (reply : Bytes) (s : Sent) (n : ℕ)
      → h.closes ≡ 1
      → h.sent ≡ some reply
      → send_data d (length d) (net entries fresh reply) ≡ done s
      → s.result ≡ pos n
      → Answered (asks d rounds entries fresh) h (some n)
  unanswered :
      (allocated : Bool) (h : Handled)
      → h.closes ≡ 1
      → h.sent ≡ none
      → h.processed ≡ none
      → Answered (fails allocated) h none

pub data AllAnswered : List Event → List Handled → List (Option ℕ) → Type 0 where
  none_left : AllAnswered [] [] []
  answered :
      {e : Event} {h : Handled} {o : Option ℕ} {es : List Event} {hs : List Handled}
      {os : List (Option ℕ)}
      → Answered e h o
      → AllAnswered es hs os
      → AllAnswered (e ∷ es) (h ∷ hs) (o ∷ os)

-- After a failure of `accept` the buffer stays blank, which is no request.
handle_connection_failed :
    (allocated : Bool)
    → (h : Handled) × (handle_connection_no_sgx (peer (not_accepted allocated)) ≡ done h)
      × Answered (fails allocated) h none
unfolding handle_connection_no_sgx handle_connection parse starts_with blank
handle_connection_failed true = (
  record { closes = 1; frees = 1; processed = none; sent = none },
  refl,
  Answered.unanswered true _ refl refl refl,
)
handle_connection_failed false = (
  record { closes = 1; frees = 0; processed = none; sent = none },
  refl,
  Answered.unanswered false _ refl refl refl,
)

serve-service :
    (es : List Event)
    → Fits es
    → (hs : List Handled) × (serve handle_connection_no_sgx (map arrival es) ≡ done hs)
      × AllAnswered es hs (service es)
unfolding serve service
serve-service [] fits = ([], refl, none_left)
serve-service (asks d rounds entries fresh ∷ es) fits =
    let (reply, serves, gets) = send_data-handle_connection d entries fresh rounds fits.0 fits.1 in
    let (hs, rest, all) = serve-service es fits.2 in
    let h : Handled = record {
      closes = 1;
      frees = 1;
      processed = some (d ++ padding (request d), length d);
      sent = some reply;
    } in
    (
      h ∷ hs,
      rw (serves, rest) refl,
      answered (asked d rounds entries fresh h reply _ (newlines d) refl refl gets refl) all,
    )
serve-service (fails allocated ∷ es) fits =
    let (h, gives_up, one) = handle_connection_failed allocated in
    let (hs, rest, all) = serve-service es fits in
    (h ∷ hs, rw (gives_up, rest) refl, answered one all)

abbrev pub up : Setup
up = record { socket = true; bind = true; listen = true }

-- The server of NFV_Basic_No_SGX, once it listens, is a service that counts line feeds: whatever clients
-- come and however often `accept` fails between them, each client gets from `sendData` the number of
-- line feeds in its own data, each connection is closed once, nothing is sent for a failed `accept`, and
-- the server still listens. Each request fits the first 1000 bytes and comes in one piece.
pub run_server_no_sgx-service :
    (es : List Event)
    → Fits es
    → (s : Serving) × (run_server_no_sgx up (map arrival es) ≡ done s)
      × (s.returned ≡ false)
      × AllAnswered es s.handled (service es)
unfolding run_server
run_server_no_sgx-service es fits =
    let (hs, runs, all) = serve-service es fits in
    (record { opened = 1; closed = 0; returned = false; handled = hs }, rw runs refl, refl, all)

module _ (handle : Peer → Outcome Handled) where
  -- A connection that does not end keeps all later ones waiting.
  pub serve_stops :
      (c : Accepted)
      → ((h : Handled) → handle (peer c) ≢ done h)
      → (before after : List Accepted) (hs : List Handled)
      → serve handle (before ++ (c ∷ after)) ≢ done hs
  unfolding serve
  serve_stops c never [] after hs e =
      let (h, got_h, e1) = >>=-eq-done (handle (peer c)) _ e in never h got_h
  serve_stops c never (b ∷ before) after hs e =
      let (h, got_h, e1) = >>=-eq-done (handle (peer b)) _ e in
      let (rest, got_rest, e2) = >>=-eq-done (serve handle (before ++ (c ∷ after))) _ e1 in
      serve_stops c never before after rest got_rest

-- One peer that sends a header and less than the announced data, fewer than 0x7fff_0000 bytes, in a first
-- piece of at most 1000 bytes, and then hangs up, stops the service for all, as long as every `realloc` of
-- the loop succeeds and extends the block in place: the server never waits in `accept` again after it,
-- whoever comes before and after. A `realloc` that fails would make the loop give up, and the server
-- accept again.
pub run_server-hung_up :
    (process : Bytes → ℕ → Outcome ℤ) (report : ℤ → ℤ) (n k : ℕ) (d fresh : Bytes)
    (before after : List Accepted) (s : Serving)
    → length (header n ++ d) ≤ 1000
    → length d < n
    → n < 0x7fff_0000
    → run_server (handle_connection process report) up (
        before
        ++ (accepted (record {
          allocated = true;
          first = got (header n ++ d);
          rounds = replicate k (hung_up fresh);
        })
            ∷ after))
      ≢ done s
unfolding run_server
run_server-hung_up process report n k d fresh before after s room short small e =
    let (hs, serves, e1) = >>=-eq-done (serve (handle_connection process report) _) _ e in
    serve_stops (handle_connection process report) _
      (λ h. handle_connection-hung_up process report n k d fresh h room short small) before after hs
      serves
