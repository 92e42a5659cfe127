-- ===== src/Witness/Transport.antt =====
-- Runs of the attestation client, and its exchanges with a peer.
use sgx_nfv.Prelude.{
  none, ℕ, ◌+◌, ◌≤◌, ◌≡◌, refl, true, false, Option, some, [], ◌∷◌, arith, length, replicate,
  length-replicate, pos, done, fault,
}
use sgx_nfv.Nfv.Text.{format_int, decimal}
use sgx_nfv.Loader.{Disk}
use sgx_nfv.Ra.Client.Program.{ClientRun, client_main, client_main-discloses}
use sgx_nfv.Ra.Enclave.{SgxStatus}
use sgx_nfv.Ra.Enclave.KeyPair.{Ecc, bytes_out}
use sgx_nfv.Ra.Client.{Request, msg0}
use sgx_nfv.Ra.Crypto.{Bytes}
use sgx_nfv.Ra.Transport.{
  Peer, Exchange, received_at, current_response_size, receive, find_inet, transmit, send_request,
  port, ra_network_send_receive,
}
use sgx_nfv.Ra.Transport.Bounds.{IsReached, send_request-fault}
use sgx_nfv.Ra.Transport.Leaks.{ra_network_send_receive-Loses}
use sgx_nfv.Ra.Transport.Single.{send_request-Single}

-- A peer at the second address that answers with one piece and closes.
abbrev peer : Bytes → Peer
peer piece = record {
  socket = true;
  getaddrinfo = some (false ∷ true ∷ []);
  connect = true;
  send = λ request. true;
  realloc = λ i n. true;
  heap = λ n. replicate n 0;
  recv = λ i. elim i [ ℕ.zero ↦ some piece | ℕ.suc j ↦ some [] ];
}

-- a response header with an empty body
abbrev header : Bytes
header = 0 ∷ 0 ∷ 0 ∷ 0 ∷ 0 ∷ 0 ∷ 0 ∷ 0 ∷ []

abbrev exchanged : Exchange
exchanged = record { result = pos 0; sockets = 1; infos = 1; blocks = 1; sent = msg0 7 ∷ [] }

exchange-run : send_request (peer header) (msg0 7) 2 port ≡ done exchanged
unfolding send_request transmit find_inet receive received_at current_response_size format_int
    decimal
exchange-run = refl

-- what the caller's pointer holds
abbrev given : Option ℕ
given = some 77

network-run :
    ra_network_send_receive (peer header) 2 77 true (some (msg0 7)) true
    ≡ done (pos 0, some 77, some exchanged)
unfolding ra_network_send_receive send_request transmit find_inet receive received_at
    current_response_size format_int decimal
network-run = refl

ra_network_send_receive-Loses_example :
    (request : Request) × (e : Exchange) × (some (msg0 7) ≡ some request)
    × (given ≡ some 77)
    × (some exchanged ≡ some e)
    × (e.sent ≡ request ∷ [])
    × (e.blocks ≡ 1)
    × (e.infos ≡ 1)
    × (e.sockets ≡ 1)
ra_network_send_receive-Loses_example =
    ra_network_send_receive-Loses (peer header) 2 77 true true (some (msg0 7)) given
      (some exchanged) network-run

send_request-Single_example :
    (piece : Bytes) × (some header ≡ some piece)
    × (length piece ≤ 8 + 4)
    × (send_request (peer header) (msg0 7) 1 port ≡ done exchanged)
send_request-Single_example =
    send_request-Single (peer header) (msg0 7) exchanged refl 2 port (omega arith) refl exchange-run

-- A response of thirteen bytes to a message 0 of twelve.
reached : IsReached (peer (replicate 13 1)) (msg0 7) false (true ∷ [])
unfolding find_inet
reached = record {
  socket = refl;
  getaddrinfo = refl;
  inet = refl;
  connect = refl;
  whole = omega arith;
  send = refl;
}

send_request-fault_example : send_request (peer (replicate 13 1)) (msg0 7) 1 port ≡ fault
send_request-fault_example =
    send_request-fault (peer (replicate 13 1)) (msg0 7) false (true ∷ []) 0 (replicate 13 1) reached
      (omega arith) refl refl refl (omega arith)

-- The SDK gives a key and then fails to close the context.
abbrev unclosed : Ecc
unclosed = record {
  open_context = SgxStatus.success;
  create_key_pair = (SgxStatus.success, replicate 32 3);
  close_context = SgxStatus.unexpected;
}

-- No enclave: its token is not there, and the SDK creates none.
abbrev no_enclave : Disk
no_enclave = record {
  fopen_rb = false;
  fopen_wb = true;
  read_num = 0;
  saved = [];
  created = λ token. none;
  freopen = true;
  write_num = 0;
}

client_main-discloses_example :
    (r : ClientRun) × (client_main no_enclave
        (record { random = 2; key_pair = 0; stack = pos 77 })
        unclosed
      ≡ done r)
    × (r.result ≡ pos 0)
    × (bytes_out r.ocalls ≡ [])
    × (r.opened ≡ r.closed + 0)
    × (r.number ≡ pos 77)
client_main-discloses_example =
    client_main-discloses no_enclave (record { random = 2; key_pair = 0; stack = pos 77 }) unclosed
      (length-replicate {A = ℕ} 32 3)
