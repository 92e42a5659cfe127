-- ===== src/Nfv/Run.antt =====
-- `run_server` of NFV_Basic_SGX/sgx/enclave_enclave1/untrusted/App.cpp and of NFV_Basic_No_SGX/App.cpp,
-- which are alike. The loop that accepts connections has no end: the model runs it over the connections
-- that come, and with none left the server waits in `accept`.
pub mod Service
pub mod Inspection
use sgx_nfv.Prelude.{ℕ, Bool, true, false, not, List, [], ◌∷◌, if◌then◌else◌, Outcome, done, ◌>>=◌}
use sgx_nfv.Nfv.Server.{Recv, Peer, Handled, handle_connection_no_sgx, handle_connection_sgx}

-- Whether `socket`, `bind` and `listen` succeed. Nothing tests the result of `setsockopt`.
pub record Setup : Type 0 where
  pub socket : Bool
  pub bind : Bool
  pub listen : Bool

-- What `accept` gives: a connection, or -1. After -1 the server handles the descriptor -1, of which `recv`
-- gives -1; `allocated` is whether `calloc` succeeds then.
pub data Accepted : Type 0 where
  accepted : Peer → Accepted
  not_accepted : (allocated : Bool) → Accepted

-- `socket_fd` as opened and closed, whether `run_server` has returned, and what was handled.
pub record Serving : Type 0 where
  pub opened : ℕ
  pub closed : ℕ
  pub returned : Bool
  pub handled : List Handled

abbrev pub peer : Accepted → Peer
peer (accepted p) = p
peer (not_accepted allocated) = record { allocated = allocated; first = Recv.failed; rounds = [] }

module _ (handle_connection : Peer → Outcome Handled) where
  -- the body of `while(true)`
  unfoldable pub serve : List Accepted → Outcome (List Handled)
  serve [] = done []
  serve (a ∷ cs) = do h ← handle_connection (peer a); hs ← serve cs; done (h ∷ hs)

  unfoldable pub run_server : Setup → List Accepted → Outcome Serving
  run_server s cs =
      if not s.socket
      then done (record { opened = 0; closed = 0; returned = true; handled = [] })
      else if not s.bind
      then done (record { opened = 1; closed = 0; returned = true; handled = [] })
      else if not s.listen
      then done (record { opened = 1; closed = 0; returned = true; handled = [] })
      else (serve cs >>= λ hs.
          done (record { opened = 1; closed = 0; returned = false; handled = hs }))

abbrev pub run_server_no_sgx : Setup → List Accepted → Outcome Serving
run_server_no_sgx = run_server handle_connection_no_sgx
