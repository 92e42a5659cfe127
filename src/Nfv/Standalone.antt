-- ===== src/Nfv/Standalone.antt =====
-- `main` of NFV_Basic_No_SGX/App.cpp: a trial of `process_packet`, and the server.
use sgx_nfv.Prelude.{
  ◌≡◌, refl, Bool, true, false, ◌&&◌, Option, none, some, List, [], ◌∷◌, map, if◌then◌else◌, ℤ, pos,
  Outcome, done, ◌>>=◌,
}
use sgx_nfv.Nfv.Text.{Bytes}
use sgx_nfv.Nfv.Server.{process_packet}
use sgx_nfv.Nfv.Run.{Setup, Accepted, Serving, run_server, run_server_no_sgx}
use sgx_nfv.Nfv.Program.{result_of}
use sgx_nfv.Nfv.Run.Service.{
  Event, Fits, AllAnswered, none_left, arrival, service, run_server_no_sgx-service,
}

-- What the trial gives, what was served, and what the program returns, none while the server runs.
pub record StandaloneRun : Type 0 where
  pub processing_return : ℤ
  pub served : Serving
  pub result : Option ℤ

-- `unsigned char data[]`
unfoldable pub trial_data : Bytes
trial_data = b't' ∷ b'e' ∷ b's' ∷ b't' ∷ 0x0a ∷ []

unfoldable pub standalone_main : Setup → List Accepted → Outcome StandaloneRun
standalone_main setup clients = do
  processing_return ← process_packet trial_data 5
  served ← run_server_no_sgx setup clients
  done
      (record { processing_return = processing_return; served = served; result = result_of served })

abbrev pub listens : Setup → Bool
listens s = s.socket && s.bind && s.listen

trial-processed : process_packet trial_data 5 ≡ done (pos 1)
unfolding process_packet trial_data
trial-processed = refl

-- Those who are served.
abbrev pub reached : Setup → List Event → List Event
reached s es = if listens s then es else []

Served : Setup → List Event → Type 0
Served setup es =
    (s : Serving) × (run_server_no_sgx setup (map arrival es) ≡ done s)
    × (result_of s ≡ (if listens setup then none else some (pos 0)))
    × AllAnswered (reached setup es) s.handled (service (reached setup es))

serving : (setup : Setup) (es : List Event) → Fits es → Served setup es
unfolding run_server service Served
serving setup es fits = by_setup setup.socket setup.bind setup.listen
  where
    by_setup :
        (socket bind listen : Bool)
        → Served (record { socket = socket; bind = bind; listen = listen }) es
    by_setup false bind listen =
        (record { opened = 0; closed = 0; returned = true; handled = [] }, refl, refl, none_left)
    by_setup true false listen =
        (record { opened = 1; closed = 0; returned = true; handled = [] }, refl, refl, none_left)
    by_setup true true false =
        (record { opened = 1; closed = 0; returned = true; handled = [] }, refl, refl, none_left)
    by_setup true true true =
        let (s, serves, listening, all) = run_server_no_sgx-service es fits in
        (s, serves, rw listening refl, all)

-- The program finds one line feed in its own data, and then is the service that counts line feeds:
-- whatever clients come and however often `accept` fails between them, each client gets from `sendData`
-- the number of line feeds in its own data, and not the amount of data sent that the documentation of
-- `sendData` and the comment of the server name; each connection is closed once, nothing is sent for a failed
-- `accept`, and the program does not return. Where it cannot create its socket, bind it or listen, it
-- handles nothing and returns 0. Each request fits the first 1000 bytes and comes in one piece.
pub standalone_main-service :
    (setup : Setup) (es : List Event)
    → Fits es
    → (r : StandaloneRun) × (standalone_main setup (map arrival es) ≡ done r)
      × (r.processing_return ≡ pos 1)
      × (r.result ≡ (if listens setup then none else some (pos 0)))
      × AllAnswered (reached setup es) r.served.handled (service (reached setup es))
unfolding standalone_main Served
standalone_main-service setup es fits =
    let (s, serves, result, all) = serving setup es fits in
    (
      record { processing_return = pos 1; served = s; result = result_of s },
      rw (trial-processed, serves) refl,
      refl,
      result,
      all,
    )
