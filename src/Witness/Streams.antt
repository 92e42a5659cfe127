-- ===== src/Witness/Streams.antt =====
-- Runs of the Click elements on streams of packets, of the servers with many clients, of the path of the
-- token file, and of the export of keys.
use sgx_nfv.Prelude.{
  ◌*◌, take, ℕ, ◌+◌, ◌≤◌, ◌≡◌, ◌≢◌, refl, true, false, none, some, pos, List, [], ◌∷◌, ◌++◌, map,
  arith, length, replicate, ◌==◌, if◌then◌else◌, done, fault, length-replicate,
}
use sgx_nfv.Packet.Memchr.{call_process_packet_no_sgx, leading, call_process_packet_no_sgx-leading}
use sgx_nfv.Packet.Overread.{call_process_packet_no_sgx-overread}
use sgx_nfv.Click.{BasicElement, basic_element_push, basic_element_no_sgx_push, run}
use sgx_nfv.Click.Forward.{sum, Counted}
use sgx_nfv.Click.Elements.{new_basic_element, sgx_read_handler}
use sgx_nfv.Click.Router.{basic_element-stream}
use sgx_nfv.Nfv.Program.{initialize_enclave_nfv}
use sgx_nfv.Nfv.Standalone.{StandaloneRun, standalone_main, standalone_main-service}
use sgx_nfv.Loader.Files.{Keeps}
use sgx_nfv.Nfv.Text.{Bytes, format_int, decimal, scan}
use sgx_nfv.Nfv.Server.{got, handle_connection, process_packet}
use sgx_nfv.Nfv.Server.Request.{request}
use sgx_nfv.Nfv.Server.Reply.{hung_up}
use sgx_nfv.Nfv.Client.{header}
use sgx_nfv.Nfv.Run.{Accepted, accepted, not_accepted, run_server}
use sgx_nfv.Nfv.Run.Service.{
  Event, asks, fails, arrival, service, up, AllAnswered, run_server-hung_up,
}
use sgx_nfv.Loader.{Disk, initialize_enclave, save_token}
use sgx_nfv.Loader.Home.{max_path, token_path}
use sgx_nfv.Loader.Home.Strings.{NoZero, padded}
use sgx_nfv.Loader.Home.Path.{intended, token_path-intended}
use sgx_nfv.Keys.{OpenSsl, Arrays, generate_dh_keys_openssl}
use sgx_nfv.Keys.Export.{IsExported, big_endian, generate_dh_keys_openssl-IsExported}

abbrev seven : List ℕ
seven = replicate 500 7

abbrev eight : List ℕ
eight = replicate 600 8

length-seven : length seven ≡ 500
length-seven = length-replicate {A = ℕ} 500 7

length-eight : length eight ≡ 600
length-eight = length-replicate {A = ℕ} 600 8

call_process_packet_no_sgx-leading_example :
    call_process_packet_no_sgx 601 eight 600 ≡ done (leading 8 (take 600 eight))
call_process_packet_no_sgx-leading_example =
    call_process_packet_no_sgx-leading 601 600 8 eight refl (omega arith) (omega arith)
      (omega (arith, length-eight)) (omega arith)

odd : (k : ℕ) → 1001 ≢ k * 2
odd k e = omega arith

call_process_packet_no_sgx-overread_example :
    call_process_packet_no_sgx 1002 (replicate 1001 7) 1001 ≡ fault
call_process_packet_no_sgx-overread_example =
    call_process_packet_no_sgx-overread 1002 1001 7 (omega arith) (omega arith) odd (omega arith)

-- Every file can be opened, and a whole token is read.
abbrev disk : Disk
disk = record {
  fopen_rb = true;
  fopen_wb = true;
  read_num = 1024;
  saved = replicate 1024 1;
  created = λ token. some (true, token);
  freopen = true;
  write_num = 1024;
}

abbrev element : BasicElement
element = record { count = 0; sgx_sum = 0 }

new_basic_element-disk : new_basic_element disk ≡ some element
unfolding new_basic_element initialize_enclave_nfv initialize_enclave save_token
new_basic_element-disk = refl

basic_element-stream_example :
    Keeps disk (initialize_enclave_nfv disk)
    × (e' : BasicElement) × (ns : List ℕ) × (run
          (basic_element_push true)
          element
          (seven ∷ eight ∷ [])
        ≡ done (e', seven ∷ eight ∷ []))
    × (run basic_element_no_sgx_push element (seven ∷ eight ∷ []) ≡ done (e', seven ∷ eight ∷ []))
    × Counted (seven ∷ eight ∷ []) ns
    × (scan 10 0 0 (sgx_read_handler e') ≡ (sum ns, length (sgx_read_handler e')))
basic_element-stream_example =
    basic_element-stream disk element (seven ∷ eight ∷ []) new_basic_element-disk
      (
        omega (arith, length-seven),
        omega (arith, length-seven),
        (omega (arith, length-eight), omega (arith, length-eight), tt),
      )
      (omega arith) (omega (arith, length-seven, length-eight))

-- Two clients, and between them a connection that is not accepted.
abbrev events : List Event
events =
    asks (0x0a ∷ b'a' ∷ 0x0a ∷ []) [] (true ∷ []) []
    ∷ fails true
    ∷ asks (b'b' ∷ []) [] (false ∷ true ∷ []) (replicate 100 9)
    ∷ []

length-first : length (request (0x0a ∷ b'a' ∷ 0x0a ∷ [])) ≡ 19
unfolding format_int decimal
length-first = refl

length-second : length (request (b'b' ∷ [])) ≡ 17
unfolding format_int decimal
length-second = refl

standalone_main-service_example :
    (r : StandaloneRun) × (standalone_main up (map arrival events) ≡ done r)
    × (r.processing_return ≡ pos 1)
    × (r.result ≡ none)
    × AllAnswered events r.served.handled (service events)
standalone_main-service_example =
    standalone_main-service up events
      (omega (arith, length-first), refl, (omega (arith, length-second), refl, tt))

-- A peer that announces four bytes and hangs up, before a client that asks for one.
abbrev waiting : List Accepted
waiting =
    accepted (record { allocated = true; first = got (request (b'b' ∷ [])); rounds = [] }) ∷ []

length-header-four : length (header 4 ++ []) ≡ 16
unfolding format_int decimal
length-header-four = refl

run_server-hung_up_example :
    run_server (handle_connection process_packet (λ count. count)) up (
      not_accepted true
      ∷ accepted (record {
        allocated = true;
        first = got (header 4 ++ []);
        rounds = replicate 3 (hung_up []);
      })
      ∷ waiting)
    ≢ done (record { opened = 1; closed = 0; returned = false; handled = [] })
run_server-hung_up_example =
    run_server-hung_up process_packet (λ count. count) 4 3 [] [] (not_accepted true ∷ []) waiting
      (record { opened = 1; closed = 0; returned = false; handled = [] })
      (omega (arith, length-header-four)) (omega arith) (omega arith)

-- "/root"
abbrev root : Bytes
root = b'/' ∷ b'r' ∷ b'o' ∷ b'o' ∷ b't' ∷ []

root-NoZero : NoZero root
root-NoZero = (omega arith, (omega arith, (omega arith, (omega arith, (omega arith, tt)))))

token_path-intended_example :
    (k : ℕ) × (token_path (some root) ≡ done (padded (intended (some root)) k))
    × (length (intended (some root)) + k ≡ max_path)
    × (1 ≤ k)
    × NoZero (intended (some root))
token_path-intended_example = token_path-intended (some root) root-NoZero

-- A key with the coordinates 258 and 3 and the private number 0.
abbrev ssl : OpenSsl
ssl = record {
  sn2nid = λ name. some 415;
  new_by_curve_name = λ nid. true;
  generated = some (0, some (258, 3));
  bn_new = true;
  num_bytes = λ n. if n == 258 then 2 else if n == 3 then 1 else 0;
  bn2bin = λ n. if n == 258 then 1 ∷ 2 ∷ [] else if n == 3 then 3 ∷ [] else [];
}

abbrev garbage : Arrays
garbage = record { ga_x = replicate 32 0xcc; ga_y = replicate 32 0xcc; ga_priv = replicate 32 0xcc }

value-258 : big_endian 0 (1 ∷ 2 ∷ []) ≡ 258
unfolding big_endian
value-258 = refl

value-3 : big_endian 0 (3 ∷ []) ≡ 3
unfolding big_endian
value-3 = refl

value-0 : big_endian 0 [] ≡ 0
unfolding big_endian
value-0 = refl

generate_dh_keys_openssl-IsExported_example :
    (a : Arrays) × (generate_dh_keys_openssl ssl garbage ≡ done (a.ga_x ∷ a.ga_y ∷ a.ga_priv ∷ []))
    × IsExported ssl 258 a.ga_x
    × IsExported ssl 3 a.ga_y
    × IsExported ssl 0 a.ga_priv
generate_dh_keys_openssl-IsExported_example =
    generate_dh_keys_openssl-IsExported ssl 415 258 3 0 garbage refl refl refl refl
      (refl, value-258) (refl, value-3) (refl, value-0)
