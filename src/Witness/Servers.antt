-- ===== src/Witness/Servers.antt =====
-- Runs of the server with the enclave, and of the hash benchmark.
use sgx_nfv.Prelude.{
  ℕ, ◌%◌, some, none, ◌≡◌, ◌≢◌, ◌∙◌, refl, true, false, ◌==◌, if◌then◌else◌, [], ◌∷◌, ◌++◌, map,
  arith, length, replicate, take, done, length-append, length-replicate, length-take,
}
use sgx_nfv.Nfv.Text.{Bytes, format_int, decimal}
use sgx_nfv.Nfv.Client.{header}
use sgx_nfv.Nfv.Server.{got, handle_connection, process_packet}
use sgx_nfv.Nfv.Server.Request.{request, served}
use sgx_nfv.Nfv.Server.Pieces.{piece, joined, handle_connection-pieces}
use sgx_nfv.Nfv.Run.Service.{up}
use sgx_nfv.Nfv.Run.Inspection.{run_server_sgx, whole, inspected, run_server_sgx-short}
use sgx_nfv.Nfv.Program.{Loads, initialize_enclave_nfv, test_main, test_main-served}
use sgx_nfv.Loader.{Disk, initialize_enclave}
use sgx_nfv.Loader.Files.{Keeps}
use sgx_nfv.Benchmark.Program.{Machine, main, size, zeroed}
use sgx_nfv.Benchmark.Endings.{ending_of, main-ending_of}
use sgx_nfv.Benchmark.Chain.{ecall_stress, ecall_stress-five}

abbrev long_data : Bytes
long_data = replicate 500 7

length-header_500 : length (header 500) ≡ 18
unfolding format_int decimal
length-header_500 = refl

length-long : length (request long_data) ≡ 518
length-long =
    length-append (header 500) long_data
    ∙ omega (arith, length-header_500, length-replicate {A = ℕ} 500 7)

length-short : length (request (1 ∷ 2 ∷ [])) ≡ 18
unfolding format_int decimal
length-short = refl

run_server_sgx-short_example :
    run_server_sgx true 2000 up ((whole long_data [] ∷ []) ++ (whole (1 ∷ 2 ∷ []) [] ∷ []))
    ≢ done (record { opened = 1; closed = 0; returned = false; handled = [] })
run_server_sgx-short_example =
    run_server_sgx-short 2000 (1 ∷ 2 ∷ []) [] (whole long_data [] ∷ []) []
      (record { opened = 1; closed = 0; returned = false; handled = [] })
      (omega (arith, length-short)) (omega arith)

-- Two functions of 32 bytes that differ on other messages than those of five bytes.
abbrev hash : Bytes → Bytes
hash m = take 32 (m ++ replicate 32 1)

abbrev hash' : Bytes → Bytes
hash' m = if length m == 5 then hash m else []

length-hash : (m : Bytes) → length (hash m) ≡ 32
length-hash m = omega (
  arith,
  length-take 32 (m ++ replicate 32 1),
  length-append m (replicate 32 1),
  length-replicate {A = ℕ} 32 1,
)

hash'-five : (m : Bytes) → length m ≡ 5 → hash' m ≡ hash m
hash'-five m h = ground (arith, h)

ecall_stress-five_example :
    (out : Bytes) × (ecall_stress hash ≡ done out)
    × (ecall_stress hash' ≡ done out)
    × (length out ≡ 32)
ecall_stress-five_example = ecall_stress-five hash hash' (λ m h. length-hash m) hash'-five

-- A request of 1986 bytes in three pieces.
length-header_1986 : length (header 1986) ≡ 19
unfolding format_int decimal
length-header_1986 = refl

first_full : length (header 1986 ++ replicate 981 7) ≡ 1000
first_full =
    length-append (header 1986) (replicate 981 7)
    ∙ omega (arith, length-header_1986, length-replicate {A = ℕ} 981 7)

handle_connection-pieces_example :
    (body : Bytes) × (handle_connection process_packet
        (λ count. count)
        (record {
          allocated = true;
          first = got (header 1986 ++ replicate 981 7);
          rounds =
              map (piece []) (replicate 1000 8 ∷ [])
              ++ (piece (replicate 1000 1) (1 ∷ 2 ∷ 3 ∷ 4 ∷ 5 ∷ []) ∷ []);
        })
      ≡ served process_packet (λ count. count) body 1986)
    × (take 1986 body
        ≡ replicate 981 7 ++ (joined (replicate 1000 8 ∷ []) ++ (1 ∷ 2 ∷ 3 ∷ 4 ∷ 5 ∷ [])))
handle_connection-pieces_example =
    handle_connection-pieces process_packet (λ count. count) 1986 (replicate 981 7)
      (1 ∷ 2 ∷ 3 ∷ 4 ∷ 5 ∷ []) (replicate 1000 1) (replicate 1000 8 ∷ []) [] first_full
      (length-replicate {A = ℕ} 1000 8, tt) (omega arith) (omega arith)
      (omega (arith, length-replicate {A = ℕ} 981 7)) (omega arith)

-- A token that was never saved, and an enclave that does not update it.
abbrev no_token : Disk
no_token = record {
  fopen_rb = false;
  fopen_wb = true;
  read_num = 0;
  saved = [];
  created = λ token. some (false, token);
  freopen = true;
  write_num = 1024;
}

no_token-Loads : Loads no_token
no_token-Loads = ((false, (initialize_enclave_nfv no_token).token), refl)

test_main-served_example :
    (test_main true 1002 no_token up (map (λ d. whole d []) (long_data ∷ long_data ∷ []))
      ≡ done (record {
        result = none;
        loaded = initialize_enclave_nfv no_token;
        served = some (record {
          opened = 1;
          closed = 0;
          returned = false;
          handled = map inspected (long_data ∷ long_data ∷ []);
        });
      }))
    × Keeps no_token (initialize_enclave_nfv no_token)
test_main-served_example =
    test_main-served 1002 no_token (long_data ∷ long_data ∷ []) no_token-Loads
      (
        omega (arith, length-long),
        omega (arith, length-replicate {A = ℕ} 500 7),
        (omega (arith, length-long), omega (arith, length-replicate {A = ℕ} 500 7), tt),
      )
      (omega arith)

-- A machine on which every second call of `ecall_sha` fails.
abbrev unsteady : Machine
unsteady = record {
  chdir = true;
  passwd = some none;
  disk = λ path. no_token;
  ecall_stress = 0;
  malloc = λ n. true;
  ecall_sha = λ i. i % 2;
  stack = [];
}

main-ending_of_example :
    (main hash unsteady ≡ done (ending_of hash unsteady none (zeroed size)))
    × Keeps no_token (initialize_enclave no_token)
main-ending_of_example = main-ending_of hash unsteady none refl tt (λ b h. length-hash b)
