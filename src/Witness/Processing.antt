-- ===== src/Witness/Processing.antt =====
-- Runs of the packet inspection, of the server and the client, and of the loader.
use sgx_nfv.Prelude.{
  ℕ, ◌≡◌, refl, true, false, some, List, [], ◌∷◌, ◌++◌, arith, length, replicate, pos, done,
  length-replicate,
}
use sgx_nfv.Packet.{ecall_process_packet, sequence_len}
use sgx_nfv.Packet.Packing.{IsLargest}
use sgx_nfv.Packet.Count.{ecall_process_packet-IsLargest}
use sgx_nfv.Packet.Trial.{trial_count, test_process_packet, test_process_packet-IsLargest}
use sgx_nfv.Nfv.Text.{Bytes, format_int, decimal}
use sgx_nfv.Nfv.Server.{Recv, got, handle_connection, handle_connection_no_sgx, process_packet}
use sgx_nfv.Nfv.Server.Request.{request, padding, served, handle_connection-request}
use sgx_nfv.Nfv.Server.Newlines.{newlines}
use sgx_nfv.Nfv.Client.{Net, header, send_data}
use sgx_nfv.Nfv.Client.Closing.{Closes, send_data-Closes}
use sgx_nfv.Nfv.Client.Exchange.{send_data-handle_connection}
use sgx_nfv.Benchmark.{ecall_stress_memory}
use sgx_nfv.Benchmark.Sums.{prefix_sums, ecall_stress_memory-prefix_sums}

-- Five hundred times the same byte: each position matches the prefix of one byte.
abbrev packet : List ℕ
packet = replicate 500 7

length-packet : length packet ≡ 500
length-packet = length-replicate {A = ℕ} 500 7

ecall_process_packet-IsLargest_example :
    (n : ℕ) × (ecall_process_packet 502 packet 500 ≡ done n)
    × IsLargest packet 500 (sequence_len 500) 0 n
ecall_process_packet-IsLargest_example =
    ecall_process_packet-IsLargest 502 500 packet (omega arith) (omega arith)
      (omega (arith, length-packet)) (omega arith)

-- Four bytes, two of which are line feeds.
abbrev lines : Bytes
lines = 0x0a ∷ b'a' ∷ 0x0a ∷ b'b' ∷ []

length-request-lines : length (request lines) ≡ 20
unfolding format_int decimal
length-request-lines = refl

handle_connection-request_example :
    handle_connection process_packet
      (λ count. count)
      (record { allocated = true; first = got (request lines); rounds = [] })
    ≡ served process_packet (λ count. count) (lines ++ padding (request lines)) (length lines)
handle_connection-request_example =
    handle_connection-request process_packet (λ count. count) lines []
      (omega (arith, length-request-lines))

send_data-handle_connection_example :
    (reply : Bytes) × (handle_connection_no_sgx
        (record { allocated = true; first = got (header 4 ++ lines); rounds = [] })
      ≡ done (record {
        closes = 1;
        frees = 1;
        processed = some (lines ++ padding (request lines), 4);
        sent = some reply;
      }))
    × (send_data lines 4 (record {
      socket = true;
      addrinfo = some (false ∷ true ∷ []);
      connect = true;
      send_header = true;
      send_data = true;
      fresh = [];
      reply = got reply;
    })
        ≡ done (record {
          result = pos (newlines lines);
          closes = 1;
          frees = 1;
          sends = header 4 ∷ lines ∷ [];
        }))
send_data-handle_connection_example =
    send_data-handle_connection lines (false ∷ true ∷ []) [] []
      (omega (arith, length-request-lines)) refl

abbrev refusing : Net
refusing = record {
  socket = true;
  addrinfo = some (true ∷ []);
  connect = true;
  send_header = true;
  send_data = false;
  fresh = [];
  reply = Recv.failed;
}

send_data-Closes_example : Closes refusing lines 4 (send_data lines 4 refusing)
send_data-Closes_example = send_data-Closes lines 4 refusing

ecall_stress_memory-prefix_sums_example :
    ecall_stress_memory (200 ∷ 100 ∷ 7 ∷ 5 ∷ []) 3
    ≡ done (200 ∷ (prefix_sums 200 (100 ∷ 7 ∷ []) ++ (5 ∷ [])))
ecall_stress_memory-prefix_sums_example =
    ecall_stress_memory-prefix_sums 200 (100 ∷ 7 ∷ []) (5 ∷ [])

test_process_packet-IsLargest_example :
    (n : ℕ) × (trial_count 501 packet 500 ≡ done n)
    × (test_process_packet 501 packet 500 ≡ done tt)
    × IsLargest packet 499 (sequence_len 500) 0 n
test_process_packet-IsLargest_example =
    test_process_packet-IsLargest 501 500 packet (omega arith) (omega arith)
      (omega (arith, length-packet)) (omega arith)
