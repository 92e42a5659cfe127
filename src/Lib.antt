-- ===== src/Lib.antt =====
-- A model of the repository's own code: packet inspection inside and outside an SGX enclave, the
-- socket protocol between the Click elements and the packet servers, and the remote attestation of
-- an enclave by a service provider.
--
-- - Packet: the inspection of a packet, `ecall_process_packet` of
--   NFV_Basic_SGX/sgx/enclave_enclave1/trusted/enclave1.cpp and its copy in untrusted/App.cpp. A
--   read outside the packet and an overflow of `int` are `fault`; the loop runs on fuel, and
--   `length + 2` rounds are enough where the searched prefix is not empty. Packet.Memchr has
--   `call_process_packet_no_sgx` of click_experiments/basicelementnosgx.cc, and Packet.Trial
--   `test_process_packet` of untrusted/App.cpp.
-- - Nfv: the protocol "data_len:%i|data:". Nfv.Text has `strtol` with base 0 and `%i`; Nfv.Server
--   has `handle_connection` of NFV_Basic_SGX/sgx/enclave_enclave1/untrusted/App.cpp and of
--   NFV_Basic_No_SGX/App.cpp, with what `recv` and `realloc` give as an explicit sequence of
--   rounds, so that the receiving loop needs no fuel: with no round left it is still waiting
--   (`spinning`). A pointer into a block that `realloc` moved is tracked. Nfv.Client has `sendData`
--   of click_experiments/basicelement.cc. Nfv.Run has `run_server`, whose endless loop runs over
--   the connections that come; with none left it waits in `accept`. Nfv.Run.Inspection puts the
--   server of NFV_Basic_SGX and the inspection together, and Nfv.Program is `main` of
--   NFV_Basic_SGX/sgx/test.cpp, which loads the enclave first; Nfv.Standalone is that of
--   NFV_Basic_No_SGX/App.cpp. Nfv.Client.Copies names the copies of `sendData` in the other elements.
-- - Click: `push` of the elements click_experiments/basicelement.cc, basicelementnosgx.cc and
--   basicelementsha256.cc, on streams of packets. What an element sends on is its result. The
--   inspection runs on `length + 2` rounds of fuel, and the digest of the SHA-256 elements is a
--   parameter. Click.Elements has the constructors, which load the enclave, the read handler, and the
--   elements that compute a digest, with that of basicelementnosgxsha256.cc.
-- - Keys: `_getOpenSSLKeys` of NFV_Remote_Attestation_Python/sample_crypto_wrappermodule.c over the
--   interface `OpenSsl`; a BIGNUM is a number. Keys.Program is `main` of the file, over the interface
--   `Ecc` of the two libraries of elliptic curves, where a context that is closed is taken to close.
-- - Ra: NFV_Remote_Attestation_C/sgx. Ra.Crypto is the interface of sample_libcrypto, Ra.Ecp and
--   Ra.Ias are service_provider/ecp.cpp and ias_ra.cpp, and Ra.Provider is service_provider.cpp:
--   the globals are the record `Sp`, which also counts open contexts, open hash states and blocks;
--   the `do { … break; … } while (0)` of a handler is a block of the monad `Step`. Ra.Enclave is
--   enclave_Enclave1/trusted/Enclave1.cpp over the interface `Trusted` of the SGX SDK, with
--   `generate_key_pair` in Ra.Enclave.KeyPair. Ra.Session has what a session needs in which no call
--   fails: the results of the calls (`Works`), the keys, and message 3 of a client that follows the
--   protocol, which the SDK's library makes and which is not in the repository. Ra.Client is
--   `perform_remote_attestation` of enclave_Enclave1/untrusted/App.cpp, and Ra.Client.Program its
--   `main`. Ra.Provider.Phases is the protocol of the provider as an automaton, independent of the
--   handlers, and Ra.Provider.Refines sets them against it; Ra.Provider.Account has the requests and
--   the blocks of a run, Ra.Provider.Binding its keys, and Ra.Provider.Replay a message 3 that is sent
--   again. A `Crypto` stands for what the library gives at one request; Ra.Provider.Binding and
--   Ra.Provider.Replay let it be another one at each request of a run, the other theorems on runs have
--   one for the whole run. The contexts that the simulated attestation server opens are counted with
--   those of the provider. Ra.Transport is
--   service_provider/network_ra.cpp: it does not compile as it stands, and is read with the second
--   declaration of `bytes_received` as the first, and with the casts of pointers to structures as
--   pointer casts; its loop runs on fuel, and a request of fewer than 992 bytes needs one round to
--   succeed.
-- - Loader: `initialize_enclave` of
--   NFV_Remote_Attestation_C/sgx/enclave_Enclave1/untrusted/App.cpp. Loader.Home is that of
--   NFV_Basic_SGX/sgx/enclave_enclave1/untrusted/sample.cpp, with the strings of C by which it
--   builds the path of the token file.
-- - Benchmark: `ecall_stress_memory` and `ecall_stress` of
--   SGX_Execution_Benchmark/sgx/enclave_enclave/trusted/enclave.cpp, over a hash function as
--   parameter; Benchmark.Program is `main` of untrusted/sample.cpp beside it, without the timing, with
--   the loader of Loader.Home.
-- - Prelude: numbers, Boolean tests, lists and the type `Outcome` of what running code comes to.
-- - Witness: concrete runs.
--
-- The server hands the data of a request to the inspection, which is a parameter of
-- `handle_connection`; the client reads the server's response; the provider calls the attestation
-- server through the function pointers of its group, and the enclave checks what the provider
-- answers.
--
-- Not modelled: printing, but for the keys that Keys.Program prints; the error messages and the `main`
-- of the SDK's sample in NFV_Basic_SGX/sgx/enclave_enclave1/untrusted/sample.cpp; the SHA-256 class, third-party code; sample_libcrypto, the SGX SDK,
-- OpenSSL and the sockets, which are parameters; the second key derivation, which is not compiled;
-- `memcpy_s` results that the code does not test. A message is a record of its fields, so that its
-- bytes are lists whose lengths are those of the C types where a theorem says so.
pub mod Benchmark
pub mod Click
pub mod Keys
pub mod Loader
pub mod Nfv
pub mod Packet
pub mod Prelude
pub mod Ra
pub mod Witness
