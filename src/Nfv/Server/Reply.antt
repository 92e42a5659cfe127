-- ===== src/Nfv/Server/Reply.antt =====
-- What the server of NFV_Basic_SGX answers, and a peer that hangs up.
use sgx_nfv.Prelude.{
  ℕ, ◌+◌, ◌≤◌, ◌<◌, ◌≡◌, sym, ◌∙◌, ap, Bool, true, false, Option, none, some, List, [], ◌∷◌, ◌++◌,
  arith, length, replicate, zero, suc, ℤ, pos, Outcome, done, >>=-eq-done, Whenever,
}
use mathlib.Core.Logic.{◌≢◌}
use sgx_nfv.Packet.{add_int}
use sgx_nfv.Nfv.Text.{Bytes, format_int}
use sgx_nfv.Nfv.Client.{header}
use sgx_nfv.Nfv.Server.{
  Recv, got, Round, Peer, Handled, Buffer, receive, is_short, finish, handle_connection,
  handle_connection_sgx,
}
use sgx_nfv.Nfv.Server.Ends.{handle_connection-Whenever}
use sgx_nfv.Nfv.Server.Request.{handle_connection-framed, padding, framed, digits}

-- An answer, if there is one, is "OK:0".
unfoldable IsZeroAnswer : Handled → Type 0
IsZeroAnswer h = elim h.sent [ none ↦ Unit | some b ↦ b ≡ b'O' ∷ b'K' ∷ b':' ∷ b'0' ∷ 0 ∷ [] ]

finish-IsZeroAnswer :
    (call : Bytes → ℕ → Outcome ℤ) (header_len : ℕ) (n : ℤ) (b : Option Buffer)
    → Whenever IsZeroAnswer (finish call (λ count. pos 0) header_len n b)
unfolding finish Whenever IsZeroAnswer format_int sgx_nfv.Nfv.Text.decimal
finish-IsZeroAnswer call header_len n none = tt
finish-IsZeroAnswer call header_len n (some b) = ground arith

-- Whatever the enclave counts, the server of NFV_Basic_SGX answers "OK:0", if it answers.
handle_connection_sgx-IsZeroAnswer :
    (call_process_packet_sgx : Bytes → ℕ → Outcome ℤ) (p : Peer)
    → Whenever IsZeroAnswer (handle_connection_sgx call_process_packet_sgx p)
unfolding handle_connection handle_connection_sgx Whenever IsZeroAnswer
handle_connection_sgx-IsZeroAnswer call p = cases p.allocated p.first p.rounds
  where
    cases :
        (allocated : Bool) (first : Recv) (rounds : List Round)
        → Whenever IsZeroAnswer (
            handle_connection_sgx call
              (record { allocated = allocated; first = first; rounds = rounds }))
    cases true first rounds =
        handle_connection-Whenever call (λ count. pos 0) IsZeroAnswer tt (finish-IsZeroAnswer call)
          first rounds
    cases false first rounds = tt

-- A round in which `recv` reports the end of the connection.
abbrev pub hung_up : Bytes → Round
hung_up fresh = record { grown = some false; fresh = fresh; received = got [] }

spinning-ne-done : {o : Option Buffer} → Outcome.spinning ≢ done o
spinning-ne-done h = cc

-- The loop goes on for each of these.
receive-hung_up :
    (k : ℕ) (t : ℤ) (fresh : Bytes) (b : Buffer) (o : Option Buffer)
    → is_short b.total t ≡ true
    → receive t (replicate k (hung_up fresh)) b ≢ done o
unfolding receive
receive-hung_up zero t fresh b o h e = spinning-ne-done (rw h at e)
receive-hung_up (suc k) t fresh b o h e =
    let (size, got_size, e1) = >>=-eq-done (add_int (length b.cells) 1000) _ (rw h at e) in
    let (total, got_total, e2) = >>=-eq-done (add_int b.total 0) _ e1 in
    let same : total ≡ b.total = ground arith in
    receive-hung_up k t fresh _ o (ap (λ (n : ℕ). is_short n t) same ∙ h) e2

-- Where the first bytes, at most 1000, have the header but not all of the announced data, of less than
-- 0x7fff_0000 bytes, and the peer then hangs up, the server does not end the connection, however often
-- `recv` reports the end and `realloc` extends the block in place.
pub handle_connection-hung_up :
    (process : Bytes → ℕ → Outcome ℤ) (report : ℤ → ℤ) (n k : ℕ) (d fresh : Bytes) (h : Handled)
    → length (header n ++ d) ≤ 1000
    → length d < n
    → n < 0x7fff_0000
    → handle_connection process report (record {
      allocated = true;
      first = got (header n ++ d);
      rounds = replicate k (hung_up fresh);
    })
      ≢ done h
handle_connection-hung_up process report n k d fresh h room short small e =
    let start : Buffer = record {
      cells = framed n (d ++ padding (header n ++ d));
      moved = false;
      total = 9 + digits n + 6 + length d;
    } in
    let more : is_short start.total (pos (9 + digits n + 6 + n)) ≡ true = ground arith in
    let (o, got_o, end) = >>=-eq-done _ _ (
      sym (handle_connection-framed process report n d (replicate k (hung_up fresh)) room small)
      ∙ e) in
    receive-hung_up k (pos (9 + digits n + 6 + n)) fresh start o more got_o
