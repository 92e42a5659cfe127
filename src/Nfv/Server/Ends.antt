-- ===== src/Nfv/Server/Ends.antt =====
-- What holds of every way in which a connection ends.
use sgx_nfv.Prelude.{
  ℕ, ◌+◌, true, false, Option, List, [], ◌∷◌, drop, length, ℤ, Outcome, Whenever, Whenever-bind,
  Whenever-if,
}
use sgx_nfv.Nfv.Text.{Bytes}
use sgx_nfv.Nfv.Server.{
  Recv, failed, got, blank, received_over, gave_up, Round, Handled, Buffer, starts_with,
  strtol_within, total_of, receive, finish, parse, handle_connection,
}

module _ (process : Bytes → ℕ → Outcome ℤ) (report : ℤ → ℤ) (P : Handled → Type 0)
    (gave : P gave_up)
    (finishes : (header_len : ℕ) (n : ℤ) (b : Option Buffer)
      → Whenever P (finish process report header_len n b)) where
  parse-Whenever :
      (cells : Bytes) (received : ℕ) (rounds : List Round)
      → Whenever P (parse process report cells received rounds)
  unfolding parse Whenever
  parse-Whenever cells received rounds =
      Whenever-bind P
        (starts_with (b'd' ∷ b'a' ∷ b't' ∷ b'a' ∷ b'_' ∷ b'l' ∷ b'e' ∷ b'n' ∷ b':' ∷ []) cells) _
        λ a.
          Whenever-if P a _ _
            (λ yes. Whenever-bind P (strtol_within (drop 9 cells)) _ λ x.
              Whenever-bind P
                (starts_with (b'|' ∷ b'd' ∷ b'a' ∷ b't' ∷ b'a' ∷ b':' ∷ []) (drop (9 + x.1) cells))
                _
                λ b.
                  Whenever-if P b _ _
                    (λ yes. Whenever-bind P (total_of (9 + x.1 + 6) (x.0)) _ λ total.
                      Whenever-bind P
                        (receive total rounds
                          (record { cells = cells; moved = false; total = received }))
                        _ (finishes (9 + x.1 + 6) (x.0)))
                    (λ no. gave))
            (λ no. gave)

  -- A connection for which there is a buffer.
  pub handle_connection-Whenever :
      (first : Recv) (rounds : List Round)
      → Whenever P (
          handle_connection process report
            (record { allocated = true; first = first; rounds = rounds }))
  unfolding handle_connection
  handle_connection-Whenever failed rounds = parse-Whenever (received_over [] blank) 0 rounds
  handle_connection-Whenever (got bytes) rounds =
      parse-Whenever (received_over bytes blank) (length bytes) rounds
