-- ===== src/Nfv/Client/Closing.antt =====
-- `sendData` on every path.
use sgx_nfv.Prelude.{
  bit, ℕ, ◌≡◌, Bool, true, Option, none, some, List, [], ◌∷◌, arith, if◌then◌else◌, negsuc, Outcome,
  done, fault, spinning,
}
use mathlib.Core.Logic.{◌≢◌}
use sgx_nfv.Nfv.Text.{Bytes}
use sgx_nfv.Nfv.Client.{Net, Sent, header, talk, send_data}

abbrev count_some : Option (List Bool) → ℕ
count_some none = 0
count_some (some es) = 1

-- The result is -1 unless a connection was made and both parts of the request were sent.
abbrev Connected : Net → Type 0
Connected n = (n.socket ≡ true) × (n.connect ≡ true) × (n.send_header ≡ true) × (n.send_data ≡ true)

-- If `sendData` returns, it closed the socket once, if it was opened, and freed the list of addresses
-- once, if it got one.
unfoldable pub Closes : Net → Bytes → ℕ → Outcome Sent → Type 0
Closes n bytes len (done s) =
    (s.closes ≡ bit n.socket)
    × (s.frees ≡ (if n.socket then count_some n.addrinfo else 0))
    × (s.result ≢ negsuc 0 → Connected n × (s.sends ≡ header len ∷ bytes ∷ []))
Closes n bytes len fault = Unit
Closes n bytes len spinning = Unit

-- If `sendData` returns, it has closed the socket once, if it was opened, and freed the list of
-- addresses once, if it was looked up; and any result but -1 says that a connection was made and that
-- the header and the data were sent.
pub send_data-Closes :
    (bytes : Bytes) (len : ℕ) (n : Net) → Closes n bytes len (send_data bytes len n)
unfolding send_data talk Closes
send_data-Closes bytes len n = ground arith
