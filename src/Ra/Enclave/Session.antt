-- ===== src/Ra/Enclave/Session.antt =====
-- `enclave_init_ra`: the retries and the PSE session.
use sgx_nfv.Prelude.{◌≤◌, ◌≡◌, refl, Bool, true, false, arith}
use mathlib.Core.Logic.{◌≢◌}
use sgx_nfv.Ra.Enclave.{Trusted, Initialized, create_session, enclave_init_ra, success, busy}

-- The initialization made at most three attempts, closed each session that it opened, and gives the
-- status of `sgx_ra_init` where it got that far and else an error.
pub record IsTidy (t : Trusted) (b_pse : Bool) (r : Initialized) : Type 0 where
  pub attempts : r.attempts ≤ 3
  pub closed : r.closed ≡ r.opened
  pub failed : r.inits ≡ 0 → r.ret ≢ success
  pub started : r.inits ≢ 0 → r.ret ≡ t.ra_init b_pse
  pub third_chance :
      t.create_pse_session 0 ≡ busy
      → t.create_pse_session 1 ≡ busy
      → t.create_pse_session 2 ≡ success
      → r.inits ≡ 1

-- Opening the key exchange tries at most three times to create a PSE session and gets by two busy
-- answers; it closes the session that it opened, if any; without a session it gives an error, and else
-- the status of `sgx_ra_init`.
pub enclave_init_ra-IsTidy : (t : Trusted) (b_pse : Bool) → IsTidy t b_pse (enclave_init_ra t b_pse)
unfolding enclave_init_ra create_session
enclave_init_ra-IsTidy t false = record {
  attempts = omega arith;
  closed = refl;
  failed = λ h. ground arith;
  started = λ h. refl;
  third_chance = λ a b d. refl;
}
enclave_init_ra-IsTidy t true = record {
  attempts = ground arith;
  closed = ground arith;
  failed = ground arith;
  started = ground arith;
  third_chance = ground arith;
}
