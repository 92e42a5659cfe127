-- ===== src/Witness/Binding.antt =====
-- Message 3 of the client whose message 1 came last.
use sgx_nfv.Prelude.{
  ℕ, ◌+◌, ◌≡◌, refl, true, some, none, [], ◌∷◌, take, length-replicate, List, replicate, pos, done,
}
use sgx_nfv.Ra.Crypto.{Bytes, Crypto, Status}
use sgx_nfv.Ra.Ecp.{memcpy_s}
use sgx_nfv.Ra.Provider.{Sp, message, untouched, sp_internal_error}
use sgx_nfv.Ra.Provider.Binding.{OneSession, Run, sp_ra_proc_msg3_req-OneSession}
use sgx_nfv.Ra.Provider.Reach.{Serves}
use sgx_nfv.Ra.Provider.Groups.{ias_group}
use sgx_nfv.Ra.Ias.{
  AttReport, zero_report, filled, signed, finished, blob_bytes, ias_verify_attestation_evidence,
}
use sgx_nfv.Ra.Provider.Grounds.{Vouched}
use sgx_nfv.Ra.Provider.Msg3.{Msg3, AttResult, sp_ra_proc_msg3_req}
use sgx_nfv.Ra.Provider.Core.{core}
use sgx_nfv.Ra.Provider.Replay.{Later, Attests, SameSecret, resigning, sp_ra_proc_msg3_req-replays}
use sgx_nfv.Ra.Session.{msg3_of}
use sgx_nfv.Ra.Session.Exchange.{msg2_of, sp_ra_proc_msg1_req-works}
use sgx_nfv.Ra.Session.Response.{HasKeys, answer_of, after_msg3, sp_ra_proc_msg3_req-works}
use sgx_nfv.Witness.Sessions.{never_failing, works, enrolled, other, interrupted, msg0-run}

abbrev g_b : Bytes
g_b = (msg2_of works other.g_a enrolled.spid).g_b

abbrev shared : Bytes
shared = works.dh other.g_a

abbrev proof : Msg3
proof = msg3_of works other.g_a g_b shared (replicate 256 0) (replicate 368 1) (0 ∷ [])

keys : HasKeys works other.g_a g_b shared interrupted.db
keys = record { g_a_key = refl; g_b_key = refl; smk = refl; mk = refl; sk = refl; vk = refl }

proof-run :
    sp_ra_proc_msg3_req never_failing
      (λ n. true)
      (some proof)
      (336 + (368 + 64 + 1))
      true
      interrupted
    ≡ done (
      pos 0,
      message (answer_of works shared),
      after_msg3 works (take 256 (replicate 256 0)) interrupted,
    )
proof-run =
    sp_ra_proc_msg3_req-works works (λ n. true) other.g_a g_b shared (replicate 256 0)
      (replicate 368 1) (0 ∷ []) (336 + (368 + 64 + 1)) interrupted (λ n. refl) refl refl keys
      (length-replicate {A = ℕ} 368 1) (length-replicate {A = ℕ} 64 2)
      (length-replicate {A = ℕ} 256 0) refl

-- A run with the same requests as `interrupting`, one library after the other.
abbrev running : Run interrupted
running =
    let registered : Run enrolled =
      Run.served never_failing Run.begins (Serves.msg0 (some 0) 4 (pos 0) enrolled msg0-run) in
    Run.served never_failing registered (
      Serves.msg1 (λ n. true) (some other) 68 true (pos 0)
        (message (msg2_of works other.g_a enrolled.spid)) interrupted
        (sp_ra_proc_msg1_req-works works (λ n. true) other enrolled (λ n. refl) refl refl))

sp_ra_proc_msg3_req-OneSession_example :
    (o : OneSession never_failing interrupted.db) × (memcpy_s 64 o.key 64 ≡ some proof.g_a)
    × Vouched never_failing interrupted proof (336 + (368 + 64 + 1)) (answer_of works shared)
sp_ra_proc_msg3_req-OneSession_example =
    sp_ra_proc_msg3_req-OneSession never_failing never_failing (λ n. true) proof
      (336 + (368 + 64 + 1)) true (after_msg3 works (take 256 (replicate 256 0)) interrupted)
      (pos 0) (answer_of works shared) running refl proof-run

-- A request without a message, between the message 3 and its repetition.
abbrev again : Sp
again = after_msg3 works (take 256 (replicate 256 0)) interrupted

empty-run :
    sp_ra_proc_msg3_req never_failing (λ n. true) none 0 true again
    ≡ done (sp_internal_error, untouched, again)
unfolding sp_ra_proc_msg3_req
empty-run = refl

-- The signatures of the second time.
abbrev other_sign : Bytes → Bytes → ℕ → Status (List ℕ × List ℕ)
other_sign key bytes ctx = Status.success (replicate 8 3, replicate 8 4)

abbrev other_pair : ℕ → Status (Bytes × Bytes)
other_pair ctx = Status.success (replicate 32 8, replicate 64 9)

abbrev second : Crypto
second = resigning never_failing (Status.success 6) other_pair other_sign

abbrev second_report : AttReport
second_report = signed (filled zero_report) (replicate 8 3) (replicate 8 4)

-- The attestation server signs with the second library.
abbrev signing_anew : Sp
signing_anew = record again { group = some (ias_group second) }

second-Attests : Attests never_failing signing_anew proof (finished second_report)
unfolding ias_verify_attestation_evidence
second-Attests = record {
  group = ias_group second;
  is_group = refl;
  left = signing_anew.contexts;
  answered = refl;
  mac = works.cmac signing_anew.db.mk_key (blob_bytes (finished second_report).info_blob);
  is_mac = refl;
}

sp_ra_proc_msg3_req-replays_example :
    (a' : AttResult) × (t' : Sp) × (sp_ra_proc_msg3_req second
        (λ n. true)
        (some proof)
        (336 + (368 + 64 + 1))
        true
        signing_anew
      ≡ done (pos 0, message a', t'))
    × SameSecret (answer_of works shared) a'
    × (core t' ≡ core interrupted)
sp_ra_proc_msg3_req-replays_example =
    sp_ra_proc_msg3_req-replays never_failing (λ n. true) (λ n. true) proof (336 + (368 + 64 + 1))
      true interrupted again (pos 0) (answer_of works shared) (Status.success 6) other_pair
      other_sign (finished second_report) proof-run
      (Later.attesting (some (ias_group second)) signing_anew refl (
        Later.next never_failing (λ n. true) none 0 true sp_internal_error untouched again
          Later.here empty-run))
      second-Attests refl refl refl
