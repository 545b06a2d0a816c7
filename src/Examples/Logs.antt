-- ===== src/Examples/Logs.antt =====
-- Audit logs of one and two entries, over a small digest.
use Prim.Native.String.{count}
use ai_revenue_recovery.Prelude.{
  ℕ, String, true, List, [], ◌∷◌, ◌++◌, ◌≡◌, ◌≢◌, refl, ◌↔◌, arith, if◌then◌else◌, ◌==◌, Bool-cases,
  inl, inr, eq_iff,
}
use ai_revenue_recovery.Prelude.Exec.{ok}
use ai_revenue_recovery.Foundation.Value.{Value, Fields, nat, dict, immutable_dict, end}
use ai_revenue_recovery.Foundation.Runtime.{Runtime}
use ai_revenue_recovery.Foundation.Audit.{
  AuditEntry, AuditLog, genesis_previous_hash, last_hash, next_entry, verify_chain_integrity,
  compute_entry_hash,
}
use ai_revenue_recovery.Foundation.Audit.Chain.{
  IsChained, IsSealed, append_all, verify_chain_integrity_iff, verify_chain_integrity-append_all,
}
use ai_revenue_recovery.Foundation.Audit.Tamper.{SameTexts, last_hash-commits}

abbrev pub ones : String
ones = "1111111111111111111111111111111111111111111111111111111111111111"

-- A digest of 64 characters that tells the empty text from the others.
abbrev small_digest : String → String
small_digest s = if s == "" then genesis_previous_hash else ones

abbrev pub runtime : Runtime
runtime = record {
  sha256 = small_digest;
  hmac_sha256 = λ secret s. small_digest s;
  isoformat = λ t. "t";
  json_datetime = λ t. "t";
  json_dumps = λ v. "{}";
  str = λ v. "value";
}

small_digest-count : (s : String) → count (small_digest s) ≡ 64
small_digest-count s = elim (Bool-cases (s == "")) [ inl e ↦ rw e refl | inr e ↦ rw e refl ]

abbrev entry : Fields → AuditEntry
entry fs = record {
  sequence_number = 0;
  timestamp = 5;
  event_type = "CASE_CREATED";
  payload = dict fs;
  previous_hash = genesis_previous_hash;
  entry_hash = ones;
}

abbrev forged : AuditEntry
forged = record (entry end) { entry_hash = genesis_previous_hash }

verify_runs : verify_chain_integrity runtime (entry end ∷ []) ≡ ok true
unfolding verify_chain_integrity compute_entry_hash
    ai_revenue_recovery.Foundation.Audit.digest_input ai_revenue_recovery.Prelude.decimal
verify_runs = refl

verify_chain_integrity_iff_example :
    (verify_chain_integrity runtime (forged ∷ []) ≡ ok true)
    ↔ IsChained runtime 0 genesis_previous_hash (forged ∷ [])
verify_chain_integrity_iff_example = verify_chain_integrity_iff runtime (forged ∷ [])

abbrev two_calls : List (String × Value × ℕ)
two_calls = ("CASE_CREATED", nat 1, 5) ∷ ("", nat 2, 6) ∷ ("CASE_TRANSITIONED", nat 3, 7) ∷ []

verify_chain_integrity-append_all_example :
    verify_chain_integrity runtime (append_all runtime two_calls []) ≡ ok true
verify_chain_integrity-append_all_example = verify_chain_integrity-append_all runtime two_calls

forged-not-IsSealed : ¬ IsSealed runtime forged
unfolding compute_entry_hash ai_revenue_recovery.Foundation.Audit.digest_input
    ai_revenue_recovery.Prelude.decimal
forged-not-IsSealed e = ground (arith, eq_iff genesis_previous_hash ones)

-- The same fields, plain and frozen, have the same text.
abbrev plain_log : AuditLog
plain_log = entry end ∷ []

abbrev frozen_log : AuditLog
frozen_log = record (entry end) { payload = immutable_dict end } ∷ []

last_hash-commits_example : SameTexts runtime plain_log frozen_log
unfolding verify_chain_integrity compute_entry_hash
    ai_revenue_recovery.Foundation.Audit.digest_input ai_revenue_recovery.Prelude.decimal
last_hash-commits_example =
    last_hash-commits runtime small_digest-count plain_log frozen_log refl ((λ e. refl), tt) refl
      refl refl
