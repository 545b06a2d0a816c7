-- ===== src/Foundation/Audit.antt =====
-- src/revenue_recovery/foundation/audit.py: the hash-chained audit log and its verification. The
-- random `entry_id`, which nothing reads, is left out.
pub mod Chain
pub mod Tamper
use Prim.Native.String.{◌++◌ as concat}
use ai_revenue_recovery.Prelude.{
  ℕ, ◌+◌, String, Bool, true, false, ◌||◌, List, [], ◌∷◌, ◌++◌, ◌==◌, eqb, not, if◌then◌else◌,
  length, decimal,
}
use ai_revenue_recovery.Prelude.Exec.{Result, ok, err, Exec}
use ai_revenue_recovery.Foundation.Errors.{
  Error, validation_error, audit_sequence, audit_link, audit_hash,
}
use ai_revenue_recovery.Foundation.Value.{
  Value, dict, immutable_dict, freeze_payload, to_serializable,
}
use ai_revenue_recovery.Foundation.Runtime.{Runtime}

abbrev pub genesis_previous_hash : String
genesis_previous_hash = "0000000000000000000000000000000000000000000000000000000000000000"

pub record AuditEntry : Type 0 where
  pub sequence_number : ℕ
  pub timestamp : ℕ
  pub event_type : String
  pub payload : Value
  pub previous_hash : String
  pub entry_hash : String

abbrev pub AuditLog : Type 0
AuditLog = List AuditEntry

infixr 66 ◌&◌
abbrev pub ◌&◌ : String → String → String
a & b = concat a b

-- `self._entries[-1].entry_hash if self._entries else GENESIS_PREVIOUS_HASH`
abbrev pub last_hash : String → AuditLog → String
last_hash h [] = h
last_hash h (e ∷ log) = last_hash e.entry_hash log

-- `isinstance(v, (dict, Mapping, ImmutableDict))`
abbrev pub is_mapping : Value → Bool
is_mapping (dict fs) = true
is_mapping (immutable_dict fs) = true
is_mapping _ = false

module _ (rt : Runtime) where
  unfoldable pub canonical_json : Value → String
  canonical_json v = rt.json_dumps (to_serializable v)

  -- The text that `compute_entry_hash` digests.
  unfoldable pub digest_input : ℕ → ℕ → String → Value → String → String
  unfolding canonical_json
  digest_input sequence_number timestamp event_type payload previous_hash =
      decimal sequence_number
      & "|"
      & rt.isoformat timestamp
      & "|"
      & event_type
      & "|"
      & canonical_json payload
      & "|"
      & previous_hash

  unfoldable pub compute_entry_hash : ℕ → ℕ → String → Value → String → String
  compute_entry_hash n time kind payload prev = rt.sha256 (digest_input n time kind payload prev)

  -- The entry that `append` builds after a log.
  unfoldable pub next_entry : String → Value → ℕ → AuditLog → AuditEntry
  next_entry event_type payload timestamp log =
      let sequence_number = length log in
      let previous_hash = last_hash genesis_previous_hash log in
      let frozen_payload = freeze_payload payload in
      record {
        sequence_number = sequence_number;
        timestamp = timestamp;
        event_type = event_type;
        payload = frozen_payload;
        previous_hash = previous_hash;
        entry_hash =
            compute_entry_hash sequence_number timestamp event_type frozen_payload previous_hash;
      }

  -- `append`; the model of an entry refuses an empty event type and a payload that is no mapping.
  unfoldable pub append : String → Value → ℕ → Exec Error AuditLog AuditEntry
  append event_type payload timestamp log =
      let entry = next_entry event_type payload timestamp log in
      if event_type == "" || not (is_mapping payload)
      then (err validation_error, log)
      else (ok entry, log ++ entry ∷ [])

  -- The body of the loop of `verify_chain_integrity`, with the checks in the source's order.
  abbrev check_entry : ℕ → String → AuditEntry → Result Error Bool → Result Error Bool
  check_entry index expected_prev_hash entry rest =
      let recalculated_hash =
        compute_entry_hash entry.sequence_number entry.timestamp entry.event_type entry.payload
          entry.previous_hash in
      if not (eqb entry.sequence_number index)
      then err (audit_sequence index)
      else if not (entry.previous_hash == expected_prev_hash)
      then err (audit_link entry.sequence_number)
      else if not (entry.entry_hash == recalculated_hash)
      then err (audit_hash entry.sequence_number)
      else rest

  unfoldable pub verify_from : ℕ → String → AuditLog → Result Error Bool
  verify_from index expected_prev_hash [] = ok true
  verify_from index expected_prev_hash (entry ∷ log) =
      check_entry index expected_prev_hash entry (verify_from (index + 1) entry.entry_hash log)

  unfoldable pub verify_chain_integrity : AuditLog → Result Error Bool
  unfolding verify_from
  verify_chain_integrity log = verify_from 0 genesis_previous_hash log
