-- ===== src/Foundation/Audit/Chain.antt =====
-- The hash chain that `append` builds and `verify_chain_integrity` checks.
use ai_revenue_recovery.Prelude.{
  ℕ, ◌+◌, String, true, ◌||◌, not, List, [], ◌∷◌, ◌++◌, ◌≡◌, ◌↔◌, refl, length, arith, eq_iff, ◌==◌,
  ◌≢◌, Bool-cases, inl, inr,
}
use ai_revenue_recovery.Prelude.Exec.{ok}
use ai_revenue_recovery.Foundation.Value.{Value}
use ai_revenue_recovery.Foundation.Runtime.{Runtime}
use ai_revenue_recovery.Foundation.Audit.{
  AuditEntry, AuditLog, genesis_previous_hash, last_hash, compute_entry_hash, next_entry,
  is_mapping, append, verify_from, verify_chain_integrity,
}

module _ (rt : Runtime) where
  -- The entry's own hash is the digest of its other fields.
  abbrev pub IsSealed : AuditEntry → Type 0
  IsSealed e =
      e.entry_hash
      ≡ compute_entry_hash rt e.sequence_number e.timestamp e.event_type e.payload e.previous_hash

  -- The entries are numbered from `index`, each sealed and linked to the one before it.
  abbrev pub IsChained : ℕ → String → AuditLog → Type 0
  IsChained index prev [] = Unit
  IsChained index prev (e ∷ log) =
      (e.sequence_number ≡ index)
      × (e.previous_hash ≡ prev)
      × IsSealed e
      × IsChained (index + 1) e.entry_hash log

  verify_from_sound :
      (index : ℕ) (prev : String) (log : AuditLog)
      → verify_from rt index prev log ≡ ok true
      → IsChained index prev log
  unfolding verify_from
  verify_from_sound index prev [] h = tt
  verify_from_sound index prev (e ∷ log) h = ground (
    arith,
    eq_iff e.previous_hash prev,
    eq_iff e.entry_hash (
        compute_entry_hash rt e.sequence_number e.timestamp e.event_type e.payload e.previous_hash),
    verify_from_sound (index + 1) e.entry_hash log,
  )

  verify_from_complete :
      (index : ℕ) (prev : String) (log : AuditLog)
      → IsChained index prev log
      → verify_from rt index prev log ≡ ok true
  unfolding verify_from
  verify_from_complete index prev [] h = refl
  verify_from_complete index prev (e ∷ log) h = ground (
    arith,
    eq_iff e.previous_hash prev,
    eq_iff e.entry_hash (
        compute_entry_hash rt e.sequence_number e.timestamp e.event_type e.payload e.previous_hash),
    verify_from_complete (index + 1) e.entry_hash log,
  )

  IsChained-append :
      (index : ℕ) (prev : String) (log : AuditLog) (e : AuditEntry)
      → IsChained index prev log
      → e.sequence_number ≡ index + length log
      → e.previous_hash ≡ last_hash prev log
      → IsSealed e
      → IsChained index prev (log ++ e ∷ [])
  IsChained-append index prev [] e h n p s = (omega arith, p, s, tt)
  IsChained-append index prev (x ∷ log) e h n p s =
      (h.0, h.1, h.2, IsChained-append (index + 1) x.entry_hash log e h.3 (omega arith) p s)

  -- `verify_chain_integrity` returns exactly on the logs that are numbered from 0, sealed and linked
  -- from the genesis hash.
  pub verify_chain_integrity_iff :
      (log : AuditLog)
      → (verify_chain_integrity rt log ≡ ok true) ↔ IsChained 0 genesis_previous_hash log
  unfolding verify_chain_integrity
  verify_chain_integrity_iff log = (
    verify_from_sound 0 genesis_previous_hash log,
    verify_from_complete 0 genesis_previous_hash log,
  )

  next_entry-IsChained :
      (kind : String) (payload : Value) (time : ℕ) (log : AuditLog)
      → IsChained 0 genesis_previous_hash log
      → IsChained 0 genesis_previous_hash (log ++ next_entry rt kind payload time log ∷ [])
  unfolding next_entry
  next_entry-IsChained kind payload time log h =
      IsChained-append 0 genesis_previous_hash log _ h (omega arith) refl refl

  -- `append` keeps the chain, also when it raises.
  pub append-IsChained :
      (kind : String) (payload : Value) (time : ℕ) (log : AuditLog)
      → IsChained 0 genesis_previous_hash log
      → IsChained 0 genesis_previous_hash (append rt kind payload time log).1
  unfolding append
  append-IsChained kind payload time log h =
      elim (Bool-cases (kind == "" || not (is_mapping payload))) [
        | inl e ↦ rw e h
        | inr e ↦ rw e (next_entry-IsChained kind payload time log h)
      ]

  -- The log after a sequence of calls of `append`, whatever each returns.
  abbrev pub append_all : List (String × Value × ℕ) → AuditLog → AuditLog
  append_all [] log = log
  append_all ((kind, payload, time) ∷ calls) log =
      append_all calls (append rt kind payload time log).1

  append_all-IsChained :
      (calls : List (String × Value × ℕ)) (log : AuditLog)
      → IsChained 0 genesis_previous_hash log
      → IsChained 0 genesis_previous_hash (append_all calls log)
  append_all-IsChained [] log h = h
  append_all-IsChained ((kind, payload, time) ∷ calls) log h =
      append_all-IsChained calls (append rt kind payload time log).1
        (append-IsChained kind payload time log h)

  -- A log that was built by calls of `append` alone, from a new logger on, passes its verification.
  pub verify_chain_integrity-append_all :
      (calls : List (String × Value × ℕ))
      → verify_chain_integrity rt (append_all calls []) ≡ ok true
  verify_chain_integrity-append_all calls =
      (verify_chain_integrity_iff (append_all calls [])).1 (append_all-IsChained calls [] tt)

  -- One changed entry is found: where the entry at some place of a log has a hash that is not the
  -- digest of its other fields, the verification does not return.
  pub verify_chain_integrity-tampered :
      (before : AuditLog) (e : AuditEntry) (after : AuditLog)
      → ¬ IsSealed e
      → verify_chain_integrity rt (before ++ e ∷ after) ≢ ok true
  verify_chain_integrity-tampered before e after h v =
      h (sealed_at 0 genesis_previous_hash before ((verify_chain_integrity_iff _).0 v))
    where
      sealed_at :
          (index : ℕ) (prev : String) (xs : AuditLog)
          → IsChained index prev (xs ++ e ∷ after)
          → IsSealed e
      sealed_at index prev [] c = c.2
      sealed_at index prev (x ∷ xs) c = sealed_at (index + 1) x.entry_hash xs c.3
