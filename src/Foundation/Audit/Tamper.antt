-- ===== src/Foundation/Audit/Tamper.antt =====
-- The last hash of a log against the texts of its entries.
use Prim.Native.String.{count, ◌++◌ as concat}
use text.Mathlib.TextLemmas.{append_assoc, append_inj, length-append}
use ai_revenue_recovery.Prelude.{
  ℕ, ◌+◌, String, true, [], ◌∷◌, ◌≡◌, refl, sym, ap, ◌∙◌, length, arith, decimal,
}
use ai_revenue_recovery.Prelude.Exec.{ok}
use ai_revenue_recovery.Foundation.Runtime.{Runtime}
use ai_revenue_recovery.Foundation.Audit.{
  AuditEntry, AuditLog, genesis_previous_hash, last_hash, compute_entry_hash, digest_input,
  verify_chain_integrity, canonical_json, ◌&◌,
}
use ai_revenue_recovery.Foundation.Audit.Chain.{IsChained, verify_chain_integrity_iff}

-- Two texts whose ends are as long as one another have equal ends.
append_suffix : (s t u v : String) → concat s u ≡ concat t v → count u ≡ count v → u ≡ v
append_suffix s t u v e h =
    (append_inj e (omega (arith, length-append s u, length-append t v, ap count e))).1

module _ (rt : Runtime) where
  -- The text that an entry's hash digests.
  abbrev pub entry_text : AuditEntry → String
  entry_text e =
      digest_input rt e.sequence_number e.timestamp e.event_type e.payload e.previous_hash

  before_previous_hash : AuditEntry → String
  before_previous_hash e =
      decimal e.sequence_number
      & "|"
      & rt.isoformat e.timestamp
      & "|"
      & e.event_type
      & "|"
      & canonical_json rt e.payload
      & "|"

  entry_text-split :
      (e : AuditEntry) → entry_text e ≡ concat (before_previous_hash e) e.previous_hash
  unfolding before_previous_hash digest_input
  entry_text-split e = simp append_assoc

  -- Entries at the same place have the same text.
  abbrev pub SameTexts : AuditLog → AuditLog → Type 0
  SameTexts [] [] = Unit
  SameTexts (d ∷ ds) (e ∷ es) = (entry_text d ≡ entry_text e) × SameTexts ds es
  SameTexts _ _ = ⊥

  -- The digest tells apart the texts of the entries that stand at the same place of two logs.
  abbrev pub NoCollision : AuditLog → AuditLog → Type 0
  NoCollision (d ∷ ds) (e ∷ es) =
      (rt.sha256 (entry_text d) ≡ rt.sha256 (entry_text e) → entry_text d ≡ entry_text e)
      × NoCollision ds es
  NoCollision _ _ = Unit

  module _ (hex_length : (s : String) → count (rt.sha256 s) ≡ 64) where
    same_texts :
        (i : ℕ) (g h : String) (ds es : AuditLog)
        → count g ≡ 64
        → count h ≡ 64
        → length ds ≡ length es
        → NoCollision ds es
        → IsChained rt i g ds
        → IsChained rt i h es
        → last_hash g ds ≡ last_hash h es
        → (g ≡ h) × SameTexts ds es
    unfolding compute_entry_hash
    same_texts i g h [] [] cg ch n k c d l = (l, tt)
    same_texts i g h [] (e ∷ es) cg ch n k c d l = absurd (omega arith)
    same_texts i g h (d ∷ ds) [] cg ch n k c c' l = absurd (omega arith)
    same_texts i g h (d ∷ ds) (e ∷ es) cg ch n k c c' l =
        let (previous, texts) =
          same_texts (i + 1) d.entry_hash e.entry_hash ds es
            (ap count c.2 ∙ hex_length (entry_text d)) (ap count c'.2 ∙ hex_length (entry_text e))
            (omega arith) k.1 c.3 c'.3 l in
        let here : entry_text d ≡ entry_text e = k.0 (sym c.2 ∙ previous ∙ c'.2) in
        let linked : d.previous_hash ≡ e.previous_hash =
          append_suffix (before_previous_hash d) (before_previous_hash e) _ _
            (sym (entry_text-split d) ∙ here ∙ entry_text-split e)
            (ap count c.1 ∙ cg ∙ sym ch ∙ sym (ap count c'.1)) in
        (sym c.1 ∙ linked ∙ c'.1, (here, texts))

    -- Two logs of one length that both pass the verification and end in the same hash record the
    -- same texts in the same order, if every digest has 64 characters and the digest does not
    -- collide on the entries at the same place.
    pub last_hash-commits :
        (ds es : AuditLog)
        → length ds ≡ length es
        → NoCollision ds es
        → verify_chain_integrity rt ds ≡ ok true
        → verify_chain_integrity rt es ≡ ok true
        → last_hash genesis_previous_hash ds ≡ last_hash genesis_previous_hash es
        → SameTexts ds es
    last_hash-commits ds es n k v w l =
        (same_texts 0 genesis_previous_hash genesis_previous_hash ds es refl refl n k
          ((verify_chain_integrity_iff rt ds).0 v) ((verify_chain_integrity_iff rt es).0 w) l).1
