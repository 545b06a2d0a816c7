-- ===== src/AiDecision/Artifacts/Routing.antt =====
-- Where `create_decision_artifact` returns, and which action it recommends.
use Prim.Native.Char.{Char}
use Prim.Native.String.{◌++◌ as concat, ◌∷◌ as ◌◂◌, [], ◌∷◌}
use package.text.Mathlib.TextLemmas.{cons-append}
use ai_revenue_recovery.Prelude.{
  ℕ, ◌≤◌, String, true, false, Option, none, some, ◌≡◌, ◌≢◌, ◌⊎◌, ◌↔◌, inl, inr, refl, arith,
  Bool-cases, eq_iff, ◌==◌, not, lower, lower-is_hex, ap, ◌||◌,
}
use ai_revenue_recovery.Prelude.Int.{pos, sub_ℕ, leb_ℤ}
use ai_revenue_recovery.Prelude.Exec.{ok, err}
use ai_revenue_recovery.Foundation.Errors.{value_error}
use ai_revenue_recovery.Foundation.Events.{
  retry_charge, send_notification, no_action, direct_payment_gateway, internal_system, RiskTier,
  diagnosed, evaluating, RecoveryCase, channel_value, eq_risk_tier, eq_channel,
}
use ai_revenue_recovery.Foundation.Value.{
  Fields, dict, text, nat, get, freeze_fields, to_serializable, freeze_payload,
  to_serializable-freeze_payload,
}
use ai_revenue_recovery.Foundation.Runtime.{Runtime}
use ai_revenue_recovery.Foundation.Audit.{canonical_json}
use ai_revenue_recovery.Recovery.Diagnosis.{DiagnosisResult}
use ai_revenue_recovery.AiDecision.Artifacts.{
  DecisionArtifact, Draw, Versions, reasoning_or, recommend, recommend_nothing, recommend_retry,
  recommend_notification, is_evaluable, is_digest, accepts_artifact, artifact_of, input_snapshot_of,
  compute_canonical_input_hash, create_decision_artifact,
}

-- The digest of every text is 64 small hexadecimal digits, as SHA-256's is.
abbrev pub HasDigests : Runtime → Type 0
HasDigests rt = (s : String) → is_digest (rt.sha256 s) ≡ true

abbrev pub IsEvaluable : RecoveryCase → Type 0
IsEvaluable case = (case.state ≡ diagnosed) ⊎ (case.state ≡ evaluating)

pub is_evaluable_iff : (case : RecoveryCase) → (is_evaluable case ≡ true) ↔ IsEvaluable case
unfolding is_evaluable
is_evaluable_iff case = (λ h. ground arith, λ h. ground arith)

-- Recovery is ruled out: the case is BLOCKED or was found not to be recoverable.
abbrev pub IsBarred : RecoveryCase → DiagnosisResult → Type 0
IsBarred case diagnosis = (case.risk_tier ≡ RiskTier.blocked) ⊎ (diagnosis.is_recoverable ≡ false)

-- What the validators of the case, the diagnosis and the versions grant.
pub record IsWellFormed (case : RecoveryCase) (diagnosis : DiagnosisResult) (v : Versions)
    : Type 0 where
  pub case_id : case.case_id ≢ ""
  pub risk_score : diagnosis.risk_score ≤ 10000
  pub model_version : v.model_version ≢ ""
  pub prompt_version : v.prompt_version ≢ ""
  pub tool_schema_version : v.tool_schema_version ≢ ""

-- The action follows from the case and the diagnosis.
pub record IsRouted (case : RecoveryCase) (diagnosis : DiagnosisResult) (v : Versions)
    (a : DecisionArtifact) : Type 0 where
  pub model_version : a.model_version ≡ v.model_version
  pub prompt_version : a.prompt_version ≡ v.prompt_version
  pub tool_schema_version : a.tool_schema_version ≡ v.tool_schema_version
  pub nothing : (a.recommended_action ≡ no_action) ↔ IsBarred case diagnosis
  pub retry :
      (a.recommended_action ≡ retry_charge)
      ↔ ((¬ IsBarred case diagnosis) × (diagnosis.recommended_channel ≡ direct_payment_gateway))
  pub notification :
      (a.recommended_action ≡ send_notification)
      ↔ ((¬ IsBarred case diagnosis) × (diagnosis.recommended_channel ≢ direct_payment_gateway))
  pub amount :
      ¬ IsBarred case diagnosis → get "amount_in_cents" a.parameters ≡ nat case.amount_in_cents
  pub channel :
      ¬ IsBarred case diagnosis
      → get "channel" a.parameters ≡ text (channel_value diagnosis.recommended_channel)
  pub internal :
      IsBarred case diagnosis → get "channel" a.parameters ≡ text (channel_value internal_system)
  pub confidence : ¬ IsBarred case diagnosis → a.confidence_score ≡ sub_ℕ 10000 diagnosis.risk_score

recommend-cases :
    (case : RecoveryCase) (diagnosis : DiagnosisResult) (given : Option String)
    → (IsBarred case diagnosis × (recommend case diagnosis given ≡ recommend_nothing case given))
      ⊎ (((¬ IsBarred case diagnosis)
            × (diagnosis.recommended_channel ≡ direct_payment_gateway)
            × (recommend case diagnosis given ≡ recommend_retry case diagnosis given))
          ⊎ ((¬ IsBarred case diagnosis)
              × (diagnosis.recommended_channel ≢ direct_payment_gateway)
              × (recommend case diagnosis given ≡ recommend_notification case diagnosis given)))
unfolding recommend
recommend-cases case diagnosis given =
    elim (Bool-cases
      (eq_risk_tier case.risk_tier RiskTier.blocked || not diagnosis.is_recoverable)) [
        | inl e ↦ inl (ground arith, rw e refl)
        | inr e ↦
            elim (Bool-cases (eq_channel diagnosis.recommended_channel direct_payment_gateway)) [
              | inl f ↦ inr (inl (λ b. ground arith, ground arith, rw (e, f) refl))
              | inr f ↦ inr (inr (λ b. ground arith, λ g. ground arith, rw (e, f) refl))
            ]
      ]

routed :
    (draw : Draw) (case : RecoveryCase) (diagnosis : DiagnosisResult) (v : Versions)
    (given : Option String) (hash : String) (snapshot : Fields)
    → IsRouted case diagnosis v
        (artifact_of draw case v hash snapshot (recommend case diagnosis given))
unfolding artifact_of recommend_nothing recommend_retry recommend_notification get freeze_fields
    freeze_payload
routed draw case diagnosis v given hash snapshot = elim (recommend-cases case diagnosis given) [
  | inl (b, e) ↦ rw e (record {
    model_version = refl;
    prompt_version = refl;
    tool_schema_version = refl;
    nothing = (λ h. b, λ h. refl);
    retry = (λ h. ground arith, λ h. absurd (h.0 b));
    notification = (λ h. ground arith, λ h. absurd (h.0 b));
    amount = λ n. absurd (n b);
    channel = λ n. absurd (n b);
    internal = λ h. refl;
    confidence = λ n. absurd (n b);
  })
  | inr (inl (n, c, e)) ↦ rw e (record {
    model_version = refl;
    prompt_version = refl;
    tool_schema_version = refl;
    nothing = (λ h. ground arith, λ b. absurd (n b));
    retry = (λ h. (n, c), λ h. refl);
    notification = (λ h. ground arith, λ h. absurd (h.1 c));
    amount = λ h. refl;
    channel = λ h. rw c refl;
    internal = λ b. absurd (n b);
    confidence = λ h. refl;
  })
  | inr (inr (n, c, e)) ↦ rw e (record {
    model_version = refl;
    prompt_version = refl;
    tool_schema_version = refl;
    nothing = (λ h. ground arith, λ b. absurd (n b));
    retry = (λ h. ground arith, λ h. absurd (c h.1));
    notification = (λ h. (n, c), λ h. refl);
    amount = λ h. refl;
    channel = λ h. refl;
    internal = λ b. absurd (n b);
    confidence = λ h. refl;
  })
]

reasoning_or-nonempty :
    (given : Option String) (default : String)
    → (default == "") ≡ false
    → (reasoning_or given default == "") ≡ false
reasoning_or-nonempty none default h = h
reasoning_or-nonempty (some s) default h = ground (arith, eq_iff s "")

size : String → ℕ
size [] = 0
size (c ∷ s) = 1

-- A text that begins with a character is not empty.
append-nonempty : (c : Char) (s t : String) → (concat (c ◂ s) t == "") ≡ false
unfolding size
append-nonempty c s t = elim (Bool-cases (concat (c ◂ s) t == "")) [
  | inr e ↦ e
  | inl e ↦
      absurd
        (ground (arith, ap size (cons-append c s t), ap size ((eq_iff (concat (c ◂ s) t) "").0 e)))
]

recommend-IsBounded :
    (case : RecoveryCase) (diagnosis : DiagnosisResult) (given : Option String)
    → diagnosis.risk_score ≤ 10000
    → (leb_ℤ (pos 0) (recommend case diagnosis given).confidence_score ≡ true)
      × (leb_ℤ (recommend case diagnosis given).confidence_score (pos 10000) ≡ true)
      × (((recommend case diagnosis given).reasoning == "") ≡ false)
unfolding recommend_nothing recommend_retry recommend_notification
recommend-IsBounded case diagnosis given h = elim (recommend-cases case diagnosis given) [
  | inl (b, e) ↦ rw e (refl, refl, reasoning_or-nonempty given _ refl)
  | inr (inl (n, c, e)) ↦ rw e (
    ground arith,
    ground arith,
    reasoning_or-nonempty given _ (append-nonempty "A" "utomated payment retry recommended via " _),
  )
  | inr (inr (n, c, e)) ↦ rw e (
    ground arith,
    ground arith,
    reasoning_or-nonempty given _ (append-nonempty "C" "ustomer notification recommended via " _),
  )
]

canonical_json-freeze :
    (rt : Runtime) (fs : Fields)
    → canonical_json rt (dict (freeze_fields fs)) ≡ canonical_json rt (dict fs)
unfolding canonical_json to_serializable freeze_payload
canonical_json-freeze rt fs = ap rt.json_dumps (to_serializable-freeze_payload (dict fs))

-- A hash that is kept in small letters is the hash of the frozen snapshot.
compute_canonical_input_hash-freeze :
    (rt : Runtime)
    → HasDigests rt
    → (fs : Fields)
    → lower (compute_canonical_input_hash rt fs)
      ≡ compute_canonical_input_hash rt (freeze_fields fs)
unfolding compute_canonical_input_hash is_digest
compute_canonical_input_hash-freeze rt digests fs =
    rw (compute_canonical_input_hash, canonical_json-freeze rt fs)
      (lower-is_hex (rt.sha256 (canonical_json rt (dict fs)))
        (ground (arith, digests (canonical_json rt (dict fs)))))

is_digest-hash :
    (rt : Runtime)
    → HasDigests rt
    → (fs : Fields) → is_digest (compute_canonical_input_hash rt fs) ≡ true
unfolding compute_canonical_input_hash
is_digest-hash rt digests fs = digests (canonical_json rt (dict fs))

accepted :
    (rt : Runtime)
    → HasDigests rt
    → (draw : Draw) (case : RecoveryCase) (diagnosis : DiagnosisResult) (v : Versions)
      (given : Option String) (fs : Fields)
    → IsWellFormed case diagnosis v
    → accepts_artifact (
        artifact_of draw case v
          (compute_canonical_input_hash rt fs)
          fs
          (recommend case diagnosis given))
      ≡ true
unfolding accepts_artifact artifact_of
accepted rt digests draw case diagnosis v given fs wf =
    rw (compute_canonical_input_hash-freeze rt digests fs) (
      ground (
        arith,
        eq_iff case.case_id "",
        eq_iff v.model_version "",
        eq_iff v.prompt_version "",
        eq_iff v.tool_schema_version "",
        recommend-IsBounded case diagnosis given wf.risk_score,
        is_digest-hash rt digests (freeze_fields fs),
      ))

-- With digests as SHA-256 makes them and well-formed arguments, `create_decision_artifact` returns
-- for a DIAGNOSED or EVALUATING case, and raises a ValueError for any other. The artifact's hash is
-- the hash of its own snapshot, and its action is NO_ACTION exactly if recovery is barred,
-- RETRY_CHARGE exactly if it is not and the diagnosis names the payment gateway, and
-- SEND_NOTIFICATION otherwise, with the case's amount, the diagnosed channel and the confidence
-- 1 - risk score, or the internal channel for NO_ACTION; it names the given versions of the model,
-- the prompt and the tool schema.
pub create_decision_artifact-IsRouted :
    (rt : Runtime) (draw : Draw) (case : RecoveryCase) (diagnosis : DiagnosisResult) (v : Versions)
    (given : Option String)
    → HasDigests rt
    → IsWellFormed case diagnosis v
    → (IsEvaluable case
        → (a : DecisionArtifact) × (create_decision_artifact rt draw case diagnosis v given ≡ ok a)
          × (a.canonical_input_hash ≡ compute_canonical_input_hash rt a.input_snapshot)
          × IsRouted case diagnosis v a)
      × (¬ IsEvaluable case
          → create_decision_artifact rt draw case diagnosis v given ≡ err value_error)
unfolding create_decision_artifact
create_decision_artifact-IsRouted rt draw case diagnosis v given digests wf =
    let fs = input_snapshot_of case diagnosis in
    let r = recommend case diagnosis given in
    let a = artifact_of draw case v (compute_canonical_input_hash rt fs) fs r in
    (
      λ h. (
        a,
        ground
            (arith, is_evaluable_iff case, accepted rt digests draw case diagnosis v given fs wf),
        unfold artifact_of in compute_canonical_input_hash-freeze rt digests fs,
        routed draw case diagnosis v given (compute_canonical_input_hash rt fs) fs,
      ),
      λ n. ground (arith, is_evaluable_iff case),
    )
