-- ===== src/Foundation/Runtime.antt =====
-- What the program takes from libraries and does not implement: SHA-256 and HMAC hex digests,
-- `datetime.isoformat`, pydantic's JSON text of a datetime, `json.dumps` of plain data, and
-- `str` of a value. The
-- components take it as a parameter.
use ai_revenue_recovery.Prelude.{ℕ, String}
use ai_revenue_recovery.Foundation.Value.{Value}

pub record Runtime : Type 0 where
  pub sha256 : String → String
  pub hmac_sha256 : String → String → String
  pub isoformat : ℕ → String
  pub json_datetime : ℕ → String
  pub json_dumps : Value → String
  pub str : Value → String
