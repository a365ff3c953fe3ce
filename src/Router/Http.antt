-- ===== src/Router/Http.antt =====
-- fastapi.HTTPException as a value: what a handler returns, or the status and detail it raised.
use llm_router_server_dashbo.Base.{ℕ, String}

pub record HttpException : Type 0 where
  pub status_code : ℕ
  pub detail : String

pub data Result {ℓ} (A : Type ℓ) : Type ℓ where
  ok : A → Result A
  raised : HttpException → Result A

abbrev pub http_error : ℕ → String → HttpException
http_error status_code detail = record { status_code = status_code; detail = detail }
