-- ===== src/Examples.antt =====
-- examples: web servers in front of a node. The web frameworks route a request to its handler and
-- send what the handler returns; those are the parameters that a handler takes and its result.
pub mod Flask
pub mod Fastapi
pub mod Served
pub mod Alike
pub mod Lifespan
pub mod Compose
use dlstorage.Base.{ℕ, ℤ, Text}
use dlstorage.Types.{Value}

-- The answer of `/health`.
pub record Health : Type 0 where
  pub address : Text
  pub peers : ℤ
  pub keys : ℕ

-- What a handler answers: a value as JSON or the answer of `/health`, with status 200, 204 with no
-- content, or an error status.
pub data Response : Type 0 where
  json : Value → Response
  healthy : Health → Response
  no_content : Response
  failed : ℕ → Response
