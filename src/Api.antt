-- ===== src/Api.antt =====
-- The HTTP layer: app/core/security/api_key.py, the middleware of app/api/middleware, the routes of
-- app/api/routers and the health check of app/main.py.
pub mod Auth
pub mod Limit
pub mod Guard
pub mod Logging
pub mod Stack
pub mod Health
pub mod Documents
pub mod Chat
pub mod Search
use ai_backend_api.Base.{ℕ, Option, none, List, [], ◌∷◌}
use ai_backend_api.Base.Text.{Text, codes}
use ai_backend_api.Base.Dict.{Dict}

pub record Request : Type 0 where
  pub method : Text
  pub path : Text
  pub api_key : Option Text
  pub client_host : Option Text

pub record Response : Type 0 where
  pub status_code : ℕ
  pub content : Dict Text
  pub headers : Dict Text
