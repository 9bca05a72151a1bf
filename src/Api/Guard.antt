-- ===== src/Api/Guard.antt =====
-- The API key dependency of the routers: app/api/routers with app/core/security/api_key.py.
use ai_backend_api.Base.{◌≡◌, Option, none, some, [], ◌∷◌}
use ai_backend_api.Base.Text.{Text}
use ai_backend_api.Api.Auth.{HttpException}
use ai_backend_api.Api.Chat
use ai_backend_api.Api.Documents
use ai_backend_api.Api.Search

abbrev pub IsRefusal : Option Text → HttpException → Type 0
IsRefusal none e = e.status_code ≡ 401
IsRefusal (some []) e = e.status_code ≡ 401
IsRefusal (some (c ∷ cs)) e = e.status_code ≡ 403
