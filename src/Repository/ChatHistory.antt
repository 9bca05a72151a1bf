-- ===== src/Repository/ChatHistory.antt =====
-- app/infrastructure/repositories/redis_chat_repo.py. Redis lists under keys; JSON is a parameter.
pub mod Recent
use ai_backend_api.Base.{ℕ, zero, suc, ◌-◌, Option, none, some, List, [], ◌∷◌, ◌++◌, drop, length}
use ai_backend_api.Base.Text.{Text, codes}
use ai_backend_api.Base.Dict.{Dict, get, put, remove}
use ai_backend_api.Entity.Values.{UserId}
use ai_backend_api.Entity.Chat.{ChatMessage}

abbrev pub max_history_size : ℕ
max_history_size = 100

-- `json.dumps` of a message's fields, and `json.loads` with the constructor; None where the source
-- catches an exception.
pub record Codec : Type 0 where
  pub dumps : ChatMessage → Text
  pub loads : Text → Option ChatMessage

-- The lists of Redis; a list that is missing is empty.
abbrev pub Lists : Type 0
Lists = Dict (List Text)

pub history_key : UserId → Text
history_key user_id = codes "chat:" ++ user_id.value

abbrev pub or_empty : Option (List Text) → List Text
or_empty none = []
or_empty (some l) = l

unfoldable pub list_at : Text → Lists → List Text
list_at key lists = or_empty (get lists key)

-- The last `n` items: LTRIM and LRANGE from -n to -1, for `n` other than 0.
unfoldable pub last : {A : Type 0} → ℕ → List A → List A
last n l = drop (length l - n) l

-- LRANGE from -limit to -1; -0 is the first item.
unfoldable pub lrange_last : ℕ → List Text → List Text
unfolding last
lrange_last zero l = l
lrange_last (suc n) l = last (suc n) l

module _ (codec : Codec) where
  -- RPUSH and LTRIM in one transaction; the time to live is left out.
  unfoldable pub save_message : UserId → ChatMessage → Lists → Lists
  unfolding list_at last
  save_message user_id message lists =
      let key = history_key user_id in
      put lists key (last max_history_size (list_at key lists ++ (codec.dumps message ∷ [])))

  -- Entries that do not parse are left out.
  unfoldable pub parse_all : List Text → List ChatMessage
  parse_all [] = []
  parse_all (raw ∷ raws) =
      let rest = parse_all raws in elim (codec.loads raw) [ none ↦ rest | some m ↦ m ∷ rest ]

  unfoldable pub get_history : UserId → ℕ → Lists → List ChatMessage
  unfolding list_at lrange_last parse_all
  get_history user_id limit lists =
      parse_all (lrange_last limit (list_at (history_key user_id) lists))

unfoldable pub clear_history : UserId → Lists → Lists
clear_history user_id lists = remove lists (history_key user_id)
