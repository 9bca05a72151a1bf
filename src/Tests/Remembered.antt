-- ===== src/Tests/Remembered.antt =====
-- An example of two questions of one user.
use ai_backend_api.Base.{zero, suc, none, some, [], ◌∷◌}
use ai_backend_api.Entity.Chat.{MessageRole}
use ai_backend_api.Repository.ChatHistory.{Codec}
use ai_backend_api.Service.Prompt.{message_new}

-- The role is the first code point.
abbrev codec : Codec
codec = record {
  dumps = λ m. elim m.role [
    | MessageRole.user ↦ 0 ∷ m.content
    | MessageRole.assistant ↦ 1 ∷ m.content
    | MessageRole.system ↦ 2 ∷ m.content
  ];
  loads = λ t. elim t [
    | [] ↦ none
    | zero ∷ content ↦ some (message_new MessageRole.user content)
    | suc n ∷ content ↦ some (message_new MessageRole.assistant content)
  ];
}
