-- ===== src/Service/Prompt.antt =====
-- app/application/services/prompt_service.py
use ai_backend_api.Base.{List, [], ◌∷◌, ◌++◌, ◌≡◌, refl}
use ai_backend_api.Base.Text.{Text, codes, replace}
use ai_backend_api.Entity.Chat.{ChatMessage, MessageRole}

abbrev pub context_placeholder : Text
context_placeholder = codes "%%CONTEXT%%"

-- What stands before and after the placeholder in `_RAG_SYSTEM_PROMPT`.
abbrev pub prompt_head : Text
prompt_head =
    codes
      "You are a helpful AI assistant. Answer questions based ONLY on the provided context.\n\nRules:\n1. Use ONLY the information from the [CONTEXT] section below\n2. If the context does not contain enough information, say \"I don't have enough information to answer that\"\n3. Cite sources using [1], [2], etc. corresponding to the context blocks\n4. Be concise and accurate\n5. Do not make up information not present in the context\n\n[CONTEXT]\n"

abbrev pub prompt_tail : Text
prompt_tail = codes "\n[END CONTEXT]"

-- The f-string `_RAG_SYSTEM_PROMPT`.
abbrev pub rag_system_prompt : Text
rag_system_prompt = prompt_head ++ (context_placeholder ++ prompt_tail)

unfoldable pub build_system_prompt : Text
build_system_prompt =
    codes "You are a helpful AI assistant. Be concise and accurate in your responses."

abbrev pub message_new : MessageRole → Text → ChatMessage
message_new role content = record { role = role; content = content; metadata = [] }

-- `history` None and the empty list add nothing.
unfoldable pub build_rag_prompt : Text → Text → List ChatMessage → List ChatMessage
unfolding replace
build_rag_prompt query context history =
    let system_content = replace context_placeholder context rag_system_prompt in
    message_new MessageRole.system system_content
    ∷ (history ++ (message_new MessageRole.user query ∷ []))

-- Whatever the context holds (the placeholder and braces included), it stands as it is, once,
-- between the fixed head and tail of the system message; the history follows in its order, and the
-- query comes last.
pub build_rag_prompt_lem :
    (query context : Text) (history : List ChatMessage)
    → build_rag_prompt query context history
      ≡ message_new MessageRole.system (prompt_head ++ (context ++ prompt_tail))
        ∷ (history ++ (message_new MessageRole.user query ∷ []))
unfolding build_rag_prompt replace
build_rag_prompt_lem query context history = refl
