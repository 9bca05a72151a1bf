-- ===== src/Entity/Chat.antt =====
-- app/domain/entities/chat.py and search_result.py
use ai_backend_api.Base.{ℕ, Option, none, some, List, leb, if◌then◌else◌}
use ai_backend_api.Base.Text.{Text, codes}
use ai_backend_api.Base.Dict.{Dict}
use ai_backend_api.Entity.Values.{ChunkId, DocumentId, CollectionId, Value}

pub data MessageRole : Type 0 where
  system user assistant : MessageRole

-- `role.value`
unfoldable pub role_value : MessageRole → Text
role_value MessageRole.system = codes "system"
role_value MessageRole.user = codes "user"
role_value MessageRole.assistant = codes "assistant"

pub record ChatMessage : Type 0 where
  pub role : MessageRole
  pub content : Text
  pub metadata : Dict Value

-- Costs are not computed where usage is recorded: `estimated_cost` keeps its default and is left
-- out.
pub record TokenUsage : Type 0 where
  pub prompt_tokens : ℕ
  pub completion_tokens : ℕ
  pub total_tokens : ℕ

-- Scores are fractions of `score_one`: the program compares and copies them.
abbrev pub score_one : ℕ
score_one = 1_000_000

pub record SearchResult : Type 0 where
  pub chunk_id : ChunkId
  pub document_id : DocumentId
  pub collection_id : CollectionId
  pub content : Text
  pub score : ℕ
  pub metadata : Dict Value
  pub document_title : Text
  pub chunk_index : ℕ

-- The constructor with its constraint `0.0 ≤ score ≤ 1.0`.
unfoldable pub search_result :
    ChunkId → DocumentId → CollectionId → Text → ℕ → Dict Value → Text → ℕ → Option SearchResult
search_result chunk_id document_id collection_id content score metadata title index =
    if leb score score_one
    then some (record {
      chunk_id = chunk_id;
      document_id = document_id;
      collection_id = collection_id;
      content = content;
      score = score;
      metadata = metadata;
      document_title = title;
      chunk_index = index;
    })
    else none

pub record ChatResponse : Type 0 where
  pub message : ChatMessage
  pub sources : List SearchResult
  pub token_usage : Option TokenUsage
