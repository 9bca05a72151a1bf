-- ===== src/Tests/Tables.antt =====
-- Examples on the documents in PostgreSQL.
use ai_backend_api.Base.{
  ℕ, ◌≡◌, refl, none, some, List, [], ◌∷◌, suc, zero, ap, ◌∙◌, ◌++◌, append-nil, if◌then◌else◌,
}
use ai_backend_api.Base.Text.{Text, codes, text_eq}
use ai_backend_api.Base.Dict.{Dict}
use ai_backend_api.Base.Result.{ok, err}
use ai_backend_api.Entity.Values.{Uuid, DocumentId, Value}
use ai_backend_api.Entity.Identity.{Entity}
use ai_backend_api.Entity.Document.{Document, DocumentStatus}
use ai_backend_api.Errors.{Exc}
use ai_backend_api.Repository.Documents
use ai_backend_api.Repository.Documents.{
  DocumentLibrary, Row, Database, first_row, has_id, is_duplicate, content_hash, row_of,
}
use ai_backend_api.Repository.Documents.Rows.{IsDocumentCodec, with_id, connected, get_by_id-save}
use ai_backend_api.Repository.Documents.Scope.{reads-scoped}
use ai_backend_api.UseCase.Ingest.{IngestBackend, IngestRequest, Draws, collection_of, execute}
use ai_backend_api.UseCase.Ingest.Memory.{QueuedTask}
use ai_backend_api.UseCase.Ingest.Postgres.{postgres_backend, ingest_twice}

-- A dictionary as pairs of codes: the characters of a key under 0, those of a text under 2, the end
-- of a text under 3 and a number under 4. It is read from its end.
write_text : ℕ → Text → Text → Text
write_text tag [] rest = rest
write_text tag (c ∷ s) rest = tag ∷ c ∷ write_text tag s rest

write_value : Value → Text → Text
write_value (Value.str s) rest = write_text 2 s (3 ∷ 0 ∷ rest)
write_value (Value.int n) rest = 4 ∷ n ∷ rest

write : Dict Value → Text
write [] = []
write ((k, v) ∷ d) = write_text 0 k (write_value v (write d))

add : ℕ → ℕ → Dict Value → Dict Value
add zero c ((k, v) ∷ d) = (c ∷ k, v) ∷ d
add (suc (suc zero)) c ((k, Value.str s) ∷ d) = (k, Value.str (c ∷ s)) ∷ d
add (suc (suc (suc zero))) c d = ([], Value.str []) ∷ d
add (suc (suc (suc (suc zero)))) n d = ([], Value.int n) ∷ d
add _ c d = d

read : Text → Dict Value
read (tag ∷ c ∷ rest) = add tag c (read rest)
read _ = []

abbrev library : DocumentLibrary
library = record {
  sha256_hex = λ t. t;
  dumps = λ d. 123 ∷ write d;
  loads = λ t. elim t [ [] ↦ err (Exc.value_error []) | _ ∷ s ↦ ok (read s) ];
}

read-text :
    (s : Text) (k : Text) (d : Dict Value) (rest : Text) (t : Text)
    → read rest ≡ (k, Value.str t) ∷ d
    → read (write_text 2 s rest) ≡ (k, Value.str (s ++ t)) ∷ d
unfolding read write_text add
read-text [] k d rest t h = h
read-text (c ∷ s) k d rest t h = ap (add 2 c) (read-text s k d rest t h)

read-key :
    (s : Text) (v : Value) (d : Dict Value) (rest : Text) (k : Text)
    → read rest ≡ (k, v) ∷ d
    → read (write_text 0 s rest) ≡ (s ++ k, v) ∷ d
unfolding read write_text add
read-key [] v d rest k h = h
read-key (c ∷ s) v d rest k h = ap (add 0 c) (read-key s v d rest k h)

read-value :
    (v : Value) (d : Dict Value) (rest : Text)
    → read rest ≡ d
    → read (write_value v rest) ≡ ([], v) ∷ d
unfolding write_value read add
read-value (Value.str s) d rest h =
    read-text s [] d (3 ∷ 0 ∷ rest) [] (ap (add 3 0) h)
    ∙ ap (λ (t : Text). ([], Value.str t) ∷ d) (append-nil s)
read-value (Value.int n) d rest h = ap (add 4 n) h

read-write : (d : Dict Value) → read (write d) ≡ d
unfolding write read
read-write [] = refl
read-write ((k, v) ∷ d) =
    read-key k v d (write_value v (write d)) [] (read-value v d (write d) (read-write d))
    ∙ ap (λ (t : Text). (t, v) ∷ d) (append-nil k)

library-IsDocumentCodec : IsDocumentCodec library
library-IsDocumentCodec d = (ap (λ x. ok x) (read-write d), refl)

abbrev entity : Entity
entity = record { id = codes "e"; created_at = 1; updated_at = 2 }

abbrev document : Document
document = record {
  entity = entity;
  tenant_id = record { value = codes "t" };
  document_id = record { value = codes "d" };
  collection_id = record { value = codes "c" };
  title = codes "T";
  content = codes "some text";
  content_type = codes "text/plain";
  metadata = (codes "k", Value.int 3) ∷ [];
  status = DocumentStatus.failed;
  chunk_count = 0;
  token_count = 0;
  error_message = some (codes "broken");
}

abbrev document_id : Text → DocumentId
document_id v = record { value = v }

get_by_id-save_example :
    (first_row (has_id (codes "d")) [] ≡ none
      → (fresh : Uuid) (i : DocumentId)
      → (Documents.get_by_id library fresh i (Documents.save library document (connected [])).1).0
        ≡ (if text_eq (codes "d") i.value
            then ok (some (with_id fresh document))
            else (Documents.get_by_id library fresh i (connected [])).0))
    × ((old : Row)
        → first_row (has_id (codes "d")) [] ≡ some old
        → Documents.save library document (connected []) ≡ (ok document, connected []))
get_by_id-save_example = get_by_id-save library library-IsDocumentCodec document []

abbrev one_row : Database
one_row = connected (row_of library document ∷ [])

reads-scoped_example :
    ((d : Document)
      → (Documents.get_by_id_for_tenant library
          (codes "f")
          (document_id (codes "d"))
          (record { value = codes "t" })
          one_row).0
        ≡ ok (some d)
      → (d.document_id.value ≡ codes "d") × (d.tenant_id.value ≡ codes "t"))
    × ((d : Document)
        → (Documents.find_duplicate library
            (codes "f")
            (record { value = codes "t" })
            (codes "some text")
            one_row).0
          ≡ ok (some d)
        → d.tenant_id.value ≡ codes "t")
reads-scoped_example =
    reads-scoped library (codes "f") (document_id (codes "d")) (record { value = codes "t" })
      (codes "some text") one_row

abbrev request : IngestRequest
request = record {
  title = codes "A";
  content = codes "other text";
  collection_id = none;
  content_type = codes "text/plain";
  metadata = [];
}

abbrev renamed : IngestRequest
renamed = record request { title = codes "B" }

abbrev draws : Draws
draws = record {
  collection_id = record { value = codes "c9" };
  document_entity = entity;
  document_id = document_id (codes "d9");
  job_entity = entity;
  job_id = record { value = codes "j9" };
  now = 7;
}

abbrev draws_again : Draws
draws_again = record draws { document_id = document_id (codes "d10") }

no_such_id : first_row (has_id (codes "d9")) (row_of library document ∷ []) ≡ none
unfolding first_row row_of
no_such_id = refl

no_such_content :
    first_row
      (is_duplicate (codes "t") (content_hash library (codes "other text")))
      (row_of library document ∷ [])
    ≡ none
unfolding first_row row_of content_hash
no_such_content = refl

abbrev tables : IngestBackend
tables = postgres_backend library (λ t. some t) (codes "f") 9

drawn : collection_of tables draws none ≡ ok (record { value = codes "c9" })
unfolding collection_of
drawn = refl

drawn_again : collection_of tables draws_again none ≡ ok (record { value = codes "c9" })
unfolding collection_of
drawn_again = refl

ingest_twice_example :
    (s : Database × List QueuedTask) × (execute tables draws request
        (record { value = codes "t" })
        (one_row, [])
      ≡ (
        ok (record { document_id = codes "d9"; job_id = codes "j9"; status = codes "processing" }),
        s,
      ))
    × (s.1 ≡ (codes "t", codes "d9", codes "j9") ∷ [])
    × (execute tables draws_again renamed (record { value = codes "t" }) s ≡ (
      ok (record {
        document_id = codes "d9";
        job_id = codes "duplicate";
        status = codes "duplicate";
      }),
      s,
    ))
ingest_twice_example =
    ingest_twice library (λ t. some t) (codes "f") 9 draws request (record { value = codes "t" })
      (record { value = codes "c9" }) (row_of library document ∷ []) [] draws_again renamed
      (record { value = codes "c9" }) library-IsDocumentCodec drawn drawn_again refl no_such_id
      no_such_content
