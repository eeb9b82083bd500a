-- ===== src/Documents.antt =====
-- The ingestion of PDF files (ai/rag/ingestion.py) into the table of chunks. The reader of PDF files,
-- the splitter of texts and the model of embeddings are given; pauses are left out, and the database
-- is taken not to fail.
pub mod Embedded
pub mod Replaced
pub mod Tests
use smart_stock_ai.Prelude.{
  ℕ, zero, suc, ◌+◌, ◌-◌, ◌/◌, Bool, true, false, not, ◌||◌, Option, none, some, List, [], ◌∷◌,
  ◌++◌, String, map, if◌then◌else◌, ◌==◌, length, select,
}
use text.Mathlib.Text.{◌==◌ as str_eq}
use smart_stock_ai.Prelude.Sorting.{take}
use smart_stock_ai.Prelude.Action.{
  Action, Result, Error, ok, err, value_error, other_error, ◌>>=◌, ◌>>◌, pure, raise, gets,
  or_raise, raise_if, modify, atomic,
}

-- `E` stands for the vectors. `get_embeddings` is the exception that making the model raises, none if
-- there is a model; `embed k` is the answer to the k-th call of the model, none if it raises; `pages`
-- are the texts of a file's pages, none if it cannot be read.
pub record Services (E : Type 0) : Type 0 where
  pub pages : String → Option (List String)
  pub basename : String → String
  pub strip : String → String
  pub split_text : String → List String
  pub get_embeddings : Option Error
  pub embed : ℕ → List String → Option (List E)

pub record DocumentChunk (E : Type 0) : Type 0 where
  pub id : ℕ
  pub chunk_text : String
  pub embedding : E
  pub source_document : String
  pub page_number : ℕ
  pub document_id : Option ℕ
  pub ingested_at : ℕ
  pub tsvector : Option String

-- The table, the clock, and the calls of the model so far.
pub record Shelf (E : Type 0) : Type 0 where
  pub chunks : List (DocumentChunk E)
  pub next_chunk : ℕ
  pub now : ℕ
  pub calls : ℕ

pub record RawChunk : Type 0 where
  pub text : String
  pub page_number : ℕ

pub record Ingested : Type 0 where
  pub filename : String
  pub pages : ℕ
  pub chunks : ℕ
  pub api_calls : ℕ

abbrev pub batch_size : ℕ
batch_size = 100

abbrev pub max_retries : ℕ
max_retries = 3

abbrev pub drop : {A : Type 0} → ℕ → List A → List A
drop zero xs = xs
drop (suc n) [] = []
drop (suc n) (x ∷ xs) = drop n xs

-- The batches `texts[i : i + BATCH_SIZE]`, on fuel.
unfoldable pub batches : {A : Type 0} → ℕ → List A → List (List A)
batches zero xs = []
batches (suc fuel) [] = []
batches (suc fuel) (x ∷ xs) = take batch_size (x ∷ xs) ∷ batches fuel (drop batch_size (x ∷ xs))

module _ {E : Type 0} (services : Services E) where
  abbrev pub keep_page : ℕ → String → List RawChunk → List RawChunk
  keep_page i text rest =
      if str_eq text "" || str_eq (services.strip text) ""
      then rest
      else record { text = services.strip text; page_number = i } ∷ rest

  abbrev pub extract_from : ℕ → List String → List RawChunk
  extract_from i [] = []
  extract_from i (text ∷ texts) = keep_page i text (extract_from (i + 1) texts)

  unfoldable pub extract_text_from_pdf : String → Option (List RawChunk)
  extract_text_from_pdf file_path = elim (services.pages file_path) [
    | none ↦ none
    | some texts ↦ some (extract_from 1 texts)
  ]

  unfoldable pub chunk_pdf_pages : List RawChunk → List RawChunk
  chunk_pdf_pages [] = []
  chunk_pdf_pages (page ∷ pages) =
      map (λ t. record { text = t; page_number = page.page_number }) (services.split_text page.text)
      ++ chunk_pdf_pages pages

  -- The answer to one attempt, or what the next ones come to.
  abbrev pub attempted :
      Option (List E) → Shelf E → Result (List E) × Shelf E → Result (List E) × Shelf E
  attempted (some es) called again = (ok es, called)
  attempted none called again = again

  -- One batch, with the attempts that are left.
  unfoldable pub embed_batch : ℕ → List String → Action (Shelf E) (List E)
  embed_batch zero batch w = (err other_error, w)
  embed_batch (suc left) batch w =
      let called = record w { calls = w.calls + 1 } in
      attempted (services.embed w.calls batch) called (embed_batch left batch called)

  unfoldable pub embed_batches : List (List String) → Action (Shelf E) (List E)
  embed_batches [] = pure []
  embed_batches (batch ∷ rest) = do
    es ← embed_batch max_retries batch
    later ← embed_batches rest
    pure (es ++ later)

  abbrev pub with_model : Option Error → List String → Action (Shelf E) (List E)
  with_model (some e) texts = raise e
  with_model none texts = embed_batches (batches (length texts) texts)

  unfoldable pub generate_embeddings : List String → Action (Shelf E) (List E)
  generate_embeddings texts = with_model services.get_embeddings texts

  -- The rows that a run replaces: those of the document or, without a key, those of the file's name.
  abbrev pub has_document : Option ℕ → DocumentChunk E → Bool
  has_document none c = false
  has_document (some d) c = elim c.document_id [ none ↦ false | some d' ↦ d' == d ]

  abbrev pub is_replaced : Option ℕ → String → DocumentChunk E → Bool
  is_replaced none filename c = str_eq c.source_document filename
  is_replaced (some zero) filename c = str_eq c.source_document filename
  is_replaced (some (suc d)) filename c = has_document (some (suc d)) c

  unfoldable pub delete_existing : Option ℕ → String → Action (Shelf E) (Unit {0})
  delete_existing document_id filename =
      modify
        (λ w. record w { chunks = select (λ c. not (is_replaced document_id filename c)) w.chunks })

  -- `zip(raw_chunks, embeddings)` as rows, with keys from `next`; the text search vector is set.
  unfoldable pub rows_of :
      String → Option ℕ → ℕ → ℕ → List RawChunk → List E → List (DocumentChunk E)
  rows_of filename document_id now next [] es = []
  rows_of filename document_id now next (c ∷ cs) [] = []
  rows_of filename document_id now next (c ∷ cs) (e ∷ es) =
      record {
        id = next;
        chunk_text = c.text;
        embedding = e;
        source_document = filename;
        page_number = c.page_number;
        document_id = document_id;
        ingested_at = now;
        tsvector = some c.text;
      }
      ∷ rows_of filename document_id now (next + 1) cs es

  abbrev pub bulk_create : List (DocumentChunk E) → Action (Shelf E) ℕ
  bulk_create rows w = (
    ok (length rows),
    record w { chunks = w.chunks ++ rows; next_chunk = w.next_chunk + length rows },
  )

  abbrev pub store_chunks : String → Option ℕ → List RawChunk → List E → Action (Shelf E) ℕ
  store_chunks filename document_id raw es = atomic (do
    delete_existing document_id filename
    w ← gets (λ w. w)
    bulk_create (rows_of filename document_id w.now w.next_chunk raw es))

  -- What follows the embeddings: the rows are stored, and looked for.
  abbrev pub finish_chunks :
      String → Option ℕ → ℕ → List RawChunk → List E → Action (Shelf E) Ingested
  finish_chunks filename document_id pages raw es = do
    created ← store_chunks filename document_id raw es
    w ← gets (λ w. w)
    raise_if (length (select (is_replaced document_id filename) w.chunks) == 0) other_error
    pure (record {
      filename = filename;
      pages = pages;
      chunks = created;
      api_calls = (length raw + batch_size - 1) / batch_size;
    })

  abbrev pub ingest_chunks : String → Option ℕ → ℕ → List RawChunk → Action (Shelf E) Ingested
  ingest_chunks filename document_id pages [] =
      pure (record { filename = filename; pages = pages; chunks = 0; api_calls = 0 })
  ingest_chunks filename document_id pages (c ∷ cs) = do
    es ← generate_embeddings (map (λ r. r.text) (c ∷ cs))
    raise_if (not (length es == length (c ∷ cs))) value_error
    finish_chunks filename document_id pages (c ∷ cs) es

  unfoldable pub ingest_pdf : String → Option ℕ → Action (Shelf E) Ingested
  ingest_pdf file_path document_id = do
    pages ← or_raise (extract_text_from_pdf file_path) other_error
    ingest_chunks (services.basename file_path) document_id (length pages) (chunk_pdf_pages pages)
