-- ===== src/Documents/Replaced.antt =====
-- What `ingest_pdf` (ai/rag/ingestion.py) leaves in the table of chunks.
use smart_stock_ai.Prelude.{
  ℕ, Bool, not, Option, none, some, List, [], ◌++◌, String, map, ◌≡◌, ◌≢◌, ◌⊎◌, length, select, All,
}
use smart_stock_ai.Prelude.Action.{Result, Error, ok, err, value_error, other_error}
use smart_stock_ai.Documents.{
  Services, Shelf, DocumentChunk, RawChunk, Ingested, chunk_pdf_pages, is_replaced,
}
use smart_stock_ai.Documents.Embedded.{AreBatches, Embedded, IsStuck}

module _ {E : Type 0} (services : Services E) (filename : String) (document_id : Option ℕ) where
  -- A row that belongs to this file and document, and has its text search vector.
  abbrev pub IsOwn : DocumentChunk E → Type 0
  IsOwn c =
      (c.source_document ≡ filename)
      × (c.document_id ≡ document_id)
      × (c.tsvector ≡ some c.chunk_text)

  -- Rows for the chunks of the file, in their order, each with its vector.
  abbrev pub AreRowsOf : List RawChunk → List E → List (DocumentChunk E) → Type 0
  AreRowsOf raw es rows =
      (map (λ c. c.chunk_text) rows ≡ map (λ r. r.text) raw)
      × (map (λ c. c.page_number) rows ≡ map (λ r. r.page_number) raw)
      × (map (λ c. c.embedding) rows ≡ es)
      × All IsOwn rows

  abbrev replaced : DocumentChunk E → Bool
  replaced c = is_replaced services document_id filename c

  abbrev texts : List RawChunk → List String
  texts raw = map (λ r. r.text) raw

  -- The vectors that the model answers with for the chunks, in batches from the call `k` on.
  abbrev pub AreVectorsOf : List RawChunk → ℕ → List E → ℕ → Type 0
  AreVectorsOf raw k es k' =
      (bs : List (List String)) × AreBatches bs (texts raw) × Embedded services k bs es k'

  -- The rows of the file are replaced by one row for each chunk, with its vector.
  abbrev pub Stored : List RawChunk → Shelf E → Shelf E → Type 0
  Stored raw w w' =
      (es : List E) × (rows : List (DocumentChunk E)) × AreVectorsOf raw w.calls es w'.calls
      × AreRowsOf raw es rows
      × (w'.chunks ≡ select (λ c. not (replaced c)) w.chunks ++ rows)

  -- Only the calls of the model are counted.
  abbrev pub IsUntouched : Shelf E → Shelf E → Type 0
  IsUntouched w w' = w' ≡ record w { calls = w'.calls }

  -- There is no model, or one of the batches found no answer.
  abbrev pub Fails : List RawChunk → Error → Shelf E → Shelf E → Type 0
  Fails raw e w w' =
      ((services.get_embeddings ≡ some e) × (w' ≡ w))
      ⊎ ((bs : List (List String)) × AreBatches bs (texts raw)
          × IsStuck services w.calls bs w'.calls)

  -- How the ingestion of some chunks ends.
  abbrev pub Ends : List RawChunk → Shelf E → Result Ingested × Shelf E → Type 0
  Ends raw w (ok r, w') = (r.chunks ≡ length raw) × (((raw ≡ []) × (w' ≡ w)) ⊎ Stored raw w w')
  Ends raw w (err e, w') =
      IsUntouched w w'
      × (Fails raw e w w'
          ⊎ ((es : List E) × AreVectorsOf raw w.calls es w'.calls
              × (length es ≢ length raw)
              × (e ≡ value_error)))

  -- What the calls of the model for the chunks come to.
  abbrev EmbeddingEnds : List RawChunk → Shelf E → Result (List E) × Shelf E → Type 0
  EmbeddingEnds raw w (ok es, t) = AreVectorsOf raw w.calls es t.calls × IsUntouched w t
  EmbeddingEnds raw w (err e, t) = Fails raw e w t × IsUntouched w t

-- How the ingestion of a file ends, by what is read from it.
module _ {E : Type 0} (services : Services E) (file_path : String) (document_id : Option ℕ) where
  abbrev pub FileEnds : Option (List RawChunk) → Shelf E → Result Ingested × Shelf E → Type 0
  FileEnds none w out = out ≡ (err other_error, w)
  FileEnds (some pages) w out =
      Ends services (services.basename file_path) document_id (chunk_pdf_pages services pages) w out
