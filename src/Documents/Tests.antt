-- ===== src/Documents/Tests.antt =====
-- A file of two pages that is read again, with a model that answers at the second call.
use smart_stock_ai.Prelude.{ℕ, zero, suc, none, some, List, [], ◌∷◌, map, ◌≡◌, refl, String}
use smart_stock_ai.Prelude.Action.{err, improperly_configured}
use smart_stock_ai.Documents.{
  Services, Shelf, DocumentChunk, batches, extract_text_from_pdf, chunk_pdf_pages, embed_batch,
  embed_batches, generate_embeddings, delete_existing, rows_of, ingest_pdf,
}

abbrev answers : ℕ → List String → List ℕ
answers k [] = []
answers k (t ∷ ts) = k ∷ answers k ts

-- The first call raises.
abbrev sample : Services ℕ
sample = record {
  pages = λ path. some ("Returns" ∷ "" ∷ "Shipping" ∷ []);
  basename = λ path. path;
  strip = λ t. t;
  split_text = λ t. t ∷ [];
  get_embeddings = none;
  embed = λ k ts. elim k [ zero ↦ none | suc j ↦ some (answers (suc j) ts) ];
}

abbrev old_row : String → ℕ → DocumentChunk ℕ
old_row source id = record {
  id = id;
  chunk_text = "old";
  embedding = 0;
  source_document = source;
  page_number = 1;
  document_id = some id;
  ingested_at = 0;
  tsvector = some "old";
}

abbrev shelf : Shelf ℕ
shelf = record {
  chunks = old_row "policy.pdf" 1 ∷ old_row "prices.pdf" 2 ∷ [];
  next_chunk = 3;
  now = 50;
  calls = 0;
}

-- The row of the other document stays, the empty page gives none, and the pages keep their numbers.
policy_replaced :
    map (λ c. c.page_number) (ingest_pdf sample "policy.pdf" (some 1) shelf).1.chunks
    ≡ 1 ∷ 1 ∷ 3 ∷ []
unfolding ingest_pdf extract_text_from_pdf chunk_pdf_pages generate_embeddings embed_batches
    embed_batch batches delete_existing rows_of
policy_replaced = refl

-- A file without any text leaves the rows of its last version.
blank_file :
    (ingest_pdf (record sample { pages = λ path. some ("" ∷ []) }) "policy.pdf" (some 1) shelf).1
    ≡ shelf
unfolding ingest_pdf extract_text_from_pdf chunk_pdf_pages
blank_file = refl

-- Without a key for any provider of embeddings the old rows stay.
no_model :
    ingest_pdf
      (record sample { get_embeddings = some improperly_configured })
      "policy.pdf"
      (some 1)
      shelf
    ≡ (err improperly_configured, shelf)
unfolding ingest_pdf extract_text_from_pdf chunk_pdf_pages generate_embeddings
no_model = refl
