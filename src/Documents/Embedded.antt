-- ===== src/Documents/Embedded.antt =====
-- The calls of the model of embeddings (ai/rag/ingestion.py): batches, and three attempts for each.
use mathlib.Core.Path.{subst}
use smart_stock_ai.Prelude.{
  ℕ, zero, suc, ◌+◌, ◌≤◌, ◌<◌, Option, none, some, List, [], ◌∷◌, ◌++◌, String, ◌≡◌, refl, ◌∙◌, ap,
  ◌⊎◌, inl, inr, All, arith, length,
}
use smart_stock_ai.Prelude.Sorting.{take}
use smart_stock_ai.Prelude.Action.{Result, ok, err, ◌>>=◌, pure, bind_ind}
use smart_stock_ai.Documents.{
  Services, Shelf, attempted, batch_size, max_retries, drop, batches, embed_batch, embed_batches,
}

abbrev pub join : {A : Type 0} → List (List A) → List A
join [] = []
join (xs ∷ xss) = xs ++ join xss

take-drop : {A : Type 0} (n : ℕ) (xs : List A) → take n xs ++ drop n xs ≡ xs
take-drop zero xs = refl
take-drop (suc n) [] = refl
take-drop {A} (suc n) (x ∷ xs) = ap (λ (ys : List A). x ∷ ys) (take-drop n xs)

length-drop : {A : Type 0} (n : ℕ) (xs : List A) → length (drop n xs) ≤ length xs
length-drop zero xs = omega arith
length-drop (suc n) [] = omega arith
length-drop (suc n) (x ∷ xs) = omega (arith, length-drop n xs)

-- With as much fuel as there are elements, the batches hold all of them, in their order.
pub join-batches :
    {A : Type 0} (fuel : ℕ) (xs : List A) → length xs ≤ fuel → join (batches fuel xs) ≡ xs
unfolding batches
join-batches zero [] h = refl
join-batches zero (x ∷ xs) h = absurd (omega arith)
join-batches (suc fuel) [] h = refl
join-batches {A} (suc fuel) (x ∷ xs) h =
    ap (λ (ys : List A). take batch_size (x ∷ xs) ++ ys)
      (join-batches fuel (drop batch_size (x ∷ xs)) (omega (arith, length-drop 99 xs)))
    ∙ take-drop batch_size (x ∷ xs)

-- The elements in their order, cut into pieces of one to a hundred.
abbrev pub AreBatches : {A : Type 0} → List (List A) → List A → Type 0
AreBatches bs xs = (join bs ≡ xs) × All (λ b. (0 < length b) × (length b ≤ batch_size)) bs

length-take_max : {A : Type 0} (n : ℕ) (xs : List A) → length (take n xs) ≤ n
length-take_max zero xs = omega arith
length-take_max (suc n) [] = omega arith
length-take_max (suc n) (x ∷ xs) = omega (arith, length-take_max n xs)

batches-sizes :
    {A : Type 0} (fuel : ℕ) (xs : List A)
    → All (λ b. (0 < length b) × (length b ≤ batch_size)) (batches fuel xs)
unfolding batches
batches-sizes zero xs = tt
batches-sizes (suc fuel) [] = tt
batches-sizes (suc fuel) (x ∷ xs) = (
  (omega arith, omega (arith, length-take_max 99 xs)),
  batches-sizes fuel (drop batch_size (x ∷ xs)),
)

pub batches-AreBatches : {A : Type 0} (xs : List A) → AreBatches (batches (length xs) xs) xs
batches-AreBatches xs = (join-batches (length xs) xs (omega arith), batches-sizes (length xs) xs)

module _ {E : Type 0} (services : Services E) where
  -- The first of some calls from `k` on that returns is answered by `es`, and `k'` is the next call.
  abbrev pub Answered : ℕ → ℕ → List String → List E → ℕ → Type 0
  Answered left k batch es k' =
      (j : ℕ) × (j < left)
      × (k' ≡ k + j + 1)
      × ((i : ℕ) → i < j → services.embed (k + i) batch ≡ none)
      × (services.embed (k + j) batch ≡ some es)

  abbrev pub Unanswered : ℕ → ℕ → List String → Type 0
  Unanswered left k batch = (i : ℕ) → i < left → services.embed (k + i) batch ≡ none

  abbrev pub with_calls : ℕ → Shelf E → Shelf E
  with_calls k w = record w { calls = k }

  -- How the attempts for one batch end.
  abbrev BatchEnds : ℕ → List String → Shelf E → Result (List E) × Shelf E → Type 0
  BatchEnds left batch w (ok es, w') =
      Answered left w.calls batch es w'.calls × (w' ≡ with_calls w'.calls w)
  BatchEnds left batch w (err e, w') =
      (Unanswered left w.calls batch × (w'.calls ≡ w.calls + left)) × (w' ≡ with_calls w'.calls w)

  shifted :
      (P : Option (List E) → Type 0) (k i : ℕ) (batch : List String)
      → P (services.embed (k + 1 + i) batch)
      → P (services.embed (k + suc i) batch)
  shifted P k i batch p = let e : k + suc i ≡ k + 1 + i = omega arith in rw e p

  first_or_later :
      (k n : ℕ) (batch : List String)
      → services.embed k batch ≡ none
      → ((i : ℕ) → i < n → services.embed (k + 1 + i) batch ≡ none)
      → (i : ℕ) → i < suc n
      → services.embed (k + i) batch ≡ none
  first_or_later k n batch silent later zero h = let e : k + 0 ≡ k = omega arith in rw e silent
  first_or_later k n batch silent later (suc i) h =
      shifted (λ o. o ≡ none) k i batch (later i (omega arith))

  -- An attempt without an answer, and what the later ones come to.
  one_more :
      (left : ℕ) (batch : List String) (w : Shelf E)
      → services.embed w.calls batch ≡ none
      → (out : Result (List E) × Shelf E) → BatchEnds left batch (with_calls (w.calls + 1) w) out
      → BatchEnds (suc left) batch w out
  one_more left batch w silent (ok es, w') ((j, below, next, before, here), same) = (
    (
      suc j,
      omega arith,
      omega arith,
      first_or_later w.calls j batch silent before,
      shifted (λ o. o ≡ some es) w.calls j batch here,
    ),
    same,
  )
  one_more left batch w silent (err e, w') ((never, last), same) =
      ((first_or_later w.calls left batch silent never, omega arith), same)

  embed_batch-BatchEnds :
      (left : ℕ) (batch : List String) (w : Shelf E)
      → BatchEnds left batch w (embed_batch services left batch w)
  unfolding embed_batch
  embed_batch-BatchEnds zero batch w = ((λ i h. absurd (omega arith), omega arith), refl)
  embed_batch-BatchEnds (suc left) batch w =
      go (services.embed w.calls batch) refl (one_more left batch w)
        (embed_batch-BatchEnds left batch (with_calls (w.calls + 1) w))
    where
      go :
          (o : Option (List E))
          → services.embed w.calls batch ≡ o
          → (services.embed w.calls batch ≡ none
              → (out : Result (List E) × Shelf E)
              → BatchEnds left batch (with_calls (w.calls + 1) w) out
              → BatchEnds (suc left) batch w out)
          → BatchEnds left batch
              (with_calls (w.calls + 1) w)
              (embed_batch services left batch (with_calls (w.calls + 1) w))
          → BatchEnds (suc left) batch w (
              attempted services o
                (with_calls (w.calls + 1) w)
                (embed_batch services left batch (with_calls (w.calls + 1) w)))
      go none silent more rest = more silent _ rest
      go (some es) answer more rest = (
        (
          0,
          omega arith,
          omega arith,
          λ i h. absurd (omega arith),
          let e : w.calls + 0 ≡ w.calls = omega arith in rw e answer,
        ),
        refl,
      )

  -- The batches in turn, from the call `k` on: each is answered, and `es` are all vectors.
  abbrev pub Embedded : ℕ → List (List String) → List E → ℕ → Type 0
  Embedded k [] es k' = (es ≡ []) × (k' ≡ k)
  Embedded k (batch ∷ rest) es k' =
      (first later : List E) × (m : ℕ) × Answered max_retries k batch first m
      × Embedded m rest later k'
      × (es ≡ first ++ later)

  -- From the call `k` on the batches in turn are answered, up to one that three calls do not answer,
  -- which are the last ones.
  abbrev pub IsStuck : ℕ → List (List String) → ℕ → Type 0
  IsStuck k [] k' = ⊥
  IsStuck k (batch ∷ rest) k' =
      (Unanswered max_retries k batch × (k' ≡ k + max_retries))
      ⊎ ((first : List E) × (m : ℕ) × Answered max_retries k batch first m × IsStuck m rest k')

  abbrev pub BatchesEnd : List (List String) → Shelf E → Result (List E) × Shelf E → Type 0
  BatchesEnd bs w (ok es, w') = Embedded w.calls bs es w'.calls × (w' ≡ with_calls w'.calls w)
  BatchesEnd bs w (err e, w') = IsStuck w.calls bs w'.calls × (w' ≡ with_calls w'.calls w)

  pub embed_batches-BatchesEnd :
      (bs : List (List String)) (w : Shelf E) → BatchesEnd bs w (embed_batches services bs w)
  unfolding embed_batches
  embed_batches-BatchesEnd [] w = ((refl, refl), refl)
  embed_batches-BatchesEnd (batch ∷ rest) w =
      bind_ind (BatchesEnd (batch ∷ rest) w) (embed_batch services max_retries batch)
        (λ es. embed_batches services rest >>= λ later. pure (es ++ later)) w
        (λ first t e.
          let (answered, same) =
            subst (BatchEnds max_retries batch w) e (embed_batch-BatchEnds max_retries batch w) in
          bind_ind (BatchesEnd (batch ∷ rest) w) (embed_batches services rest)
            (λ later. pure (first ++ later)) t
            (λ later u e'.
              let (embedded, same') =
                subst (BatchesEnd rest t) e' (embed_batches-BatchesEnd rest t) in
              ((first, later, t.calls, answered, embedded, refl), chained w t u same same'))
            (λ x u e'.
              let (stuck, same') = subst (BatchesEnd rest t) e' (embed_batches-BatchesEnd rest t) in
              (inr (first, t.calls, answered, stuck), chained w t u same same')))
        (λ x t e.
          let (never, same) =
            subst (BatchEnds max_retries batch w) e (embed_batch-BatchEnds max_retries batch w) in
          (inl never, same))
    where
      chained :
          (w t u : Shelf E)
          → t ≡ with_calls t.calls w
          → u ≡ with_calls u.calls t
          → u ≡ with_calls u.calls w
      chained w t u same same' = same' ∙ ap (λ (s : Shelf E). with_calls u.calls s) same
