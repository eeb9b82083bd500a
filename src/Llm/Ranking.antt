-- ===== src/Llm/Ranking.antt =====
-- Which providers `_get_available_providers` (ai/llm/llm_provider_manager.py) lists, and in which
-- order.
use mathlib.Core.List.{Perm}
use mathlib.Core.List.Perm
use smart_stock_ai.Prelude.{
  Bool, true, false, ◌&&◌, ◌≡◌, refl, sym, arith, List, [], ◌∷◌, Option, none, some, String,
  Bool-cases, inl, inr, select, map,
}
use smart_stock_ai.Llm.Health.{ProviderHealth, Score, finite, infinite, score}
use smart_stock_ai.Llm.Manager.{
  ask_health, score_health, Manager, health_of, score_of, with_scores, insert, sort, ltb_score,
  is_usable, usable, get_available_providers, provider_priority,
}
use smart_stock_ai.Llm.Registry.{available_at, score_at, Same, Same-refl, Same-trans, asked-Same}

-- No element sorts before the one that stands in front of it.
abbrev pub Ascending : List (String × Score) → Type 0
Ascending [] = Unit
Ascending (x ∷ []) = Unit
Ascending (x ∷ (y ∷ ys)) = (ltb_score y.1 x.1 ≡ false) × Ascending (y ∷ ys)

ltb_score-asym : (a b : Score) → ltb_score a b ≡ true → ltb_score b a ≡ false
ltb_score-asym (finite a) (finite b) h = ground arith
ltb_score-asym (finite a) infinite h = refl
ltb_score-asym infinite b h = cc h

insert-Ascending :
    (x : String × Score) (ys : List (String × Score)) → Ascending ys → Ascending (insert x ys)
insert-Ascending x [] h = tt
insert-Ascending x (y ∷ []) h = ground (arith, ltb_score-asym y.1 x.1)
insert-Ascending x (y ∷ (z ∷ zs)) h =
    ground (arith, ltb_score-asym y.1 x.1, insert-Ascending x (z ∷ zs) h.1)

sort-Ascending : (xs : List (String × Score)) → Ascending (sort xs)
sort-Ascending [] = tt
sort-Ascending (x ∷ xs) = insert-Ascending x (sort xs) (sort-Ascending xs)

insert-perm : (x : String × Score) (ys : List (String × Score)) → Perm (insert x ys) (x ∷ ys)
insert-perm x [] = Perm.rfl
insert-perm x (y ∷ ys) = elim (Bool-cases (ltb_score y.1 x.1)) [
  | inl before ↦ rw before (Perm.trans (Perm.cons y (insert-perm x ys)) (Perm.swap x y ys))
  | inr stays ↦ rw stays Perm.rfl
]

sort-perm : (xs : List (String × Score)) → Perm (sort xs) xs
sort-perm [] = Perm.rfl
sort-perm (x ∷ xs) = Perm.trans (insert-perm x (sort xs)) (Perm.cons x (sort-perm xs))

select-ext :
    (p q : String → Bool) (xs : List String)
    → ((x : String) → p x ≡ q x)
    → select p xs ≡ select q xs
select-ext p q [] h = refl
select-ext p q (x ∷ xs) h = rw (h x, select-ext p q xs h) refl

map-ext : {A B : Type 0} (f g : A → B) (xs : List A) → ((x : A) → f x ≡ g x) → map f xs ≡ map g xs
map-ext f g [] h = refl
map-ext f g (x ∷ xs) h = cc (h x, map-ext f g xs h)

-- The scores that the manager sees, in its state `m`.
abbrev pub scored : Manager → String → String × Score
scored m n = (n, score_at m.now (health_of n m.health))

module _ (has_key : String → Bool) where
  -- The provider is known, its circuit is not open, and its key is configured.
  abbrev pub is_ready : Manager → String → Bool
  is_ready m n = available_at m.now (health_of n m.health) && has_key n

  ask_health_lem :
      (n : String) (o : Option ProviderHealth) (m : Manager)
      → health_of n m.health ≡ o
      → ((ask_health has_key n o m).0 ≡ available_at m.now o && has_key n)
        × Same m (ask_health has_key n o m).1
  ask_health_lem n none m e = (refl, Same-refl m)
  ask_health_lem n (some h) m e = (refl, asked-Same n h m e)

  is_usable_lem :
      (n : String) (m : Manager)
      → ((is_usable has_key n m).0 ≡ is_ready m n) × Same m (is_usable has_key n m).1
  is_usable_lem n m = ask_health_lem n (health_of n m.health) m refl

  usable_lem :
      (ns : List String) (m : Manager)
      → ((usable has_key ns m).0 ≡ select (is_ready m) ns) × Same m (usable has_key ns m).1
  unfolding usable
  usable_lem [] m = (refl, Same-refl m)
  usable_lem (n ∷ ns) m =
      let (used, same) = is_usable_lem n m in
      let m' = (is_usable has_key n m).1 in
      let (rest, later) = usable_lem ns m' in
      (
        rw (used, rest, select-ext (is_ready m') (is_ready m) ns (λ k. ready m' same k)) refl,
        Same-trans m m' (usable has_key ns m').1 same later,
      )
    where
      ready : (m' : Manager) → Same m m' → (k : String) → is_ready m' k ≡ is_ready m k
      ready m' same k = rw (same.now, same.available k) refl

score_health_lem :
    (n : String) (o : Option ProviderHealth) (m : Manager)
    → health_of n m.health ≡ o
    → ((score_health n o m).0 ≡ score_at m.now o) × Same m (score_health n o m).1
unfolding score
score_health_lem n none m e = (refl, Same-refl m)
score_health_lem n (some h) m e = (refl, asked-Same n h m e)

with_scores_lem : (ns : List String) (m : Manager) → (with_scores ns m).0 ≡ map (scored m) ns
with_scores_lem [] m = refl
with_scores_lem (n ∷ ns) m =
    let (s, same) = score_health_lem n (health_of n m.health) m refl in
    let m' = (score_of n m).1 in
    rw
      (
        s,
        with_scores_lem ns m',
        map-ext (scored m') (scored m) ns (λ k. rw (same.now, same.scores k) refl),
      )
      refl

-- `names` are `ready` in another order, in which no score sorts before the one in front of it.
pub record Ranks (m : Manager) (ready names : List String) : Type 0 where
  pub order : List (String × Score)
  pub listed : names ≡ map (λ p. p.0) order
  pub ascending : Ascending order
  pub complete : Perm order (map (scored m) ready)

-- The providers that are listed are exactly those of PROVIDER_PRIORITY that are known, have a key and
-- have no open circuit, in the order of their scores when the call began.
pub get_available_providers-Ranks :
    (has_key : String → Bool) (m : Manager)
    → Ranks m (select (is_ready has_key m) provider_priority) (get_available_providers has_key m).0
unfolding get_available_providers
get_available_providers-Ranks has_key m =
    let (ready, same) = usable_lem has_key provider_priority m in
    let (names, m') = usable has_key provider_priority m in
    record {
      order = sort (with_scores names m').0;
      listed = refl;
      ascending = sort-Ascending (with_scores names m').0;
      complete =
          rw
            (
              sym ready,
              map-ext (scored m) (scored m') names (λ k. sym (rw (same.now, same.scores k) refl)),
              sym (with_scores_lem names m'),
            )
            (sort-perm (with_scores names m').0);
    }
