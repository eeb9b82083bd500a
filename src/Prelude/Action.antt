-- ===== src/Prelude/Action.antt =====
-- Python calls over a shared state: an action returns a value or raises, and the state comes back
-- either way. `atomic` is Django's `transaction.atomic`: a raise rolls the state back.
use mathlib.Core.Path.{◌≡◌, refl}
use mathlib.Core.Bool.{Bool, true, false}
use mathlib.Core.Option.{Option, none, some}
use smart_stock_ai.Prelude.Tests.{if◌then◌else◌}

-- The exceptions that the modelled code raises or catches. Their texts are not modelled.
pub data Error : Type 0 where
  does_not_exist : Error  -- Model.DoesNotExist
  integrity_error : Error  -- django.db.IntegrityError
  validation_error : Error  -- django.core.exceptions.ValidationError
  illegal_po_transition : Error  -- core.exceptions.IllegalPOTransitionError
  insufficient_stock : Error  -- core.exceptions.InsufficientStockError
  stock_not_found : Error  -- core.exceptions.StockNotFoundException
  value_error : Error  -- ValueError and TypeError
  improperly_configured : Error  -- django.core.exceptions.ImproperlyConfigured
  invalid_operation : Error  -- decimal.InvalidOperation
  overflow_error : Error  -- OverflowError
  database_error : Error  -- django.db.DataError
  permission_error : Error  -- PermissionError
  invoice_already_confirmed : Error  -- apps.ingestion.services.InvoiceAlreadyConfirmed
  invoice_extraction_timeout : Error  -- apps.ingestion.services.InvoiceExtractionTimeout
  invoice_extraction_malformed : Error  -- apps.ingestion.services.InvoiceExtractionMalformed
  llm_quota_exhausted : Error  -- core.exceptions.LLMQuotaExhaustedError
  nl_query_parse_error : Error  -- ai.llm.output_parser.NLQueryParseError
  other_error : Error  -- any exception of another type

pub data Result {ℓ} (A : Type ℓ) : Type ℓ where
  ok : A → Result A
  err : Error → Result A

abbrev pub Action : Type 0 → Type 0 → Type 0
Action S A = S → Result A × S

infixl 5 ◌>>=◌ ◌>>◌
abbrev pub ◌>>=◌ : {S A B : Type 0} → Action S A → (A → Action S B) → Action S B
◌>>=◌ m f s = let (r, t) = m s in elim r [ ok a ↦ f a t | err e ↦ (err e, t) ]

abbrev pub ◌>>◌ : {S A B : Type 0} → Action S A → Action S B → Action S B
m >> k = m >>= λ _. k

module _ {S A : Type 0} where
  abbrev pub pure : A → Action S A
  pure a s = (ok a, s)

  abbrev pub raise : Error → Action S A
  raise e s = (err e, s)

  abbrev pub gets : (S → A) → Action S A
  gets f s = (ok (f s), s)

  abbrev pub or_raise : Option A → Error → Action S A
  or_raise none e = raise e
  or_raise (some a) e = pure a

  -- `try: m except Exception: k`
  abbrev pub catch : Action S A → (Error → Action S A) → Action S A
  catch m k s = let (r, t) = m s in elim r [ ok a ↦ (ok a, t) | err e ↦ k e t ]

  abbrev pub atomic : Action S A → Action S A
  atomic m s = let (r, t) = m s in elim r [ ok a ↦ (ok a, t) | err e ↦ (err e, s) ]

module _ {S : Type 0} where
  abbrev pub raise_if : Bool → Error → Action S (Unit {0})
  raise_if b e s = (if b then err e else ok tt, s)

  abbrev pub modify : (S → S) → Action S (Unit {0})
  modify f s = (ok tt, f s)

  abbrev pub when : Bool → Action S (Unit {0}) → Action S (Unit {0})
  when b m s = if b then m s else (ok tt, s)

-- A bind whose first part is known.
module _ {S A B : Type 0} (m : Action S A) (f : A → Action S B) (s : S) {t : S} where
  pub >>=_ok : {a : A} → m s ≡ (ok a, t) → (m >>= f) s ≡ f a t
  >>=_ok e = λ i. elim (e i).0 [ ok a ↦ f a (e i).1 | err x ↦ (err x, (e i).1) ]

  pub >>=_err : {e : Error} → m s ≡ (err e, t) → (m >>= f) s ≡ (err e, t)
  >>=_err e = λ i. elim (e i).0 [ ok a ↦ f a (e i).1 | err x ↦ (err x, (e i).1) ]

-- To show something of a bind: of its second part wherever the first returns, and of each raise.
pub bind_ind :
    {S A B : Type 0} (P : Result B × S → Type 0) (m : Action S A) (f : A → Action S B) (s : S)
    → ((a : A) (t : S) → m s ≡ (ok a, t) → P (f a t))
    → ((e : Error) (t : S) → m s ≡ (err e, t) → P (err e, t))
    → P ((m >>= f) s)
bind_ind {S} {A} {B} P m f s returns raises = go (m s) returns raises
  where
    go :
        (r : Result A × S)
        → ((a : A) (t : S) → r ≡ (ok a, t) → P (f a t))
        → ((e : Error) (t : S) → r ≡ (err e, t) → P (err e, t))
        → P (elim r.0 [ ok a ↦ f a r.1 | err e ↦ (err e, r.1) ])
    go (ok a, t) h k = h a t refl
    go (err e, t) h k = k e t refl

-- The same of `try ... except Exception`.
pub catch_ind :
    {S A : Type 0} (P : Result A × S → Type 0) (m : Action S A) (k : Error → Action S A) (s : S)
    → ((a : A) (t : S) → m s ≡ (ok a, t) → P (ok a, t))
    → ((e : Error) (t : S) → m s ≡ (err e, t) → P (k e t))
    → P (catch m k s)
catch_ind {S} {A} P m k s returns raises = go (m s) returns raises
  where
    go :
        (r : Result A × S)
        → ((a : A) (t : S) → r ≡ (ok a, t) → P (ok a, t))
        → ((e : Error) (t : S) → r ≡ (err e, t) → P (k e t))
        → P (elim r.0 [ ok a ↦ (ok a, r.1) | err e ↦ k e r.1 ])
    go (ok a, t) h k' = h a t refl
    go (err e, t) h k' = k' e t refl

-- The same of a first part whose value is dropped.
pub then_ind :
    {S A B : Type 0} (P : Result B × S → Type 0) (m : Action S A) (k : Action S B) (s : S)
    → ((t : S) → P (k t))
    → ((e : Error) (t : S) → P (err e, t))
    → P ((m >> k) s)
then_ind P m k s returns raises = bind_ind P m (λ x. k) s (λ a t e. returns t) (λ x t e. raises x t)

-- A call whose value is passed through a function returns what the function makes of the value.
pub >>=-pure :
    {S A B : Type 0} (m : Action S A) (f : A → B) (s : S) {b : B}
    → ((m >>= λ a. pure (f a)) s).0 ≡ ok b
    → (a : A) × ((m s).0 ≡ ok a) × (f a ≡ b)
>>=-pure {S} {A} {B} m f s {b} h = go (m s) h
  where
    go :
        (r : Result A × S)
        → (elim r.0 as (λ x. Result B × S) [ ok a ↦ (ok (f a), r.1) | err e ↦ (err e, r.1) ]).0
          ≡ ok b
        → (a : A) × (r.0 ≡ ok a) × (f a ≡ b)
    go (ok a, t) h = (a, refl, cc h)
    go (err e, t) h = cc h

-- To show something of a guard and what follows it.
pub raise_if_ind :
    {S B : Type 0} (P : Result B × S → Type 0) (b : Bool) (e : Error) (k : Action S B) (s : S)
    → (b ≡ true → P (err e, s))
    → (b ≡ false → P (k s))
    → P ((raise_if b e >> k) s)
raise_if_ind P true e k s stops passes = stops refl
raise_if_ind P false e k s stops passes = passes refl
