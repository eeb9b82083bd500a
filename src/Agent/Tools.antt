-- ===== src/Agent/Tools.antt =====
-- The three tools of the purchasing agent: ai/agents/tools/po_draft.py, email_send.py and
-- confirmation_listener.py. A tool never raises: it turns an exception into a result.
use smart_stock_ai.Prelude.{ℕ, Bool, true, Option, none, some, List, [], ◌∷◌, String, if◌then◌else◌}
use smart_stock_ai.Prelude.Int.{ℤ}
use smart_stock_ai.Prelude.Action.{
  Action, Error, does_not_exist, ◌>>=◌, ◌>>◌, pure, gets, or_raise, catch,
}
use smart_stock_ai.Prelude.Table.{find}
use smart_stock_ai.Database.{Db, PurchaseOrder, Status, MessageId, random_message, is_one_of}
use smart_stock_ai.Orders.Repository.{get_by_id, NewOrder, sku_key, product_key, supplier_key}
use smart_stock_ai.Orders.Service.{draft_po, delay_email}

-- What the agent reads outside the store: the users, the texts of exceptions and of two messages
-- with a number in them, the random digits of a Message-ID, the text filter of ai/llm/chain.py, and `_sleep_fn`, during which others may act.
pub record Environment : Type 0 where
  pub user_exists : ℕ → Bool
  pub str_of : Error → String
  pub not_sendable : ℕ → Status → String
  pub not_received : ℕ → String
  pub random : ℕ
  pub is_safe : String → Bool
  pub is_production : Bool
  pub sleep : ℕ → Db → Db

-- The context of `PurchasingAgent.run`. The approval callback may act on the store.
pub record Context : Type 0 where
  pub sku_id : ℕ
  pub quantity : ℤ
  pub supplier_id : ℕ
  pub user_id : Option ℕ
  pub agent_reasoning : String
  pub other_texts : List String
  pub total_cost : ℤ
  pub user : Option ℕ
  pub auto_approve : Bool
  pub approval_callback : Option (ℕ → Db → Bool × Db)

abbrev known_user : (ℕ → Bool) → Option ℕ → Option ℕ
known_user exists none = none
known_user exists (some id) = if exists id then some id else none

abbrev pub request : Environment → Context → NewOrder
request env c = record {
  sku_id = c.sku_id;
  quantity = c.quantity;
  supplier_id = c.supplier_id;
  requested_by = known_user env.user_exists c.user_id;
  agent_reasoning = c.agent_reasoning;
  notes = "";
  created_by_agent = true;
  agent_name = "purchasing_agent";
  po_number = none;
  total_cost = some c.total_cost;
}

pub data DraftResult : Type 0 where
  drafted : ℕ → Status → DraftResult
  draft_failed : String → DraftResult

-- PODraftTool.run: the key and the status of the order, or the text of the exception.
unfoldable pub po_draft_tool : Environment → Context → Action Db DraftResult
po_draft_tool env c =
    catch (do po ← draft_po (request env c); pure (drafted po.id po.status))
      (λ e. pure (draft_failed (env.str_of e)))

pub data EmailResult : Type 0 where
  email_sent : MessageId → EmailResult
  email_failed : String → EmailResult

-- EmailSendTool.run, with the recipient from the order's supplier; rendering is taken not to fail.
abbrev pub send_to_supplier : Environment → PurchaseOrder → Action Db EmailResult
send_to_supplier env po = do
  supplier ←
      or_raise (← gets (λ d. find supplier_key po.supplier_id d.suppliers.rows)) does_not_exist
  sku ← or_raise (← gets (λ d. find sku_key po.sku_id d.skus.rows)) does_not_exist
  product ← or_raise (← gets (λ d. find product_key sku.product d.products.rows)) does_not_exist
  delay_email (record {
    recipient = supplier.contact_email;
    po_id = po.id;
    message_id = random_message po.id env.random;
  })
  pure (email_sent (random_message po.id env.random))

abbrev pub is_sendable : Status → Bool
is_sendable s = is_one_of s (Status.approved ∷ Status.sent ∷ [])

unfoldable pub email_send_tool : Environment → ℕ → Action Db EmailResult
email_send_tool env po_id =
    catch
      (do
        po ← get_by_id po_id
        if is_sendable po.status
            then send_to_supplier env po
            else pure (email_failed (env.not_sendable po_id po.status)))
      (λ e. pure (email_failed (env.str_of e)))

pub data Poll : Type 0 where
  poll_confirmed : Poll
  poll_terminal : Status → Poll
  poll_waiting : Poll
  poll_error : Poll

abbrev pub poll_of : Status → Poll
poll_of Status.confirmed = poll_confirmed
poll_of Status.rejected = poll_terminal Status.rejected
poll_of Status.cancelled = poll_terminal Status.cancelled
poll_of Status.failed = poll_terminal Status.failed
poll_of Status.timeout = poll_terminal Status.timeout
poll_of _ = poll_waiting

-- ConfirmationListenerTool.run
unfoldable pub confirmation_tool : ℕ → Action Db Poll
confirmation_tool po_id =
    catch (do po ← get_by_id po_id; pure (poll_of po.status)) (λ e. pure poll_error)
