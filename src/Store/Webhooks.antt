-- ===== src/Store/Webhooks.antt =====
-- internal/store/memory.go: the methods on the webhook outbox.
use ai_cloudhub.Common.{
  ℕ, zero, suc, Bool, true, false, ◌&&◌, ◌||◌, List, [], ◌∷◌, Option, none, some, ltb, leb,
  ◌==◌ as nat_eq, if◌then◌else◌, keep, take, length,
}
use ai_cloudhub.Text.{Text, ◌==◌, trim_space, is_empty}
use ai_cloudhub.Table.{find, put, remove}
use ai_cloudhub.Sort.{exchange_sort}
use ai_cloudhub.Outbox.{Outbox, Delivery}
use ai_cloudhub.Store.{Store, webhook_key}

pub record WebhookFilter : Type 0 where
  pub status : Option Delivery  -- none: any
  pub job_id : Text
  pub user_id : Text
  pub event : Text
  pub limit : ℕ

pub record WebhookCounts : Type 0 where
  pub pending : ℕ
  pub delivered : ℕ
  pub dead : ℕ
  pub total : ℕ

unfoldable pub delivery_eq : Delivery → Delivery → Bool
delivery_eq Delivery.pending Delivery.pending = true
delivery_eq Delivery.delivered Delivery.delivered = true
delivery_eq Delivery.dead Delivery.dead = true
delivery_eq _ _ = false

abbrev pub is_pending : Delivery → Bool
is_pending Delivery.pending = true
is_pending _ = false

-- `none` where the id is blank or taken.
unfoldable pub enqueue_webhook_outbox : Outbox → Store → Option Store
enqueue_webhook_outbox e st =
    if is_empty (trim_space e.id) then none else elim (find webhook_key e.id st.webhooks) [
      | none ↦ some (record st { webhooks = put webhook_key e st.webhooks })
      | some old ↦ none
    ]

-- `none` where the id is blank or no row has it.
unfoldable pub update_webhook_outbox : Outbox → Store → Option Store
update_webhook_outbox e st =
    if is_empty (trim_space e.id) then none else elim (find webhook_key e.id st.webhooks) [
      | none ↦ none
      | some old ↦ some (record st { webhooks = put webhook_key e st.webhooks })
    ]

unfoldable pub get_webhook_outbox : Text → Store → Option Outbox
get_webhook_outbox id st =
    if is_empty (trim_space id) then none else find webhook_key (trim_space id) st.webhooks

abbrev due_limit : ℕ → ℕ
due_limit zero = 32
due_limit (suc n) = if ltb 200 (suc n) then 200 else suc n

abbrev pub is_due : ℕ → Outbox → Bool
is_due now e = is_pending e.status && leb e.next_attempt_at now

abbrev due_before : Outbox → Outbox → Bool
due_before a b = ltb a.next_attempt_at b.next_attempt_at

unfoldable pub list_due_webhook_outbox : ℕ → ℕ → Store → List Outbox
list_due_webhook_outbox now limit st =
    take (due_limit limit) (exchange_sort due_before (keep (is_due now) st.webhooks))

abbrev list_limit : ℕ → ℕ
list_limit zero = 100
list_limit (suc n) = if ltb 500 (suc n) then 500 else suc n

-- A filter field that is blank lets every row through.
abbrev pub admits : Text → Text → Bool
admits wanted have = let w = trim_space wanted in is_empty w || have == w

abbrev pub admits_delivery : Option Delivery → Delivery → Bool
admits_delivery none d = true
admits_delivery (some w) d = delivery_eq d w

unfoldable pub filter_admits : WebhookFilter → Outbox → Bool
unfolding delivery_eq
filter_admits f e =
    admits_delivery f.status e.status
    && admits f.job_id e.job_id
    && admits f.user_id e.user_id
    && admits f.event e.event

abbrev newest_before : Outbox → Outbox → Bool
newest_before a b = ltb b.created_at a.created_at

unfoldable pub list_webhook_outbox : WebhookFilter → Store → List Outbox
unfolding filter_admits
list_webhook_outbox f st =
    take (list_limit f.limit) (exchange_sort newest_before (keep (filter_admits f) st.webhooks))

abbrev pub count_webhook : Delivery → WebhookCounts → WebhookCounts
count_webhook Delivery.pending c = record c { pending = suc c.pending; total = suc c.total }
count_webhook Delivery.delivered c = record c { delivered = suc c.delivered; total = suc c.total }
count_webhook Delivery.dead c = record c { dead = suc c.dead; total = suc c.total }

count_webhooks : WebhookCounts → List Outbox → WebhookCounts
count_webhooks c [] = c
count_webhooks c (e ∷ es) = count_webhooks (count_webhook e.status c) es

unfoldable pub count_webhook_outbox : Store → WebhookCounts
unfolding count_webhooks
count_webhook_outbox st =
    count_webhooks (record { pending = 0; delivered = 0; dead = 0; total = 0 }) st.webhooks

-- When a finished row came to its end; `none` for one that is not finished.
unfoldable pub ended_at : Outbox → Option ℕ
ended_at e = elim e.status [
  | Delivery.pending ↦ none
  | Delivery.delivered ↦ some (if nat_eq e.delivered_at 0 then e.updated_at else e.delivered_at)
  | Delivery.dead ↦ some e.updated_at
]

unfoldable pub is_expired : ℕ → Outbox → Bool
unfolding ended_at
is_expired older_than e = elim (ended_at e) [ none ↦ false | some at ↦ ltb at older_than ]

abbrev ended_before : Outbox → Outbox → Bool
ended_before a b = elim (ended_at a) [
  | none ↦ false
  | some x ↦ elim (ended_at b) [ none ↦ false | some y ↦ ltb x y ]
]

abbrev purge_limit : ℕ → ℕ
purge_limit zero = 500
purge_limit (suc n) = if ltb 5000 (suc n) then 5000 else suc n

remove_all : List Outbox → List Outbox → List Outbox
remove_all [] rows = rows
remove_all (e ∷ es) rows = remove_all es (remove webhook_key e.id rows)

unfoldable pub purge_webhook_outbox : ℕ → ℕ → Store → Store × ℕ
unfolding is_expired remove_all
purge_webhook_outbox older_than limit st =
    let list =
      take (purge_limit limit)
        (exchange_sort ended_before (keep (is_expired older_than) st.webhooks)) in
    (record st { webhooks = remove_all list st.webhooks }, length list)
