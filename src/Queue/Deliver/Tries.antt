-- ===== src/Queue/Deliver/Tries.antt =====
-- About ProcessWebhookOutbox of internal/job/service.go: how often a row is tried.
use ai_cloudhub.Common.{
  ℕ, ◌+◌, ◌≤◌, ◌<◌, ◌≡◌, sym, subst, Bool, true, List, [], ◌∷◌, some, Option-cases, Bool-cases, inl,
  inr, All, All-lookup, Has, arith,
}
use ai_cloudhub.Text.{Text, ◌==◌, is_empty, trim_space}
use ai_cloudhub.Table.{put}
use ai_cloudhub.Table.Laws.{find-Has}
use ai_cloudhub.Outbox.{Outbox}
use ai_cloudhub.Job.Settings.{Getenv, job_webhook_max_attempts, job_webhook_url}
use ai_cloudhub.Store.{Store, webhook_key}
use ai_cloudhub.Store.Webhooks.{
  get_webhook_outbox, update_webhook_outbox, is_pending, list_due_webhook_outbox,
}
use ai_cloudhub.Queue.{Service}
use ai_cloudhub.Queue.Deliver.{
  attempted, finish_webhook_attempt, deliver_row, deliver_all, process_webhook_outbox,
}

-- A row that is still to be delivered has an attempt left, and no row has used more than there are.
pub record Tries (max : ℕ) (e : Outbox) : Type 0 where
  pub left : is_pending e.status ≡ true → e.attempts < max
  pub used : e.attempts ≤ max

put-All :
    (P : Outbox → Type 0) (r : Outbox) (t : List Outbox)
    → P r
    → All P t
    → All P (put webhook_key r t)
unfolding put
put-All P r [] p h = (p, tt)
put-All P r (x ∷ xs) p h = elim (Bool-cases (x.id == r.id)) [
  | inl same ↦ rw (same, put) (p, h.1)
  | inr other ↦ rw (other, put) (h.0, put-All P r xs p (h.1))
]

attempted-Tries :
    (getenv : Getenv) (now : ℕ) (success : Bool) (error : Text) (max : ℕ) (e : Outbox)
    → is_pending e.status ≡ true
    → Tries max e
    → Tries max (attempted getenv now success error max e)
unfolding attempted
attempted-Tries getenv now success error max e p t = record {
  left = λ q. ground (arith, t.left p);
  used = ground (arith, t.left p);
}

-- The outbox of a store whose rows are all within their tries.
abbrev pub Tried : Service → Store → Type 0
Tried sv st = All (Tries (job_webhook_max_attempts sv.getenv)) st.webhooks

got-Has :
    (id : Text) (st : Store) (e : Outbox) → get_webhook_outbox id st ≡ some e → Has e st.webhooks
unfolding get_webhook_outbox
got-Has id st e h = ground (arith, find-Has webhook_key (trim_space id) st.webhooks {r = e})

update-Tried :
    (sv : Service) (e : Outbox) (st st' : Store)
    → Tries (job_webhook_max_attempts sv.getenv) e
    → Tried sv st
    → update_webhook_outbox e st ≡ some st'
    → Tried sv st'
unfolding update_webhook_outbox
update-Tried sv e st st' t all h =
    let wrote : st'.webhooks ≡ put webhook_key e st.webhooks = ground arith in
    subst (All (Tries (job_webhook_max_attempts sv.getenv))) (sym wrote)
      (put-All _ e st.webhooks t all)

module _ (sv : Service) (deliver : ℕ → Outbox → Bool × Text) (now : ℕ) where
  finish-Tried :
      (e : Outbox) (success : Bool) (error : Text) (st : Store)
      → is_pending e.status ≡ true
      → Tries (job_webhook_max_attempts sv.getenv) e
      → Tried sv st
      → Tried sv
          (finish_webhook_attempt sv.getenv now e success error
            (job_webhook_max_attempts sv.getenv)
            st).0
  unfolding finish_webhook_attempt
  finish-Tried e success error st due t all =
      let max = job_webhook_max_attempts sv.getenv in
      let tried = attempted sv.getenv now success error max e in
      elim (Option-cases (update_webhook_outbox tried st)) [
        | inl lost ↦ rw (lost, finish_webhook_attempt) all
        | inr (st', wrote) ↦
            rw (wrote, finish_webhook_attempt)
              (update-Tried sv tried st st'
                (attempted-Tries sv.getenv now success error max e due t) all wrote)
      ]

  deliver_row-Tried :
      (row : Outbox) (st : Store) → Tried sv st → Tried sv (deliver_row sv deliver now row st).0
  unfolding deliver_row
  deliver_row-Tried row st all = elim (Option-cases (get_webhook_outbox row.id st)) [
    | inl gone ↦ rw (gone, deliver_row) all
    | inr (e, there) ↦ elim (Bool-cases (is_pending e.status)) [
      | inr over ↦ rw (there, deliver_row, over) all
      | inl due ↦
          rw (there, deliver_row, due)
            (finish-Tried e (deliver now e).0 (deliver now e).1 st due
              (All-lookup _ st.webhooks e all (got-Has row.id st e there)) all)
    ]
  ]

  deliver_all-Tried :
      (rows : List Outbox) (st : Store) (n : ℕ)
      → Tried sv st
      → Tried sv (deliver_all sv deliver now rows st n).0
  unfolding deliver_all
  deliver_all-Tried [] st n all = all
  deliver_all-Tried (row ∷ rows) st n all =
      let (st', m) = deliver_row sv deliver now row st in
      deliver_all-Tried rows st' (n + m) (deliver_row-Tried row st all)

  -- A delivery run, whatever the receivers answer, keeps every row of the outbox within its tries: a row
  -- that is still pending has an attempt left, and none has used more than the limit.
  pub process_webhook_outbox-Tried :
      (limit : ℕ) (st : Store)
      → Tried sv st
      → Tried sv (process_webhook_outbox sv deliver now limit st).0
  unfolding process_webhook_outbox
  process_webhook_outbox-Tried limit st all =
      elim (Bool-cases (is_empty (job_webhook_url sv.getenv))) [
        | inl off ↦ rw (off, process_webhook_outbox) all
        | inr on ↦
            rw (on, process_webhook_outbox)
              (deliver_all-Tried (list_due_webhook_outbox now limit st) st 0 all)
      ]
