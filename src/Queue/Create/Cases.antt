-- ===== src/Queue/Create/Cases.antt =====
-- About Create of internal/job/service.go: what it does to the store.
use ai_cloudhub.Common.{ℕ, ◌≡◌, refl, ◌⊎◌, inl, inr, Bool-cases}
use ai_cloudhub.Text.{Text, is_empty}
use ai_cloudhub.Job.{CreateInput, Result-cases}
use ai_cloudhub.Store.{Store, get_job_by_idempotency_key}
use ai_cloudhub.Queue.{Service}
use ai_cloudhub.Queue.Create.{Payload, normalise, insert_job, create, same_create_payload}

pub create_cases :
    (sv : Service) (now : ℕ) (u : Text) (input : CreateInput) (st : Store)
    → ((create sv now u input st).0 ≡ st)
      ⊎ ((p : Payload) × (create sv now u input st ≡ insert_job sv now u input p st))
unfolding create
create_cases sv now u input st = elim (Result-cases (normalise sv.codec input)) [
  | inr (e, bad) ↦ rw (bad, create) (inl refl)
  | inl (p, good) ↦ elim (Bool-cases (is_empty p.idempotency_key)) [
    | inl plain ↦ inr (p, rw (good, create, plain) refl)
    | inr keyed ↦ elim (Result-cases (get_job_by_idempotency_key u p.idempotency_key st)) [
      | inr (e, new) ↦ inr (p, rw (good, create, keyed, new) refl)
      | inl (j, old) ↦ elim (Bool-cases (same_create_payload sv.codec j p)) [
        | inl same ↦ inl (rw (good, create, keyed, old, same) refl)
        | inr other ↦ inl (rw (good, create, keyed, old, other) refl)
      ]
    ]
  ]
]
