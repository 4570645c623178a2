-- ===== src/Queue/Create/Idempotent.antt =====
-- About Create of internal/job/service.go, called twice under one idempotency key.
use mathlib.Core.List.{Permᴰ}
use ai_cloudhub.Common.{
  ℕ, Bool, true, false, List, [], ◌∷◌, none, ◌≡◌, refl, ap, sym, subst, ◌∙◌, inl, inr, arith,
  Bool-cases, if◌then◌else◌, map,
}
use ai_cloudhub.Text.{Text, is_empty, trim_space}
use ai_cloudhub.Text.Laws.{==_refl, ==_iff}
use ai_cloudhub.Table.{find, put, Unique}
use ai_cloudhub.Job.{
  Job, Labels, Codec, CreateInput, Result, Result-cases, Err, ok, err, idempotency_conflict,
}
use ai_cloudhub.Store.{create_job, Store, job_key, get_job_by_idempotency_key, find_by_key}
use ai_cloudhub.Queue.{Service}
use ai_cloudhub.Queue.Create.Encoding.{trimmed, encode_job_labels-order, same_labels_refl}
use ai_cloudhub.Queue.Create.{
  Payload, normalise, new_job, insert_job, create, same_create_payload, decode_job_labels,
  encode_job_labels, label_key,
}

-- A Create whose key is in use by an equal job: answers with that job and changes nothing.
pub create_again :
    (sv : Service) (now : ℕ) (u : Text) (input : CreateInput) (p : Payload) (st : Store) (j : Job)
    → normalise sv.codec input ≡ ok p
    → is_empty p.idempotency_key ≡ false
    → get_job_by_idempotency_key u p.idempotency_key st ≡ ok j
    → create sv now u input st
      ≡ (st, if same_create_payload sv.codec j p then ok (j, false) else err idempotency_conflict)
unfolding create
create_again sv now u input p st j good keyed old =
    elim (Bool-cases (same_create_payload sv.codec j p)) [
      | inl same ↦ rw (good, create, keyed, old, same) refl
      | inr other ↦ rw (good, create, keyed, old, other) refl
    ]

find_by_key-put :
    (u key : Text) (ks : List Job) (j : Job) (e : Err)
    → find_by_key u key ks ≡ err e
    → find job_key j.id ks ≡ none
    → j.user_id ≡ u
    → j.idempotency_key ≡ key
    → find_by_key u key (put job_key j ks) ≡ ok j
unfolding find_by_key find put
find_by_key-put u key [] j e h n a b =
    ground (arith, ==_iff j.user_id u, ==_iff j.idempotency_key key)
find_by_key-put u key (x ∷ ks) j e h n a b = ground (arith, find_by_key-put u key ks j e)

same_payload_new :
    (codec : Codec) (now : ℕ) (id u : Text) (input : CreateInput) (p : Payload)
    → ((s : Text) → Unique label_key (decode_job_labels codec s))
    → same_create_payload codec (new_job now id u input p) p ≡ true
unfolding same_create_payload new_job
same_payload_new codec now id u input p keys = ground (
  arith,
  ==_refl p.drive_id,
  ==_refl p.binding_id,
  ==_refl p.mode,
  ==_refl p.command_json,
  ==_refl (trim_space p.region_hint),
  ==_refl p.connector_id,
  same_labels_refl codec (trim_space p.labels_json) keys,
)

key_lookup :
    (u key : Text) (st : Store)
    → is_empty key ≡ false
    → trim_space key ≡ key
    → get_job_by_idempotency_key u key st ≡ find_by_key u key st.jobs
unfolding get_job_by_idempotency_key
key_lookup u key st n t = rw (t, n) refl

-- A new job under a key is found under it.
insert_found :
    (sv : Service) (now : ℕ) (u : Text) (input : CreateInput) (p : Payload) (st : Store) (e : Err)
    → is_empty p.idempotency_key ≡ false
    → trim_space p.idempotency_key ≡ p.idempotency_key
    → find job_key (sv.uuid st.drawn) st.jobs ≡ none
    → get_job_by_idempotency_key u p.idempotency_key st ≡ err e
    → get_job_by_idempotency_key u p.idempotency_key (insert_job sv now u input p st).0
      ≡ ok (new_job now (sv.uuid st.drawn) u input p)
unfolding insert_job create_job new_job
insert_found sv now u input p st e keyed trimmed fresh new =
    key_lookup u p.idempotency_key (insert_job sv now u input p st).0 keyed trimmed
    ∙ find_by_key-put u p.idempotency_key st.jobs (new_job now (sv.uuid st.drawn) u input p) e
        (sym (key_lookup u p.idempotency_key st keyed trimmed) ∙ new) fresh refl refl

create_same :
    (sv : Service) (now : ℕ) (u : Text) (input : CreateInput) (p : Payload) (st : Store) (j : Job)
    → normalise sv.codec input ≡ ok p
    → is_empty p.idempotency_key ≡ false
    → get_job_by_idempotency_key u p.idempotency_key st ≡ ok j
    → same_create_payload sv.codec j p ≡ true
    → create sv now u input st ≡ (st, ok (j, false))
create_same sv now u input p st j good keyed old same =
    create_again sv now u input p st j good keyed old ∙ rw same refl

create_new :
    (sv : Service) (now : ℕ) (u : Text) (input : CreateInput) (p : Payload) (st : Store) (e : Err)
    → normalise sv.codec input ≡ ok p
    → is_empty p.idempotency_key ≡ false
    → get_job_by_idempotency_key u p.idempotency_key st ≡ err e
    → create sv now u input st ≡ insert_job sv now u input p st
unfolding create
create_new sv now u input p st e good keyed new = rw (good, create, keyed, new) refl

inserted :
    (sv : Service) (now : ℕ) (u : Text) (input : CreateInput) (p : Payload) (st : Store)
    → ((insert_job sv now u input p st).0, ok (new_job now (sv.uuid st.drawn) u input p, true))
      ≡ insert_job sv now u input p st
unfolding insert_job
inserted sv now u input p st = refl

-- The same input, its labels met in another order.
abbrev pub reordered : Labels → CreateInput → CreateInput
reordered ls input = record input { labels = ls }

normalise-order :
    (codec : Codec) (input : CreateInput) (ls : Labels) (p : Payload)
    → ((a b : Labels)
        → Permᴰ a b
        → Unique label_key a
        → codec.marshal_labels a ≡ codec.marshal_labels b)
    → Unique label_key (map trimmed input.labels)
    → Permᴰ input.labels ls
    → normalise codec input ≡ ok p
    → normalise codec (reordered ls input) ≡ ok p
unfolding normalise
normalise-order codec input ls p sorts u d h =
    elim (Result-cases (encode_job_labels codec input.labels)) [
      | inr (e, refused) ↦ absurd (ground arith)
      | inl (t, encoded) ↦
          let encoded' = encode_job_labels-order codec input.labels ls t sorts u d encoded in
          ground (arith, h, encoded, encoded')
    ]

-- An answer that repeats: what it says of its store and its row holds of the ones that are equal to them.
repeated :
    (sv : Service) (now : ℕ) (u : Text) (input : CreateInput) (s s' : Store) (i j : Job)
    (made made' : Bool)
    → create sv now u input s ≡ (s, ok (i, false))
    → ◌≡◌ {A = Store × Result (Job × Bool)} (s, ok (i, made)) (s', ok (j, made'))
    → create sv now u input s' ≡ (s', ok (j, false))
repeated sv now u input s s' i j made made' r h =
    let i_j : i ≡ j = ground arith in
    subst (λ x. create sv now u input x ≡ (x, ok (j, false))) (ap (λ x. x.0) h)
      (subst (λ x. create sv now u input s ≡ (s, ok (x, false))) i_j r)

-- A Create with a key that is repeated makes no second job: the second answers with the job of the first,
-- says that it made none, and changes nothing, whatever order its loop meets the labels in. The input is
-- one that passes the checks, its key has no white space around it, no two of its label keys are equal
-- once they are trimmed, the next identifier is fresh, a map is encoded the same in whatever order its
-- entries are met, and a decoded map has one value for each key.
pub create_twice :
    (sv : Service) (now now' : ℕ) (u : Text) (input : CreateInput) (ls : Labels) (p : Payload)
    (st st' : Store) (j : Job) (made : Bool)
    → normalise sv.codec input ≡ ok p
    → Permᴰ input.labels ls
    → Unique label_key (map trimmed input.labels)
    → ((a b : Labels)
        → Permᴰ a b
        → Unique label_key a
        → sv.codec.marshal_labels a ≡ sv.codec.marshal_labels b)
    → is_empty p.idempotency_key ≡ false
    → trim_space p.idempotency_key ≡ p.idempotency_key
    → find job_key (sv.uuid st.drawn) st.jobs ≡ none
    → ((s : Text) → Unique label_key (decode_job_labels sv.codec s))
    → create sv now u input st ≡ (st', ok (j, made))
    → create sv now' u (reordered ls input) st' ≡ (st', ok (j, false))
create_twice sv now now' u input ls p st st' j made good order apart sorts keyed trimmed_key fresh
      keys h =
    let input' = reordered ls input in
    let good' = normalise-order sv.codec input ls p sorts apart order good in
    elim (Result-cases (get_job_by_idempotency_key u p.idempotency_key st)) [
      | inl (old, found) ↦ elim (Bool-cases (same_create_payload sv.codec old p)) [
        | inl same ↦
            repeated sv now' u input' st st' old j false made
              (create_same sv now' u input' p st old good' keyed found same)
              (sym (create_same sv now u input p st old good keyed found same) ∙ h)
        | inr other ↦
            let refused : create sv now u input st ≡ (st, err idempotency_conflict) =
              create_again sv now u input p st old good keyed found ∙ rw other refl in
            absurd (clash (ap (λ x. x.1) (sym refused ∙ h)))
      ]
      | inr (e, new) ↦
          let made_job = new_job now (sv.uuid st.drawn) u input p in
          repeated sv now' u input' (insert_job sv now u input p st).0 st' made_job j true made
            (create_same sv now' u input' p (insert_job sv now u input p st).0 made_job good' keyed
              (insert_found sv now u input p st e keyed trimmed_key fresh new)
              (same_payload_new sv.codec now (sv.uuid st.drawn) u input p keys))
            (inserted sv now u input p st
              ∙ (sym (create_new sv now u input p st e good keyed new) ∙ h))
    ]
  where
    clash : {e : Err} {x : Job × Bool} → err e ≡ ok x → ⊥
    clash h = ground arith
