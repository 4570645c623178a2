-- ===== src/Queue/Create.antt =====
-- internal/job/service.go: Create. Over the in-memory store CreateJob does not fail, so the second
-- look-up, for the race on the unique index of the SQL stores, is not reached.
use ai_cloudhub.Common.{
  ℕ, suc, Bool, true, false, ◌&&◌, ◌||◌, [], ◌∷◌, none, some, ltb, ◌==◌ as nat_eq, if◌then◌else◌,
  length,
}
use ai_cloudhub.Text.{Text, codes, trim_space, is_empty, ◌==◌}
use ai_cloudhub.Int.{ℤ, pos, negsuc, ltb_ℤ, eqb_ℤ, floor_zero}
use ai_cloudhub.Table.{put}
use ai_cloudhub.Job.{
  pending, Job, Labels, Codec, CreateInput, Result, ok, err, drive_id_required, command_required,
  idempotency_key_too_long, too_many_labels, empty_label_key, label_too_long, idempotency_conflict,
  label_value, labels_include,
}
use ai_cloudhub.Job.Rows.{join_note}
use ai_cloudhub.Store.{Store, create_job, get_job_by_idempotency_key}
use ai_cloudhub.Queue.{Service}
pub mod Cases
pub mod Encoding
pub mod Idempotent

-- `if priority > 1000 … if priority < -1000 …`
unfoldable pub clamp_priority : ℤ → ℤ
clamp_priority p =
    if ltb_ℤ (pos 1000) p then pos 1000 else if ltb_ℤ p (negsuc 999) then negsuc 999 else p

abbrev pub label_key : Text × Text → Text
label_key l = l.0

-- `clean[k] = v` for every label, or the first error. Go visits a map in another order each time: the list
-- of the labels is in the order in which this loop meets them.
unfoldable pub clean_labels : Labels → Labels → Result Labels
clean_labels clean [] = ok clean
clean_labels clean ((k, v) ∷ rest) =
    let key = trim_space k in
    let value = trim_space v in
    let cleaned = clean_labels (put label_key (key, value) clean) rest in
    if is_empty key
    then err empty_label_key
    else if ltb 64 (length key) || ltb 256 (length value)
    then err label_too_long
    else cleaned

unfoldable pub encode_job_labels : Codec → Labels → Result Text
unfolding clean_labels
encode_job_labels codec [] = ok (codes "")
encode_job_labels codec (l ∷ ls) =
    if ltb 16 (length (l ∷ ls)) then err too_many_labels else elim (clean_labels [] (l ∷ ls)) [
      | err e ↦ err e
      | ok clean ↦ ok (codec.marshal_labels clean)
    ]

unfoldable pub decode_job_labels : Codec → Text → Labels
decode_job_labels codec [] = []
decode_job_labels codec (c ∷ cs) = elim (codec.unmarshal_labels (c ∷ cs)) [ none ↦ [] | some m ↦ m ]

unfoldable pub maps_equal : Labels → Labels → Bool
unfolding label_value labels_include
maps_equal a b = nat_eq (length a) (length b) && labels_include b a

unfoldable pub same_labels : Codec → Text → Text → Bool
unfolding maps_equal decode_job_labels
same_labels codec [] [] = true
same_labels codec [] (d ∷ ds) = false
same_labels codec (c ∷ cs) [] = false
same_labels codec (c ∷ cs) (d ∷ ds) =
    maps_equal (decode_job_labels codec (c ∷ cs)) (decode_job_labels codec (d ∷ ds))

-- The input as Create normalises it.
pub record Payload : Type 0 where
  pub drive_id : Text
  pub binding_id : Text
  pub mode : Text
  pub command_json : Text
  pub region_hint : Text
  pub connector_id : Text
  pub priority : ℤ
  pub timeout_sec : ℕ
  pub max_attempts : ℕ
  pub labels_json : Text
  pub idempotency_key : Text

unfoldable pub same_create_payload : Codec → Job → Payload → Bool
unfolding same_labels
same_create_payload codec j p =
    j.drive_id == p.drive_id
    && j.binding_id == p.binding_id
    && j.mode == p.mode
    && j.command_json == p.command_json
    && trim_space j.region_hint == trim_space p.region_hint
    && j.connector_id == p.connector_id
    && eqb_ℤ j.priority p.priority
    && nat_eq j.timeout_sec p.timeout_sec
    && nat_eq j.max_attempts p.max_attempts
    && same_labels codec (trim_space j.labels_json) (trim_space p.labels_json)

unfoldable pub normalise : Codec → CreateInput → Result Payload
unfolding encode_job_labels clamp_priority
normalise codec input =
    let key = trim_space input.idempotency_key in
    if is_empty (trim_space input.drive_id)
    then err drive_id_required
    else if nat_eq (length input.command) 0
    then err command_required
    else if ltb 128 (length key)
    then err idempotency_key_too_long
    else elim (encode_job_labels codec input.labels) [
      | err e ↦ err e
      | ok labels ↦ ok (record {
        drive_id = input.drive_id;
        binding_id = input.binding_id;
        mode = if is_empty input.mode then codes "mount" else input.mode;
        command_json = codec.marshal_command input.command;
        region_hint = input.region_hint;
        connector_id = trim_space input.connector_id;
        priority = clamp_priority input.priority;
        timeout_sec = floor_zero input.timeout_sec;
        max_attempts = floor_zero input.max_attempts;
        labels_json = labels;
        idempotency_key = key;
      })
    ]

byoc_note : Text
byoc_note = codes "BYOC only: claim with your runner; no platform large pool (D-001)"

unfoldable pub new_job : ℕ → Text → Text → CreateInput → Payload → Job
unfolding join_note byoc_note
new_job now id user_id input p = record {
  id = id;
  user_id = user_id;
  drive_id = p.drive_id;
  binding_id = p.binding_id;
  mode = p.mode;
  command_json = p.command_json;
  status = pending;
  region_hint = p.region_hint;
  note = join_note input.note byoc_note;
  connector_id = p.connector_id;
  agent_id = trim_space input.agent_id;
  claimed_by_agent_id = codes "";
  claimed_by_runner_id = codes "";
  priority = p.priority;
  labels_json = p.labels_json;
  idempotency_key = p.idempotency_key;
  exit_code = none;
  duration_ms = pos 0;
  heartbeat_at = 0;
  claimed_at = 0;
  timeout_sec = p.timeout_sec;
  attempt_count = 0;
  max_attempts = p.max_attempts;
  stdout = codes "";
  stderr = codes "";
  stdout_truncated = false;
  stderr_truncated = false;
  created_at = now;
  updated_at = now;
}

-- The new row under a new identifier, and `created = true`.
unfoldable pub insert_job :
    Service → ℕ → Text → CreateInput → Payload → Store → Store × Result (Job × Bool)
unfolding new_job create_job
insert_job sv now user_id input p st =
    let j = new_job now (sv.uuid st.drawn) user_id input p in
    (create_job j (record st { drawn = suc st.drawn }), ok (j, true))

unfoldable pub create : Service → ℕ → Text → CreateInput → Store → Store × Result (Job × Bool)
unfolding normalise same_create_payload insert_job
create sv now user_id input st = elim (normalise sv.codec input) [
  | err e ↦ (st, err e)
  | ok p ↦
      if is_empty p.idempotency_key
      then insert_job sv now user_id input p st
      else elim (get_job_by_idempotency_key user_id p.idempotency_key st) [
        | err e ↦ insert_job sv now user_id input p st
        | ok existing ↦
            if same_create_payload sv.codec existing p
            then (st, ok (existing, false))
            else (st, err idempotency_conflict)
      ]
]
