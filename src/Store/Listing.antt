-- ===== src/Store/Listing.antt =====
-- internal/store/memory.go: the listings of jobs by filter and cursor, and the counts by status.
use ai_cloudhub.Common.{
  ℕ, zero, suc, Bool, true, false, ◌&&◌, ◌||◌, List, [], ◌∷◌, none, some, ltb, ◌==◌ as nat_eq,
  if◌then◌else◌, keep, take,
}
use ai_cloudhub.Text.{Text, ◌==◌, text_lt, trim_space, is_empty}
use ai_cloudhub.Sort.{exchange_sort}
use ai_cloudhub.Job.{Status, Job, Labels, Codec, label_value, labels_include, status_text}
use ai_cloudhub.Store.{Store}
pub mod Counts

-- The filter of ListJobsPage. A status filter is a text, and matches the text of a row's status.
pub record JobListFilter : Type 0 where
  pub user_id : Text
  pub agent_id : Text
  pub claimed_by_agent_id : Text
  pub claimed_by_runner_id : Text
  pub region_hint : Text
  pub status : Text
  pub labels : Labels
  pub limit : ℕ
  pub cursor_created : ℕ
  pub cursor_id : Text

pub record AdminJobFilter : Type 0 where
  pub user_id : Text
  pub status : Text
  pub region_hint : Text
  pub claimed_by_runner_id : Text
  pub limit : ℕ
  pub cursor_created : ℕ
  pub cursor_id : Text

unfoldable pub page_limit : ℕ → ℕ
page_limit zero = 100
page_limit (suc n) = if ltb 501 (suc n) then 501 else suc n

-- created_at descending, then id descending
unfoldable pub newest_first : Job → Job → Bool
newest_first a b =
    ltb b.created_at a.created_at || (nat_eq b.created_at a.created_at && text_lt b.id a.id)

-- Behind the cursor: strictly older than (cursor_created, cursor_id), where a cursor is given.
unfoldable pub behind_cursor : ℕ → Text → Job → Bool
behind_cursor created id j =
    nat_eq created 0
    || is_empty id
    || ltb j.created_at created
    || (nat_eq j.created_at created && text_lt j.id id)

unfoldable pub job_labels_match_store : Codec → Text → Labels → Bool
unfolding label_value labels_include
job_labels_match_store codec raw [] = true
job_labels_match_store codec [] (w ∷ ws) = false
job_labels_match_store codec (c ∷ cs) (w ∷ ws) = elim (codec.unmarshal_labels (c ∷ cs)) [
  | none ↦ false
  | some have ↦ labels_include have (w ∷ ws)
]

-- A filter text that is empty lets every row through.
abbrev pub matches : Text → Text → Bool
matches wanted have = is_empty wanted || have == wanted

unfoldable pub page_filter : Codec → JobListFilter → Job → Bool
unfolding job_labels_match_store status_text
page_filter codec f j =
    matches (trim_space f.user_id) j.user_id
    && matches (trim_space f.agent_id) j.agent_id
    && matches (trim_space f.claimed_by_agent_id) j.claimed_by_agent_id
    && matches (trim_space f.claimed_by_runner_id) j.claimed_by_runner_id
    && matches (trim_space f.region_hint) j.region_hint
    && matches (trim_space f.status) (status_text j.status)
    && job_labels_match_store codec j.labels_json f.labels

unfoldable pub list_jobs_page : Codec → JobListFilter → Store → List Job
unfolding page_filter newest_first behind_cursor page_limit
list_jobs_page codec f st = take (page_limit f.limit) (
    exchange_sort newest_first
      (keep (λ j. page_filter codec f j && behind_cursor f.cursor_created f.cursor_id j) st.jobs))

unfoldable pub admin_filter : AdminJobFilter → Job → Bool
unfolding status_text
admin_filter f j =
    matches f.user_id j.user_id
    && matches f.status (status_text j.status)
    && matches (trim_space f.region_hint) j.region_hint
    && matches (trim_space f.claimed_by_runner_id) j.claimed_by_runner_id

unfoldable pub list_jobs_admin : AdminJobFilter → Store → List Job
unfolding admin_filter newest_first behind_cursor page_limit
list_jobs_admin f st = take (page_limit f.limit) (
    exchange_sort newest_first
      (keep (λ j. admin_filter f j && behind_cursor f.cursor_created f.cursor_id j) st.jobs))

pub record JobStatusCounts : Type 0 where
  pub pending : ℕ
  pub dispatched : ℕ
  pub running : ℕ
  pub succeeded : ℕ
  pub failed : ℕ
  pub cancelled : ℕ
  pub total : ℕ

unfoldable pub add_status : Status → JobStatusCounts → JobStatusCounts
add_status Status.pending c = record c { total = suc c.total; pending = suc c.pending }
add_status Status.dispatched c = record c { total = suc c.total; dispatched = suc c.dispatched }
add_status Status.running c = record c { total = suc c.total; running = suc c.running }
add_status Status.succeeded c = record c { total = suc c.total; succeeded = suc c.succeeded }
add_status Status.failed c = record c { total = suc c.total; failed = suc c.failed }
add_status Status.cancelled c = record c { total = suc c.total; cancelled = suc c.cancelled }

abbrev pub no_counts : JobStatusCounts
no_counts = record {
  pending = 0;
  dispatched = 0;
  running = 0;
  succeeded = 0;
  failed = 0;
  cancelled = 0;
  total = 0;
}

unfoldable pub count_from : Text → JobStatusCounts → List Job → JobStatusCounts
unfolding add_status
count_from user_id c [] = c
count_from user_id c (j ∷ js) =
    count_from user_id (if matches user_id j.user_id then add_status j.status c else c) js

unfoldable pub count_jobs_by_status : Text → Store → JobStatusCounts
unfolding count_from
count_jobs_by_status user_id st = count_from user_id no_counts st.jobs
