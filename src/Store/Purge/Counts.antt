-- ===== src/Store/Purge/Counts.antt =====
-- About PurgeTerminalJobs of internal/store/memory.go: how many jobs it deletes.
use ai_cloudhub.Common.{
  ℕ, zero, suc, ◌+◌, ◌≤◌, ◌<◌, ◌≡◌, refl, inl, inr, false, not, List, [], ◌∷◌, some, none, arith,
  Has, length, length-take-le, keep, mem-keep, keep-mem, take-Has, ap,
}
use ai_cloudhub.Text.{Text, ◌==◌}
use ai_cloudhub.Text.Laws.{==_iff}
use ai_cloudhub.Table.{find, remove, Unique}
use ai_cloudhub.Table.Laws.{Has-find, keep-Unique}
use ai_cloudhub.Sort.Laws.{exchange_sort-Has}
use ai_cloudhub.Sort.Keys.{exchange_sort-Unique, take-Unique}
use ai_cloudhub.Job.{Job}
use ai_cloudhub.Store.{
  Store, job_key, is_purgeable, purge_candidates, delete_job, delete_jobs, purge_terminal_jobs,
  updated_before, purge_limit,
}

module _ {A : Type 0} (key : A → Text) where
  length-remove_absent :
      (k : Text) (t : List A) → find key k t ≡ none → length (remove key k t) ≡ length t
  unfolding find remove
  length-remove_absent k [] h = refl
  length-remove_absent k (x ∷ xs) h = ground (arith, length-remove_absent k xs)

  -- Where no key stands twice, removing a key that is there removes one row.
  length-remove :
      (k : Text) (t : List A) {r : A}
      → Unique key t
      → find key k t ≡ some r
      → suc (length (remove key k t)) ≡ length t
  unfolding find remove
  length-remove k [] u h = ground arith
  length-remove k (x ∷ xs) {r} u h =
      ground (arith, length-remove k xs {r = r}, length-remove_absent k xs, ==_iff (key x) k)

  absent-Has :
      (k : Text) (t : List A) (r : A) → find key k t ≡ none → Has r t → (key r == k) ≡ false
  unfolding find
  absent-Has k [] r h m = elim m [ ]
  absent-Has k (x ∷ xs) r h (inl e) = ground arith
  absent-Has k (x ∷ xs) r h (inr m) = ground (arith, absent-Has k xs r)

-- Each of the listed jobs is there and stands once in the list: as many rows go.
length-delete_jobs :
    (js : List Job) (st : Store)
    → Unique job_key st.jobs
    → Unique job_key js
    → ((j : Job) → Has j js → Has j st.jobs)
    → length (delete_jobs js st).jobs + length js ≡ length st.jobs
unfolding delete_jobs delete_job remove
length-delete_jobs [] st u v there = omega arith
length-delete_jobs (j ∷ js) st u (new, v) there = omega (
  arith,
  length-delete_jobs js (delete_job j.id st) (keep-Unique job_key _ st.jobs u) v
      (λ x m. keep-mem _ st.jobs x (there x (inr m)) (ap not (absent-Has job_key j.id js x new m))),
  length-remove job_key j.id st.jobs {r = j} u (Has-find job_key st.jobs j u (there j (inl refl))),
)

-- A purge with a positive limit, of a table in which no id stands twice, deletes no more jobs than the
-- limit, and answers with the number of those that it deleted.
pub purge-le-limit :
    (older_than limit : ℕ) (st : Store)
    → Unique job_key st.jobs
    → 0 < limit
    → let (st', deleted) = purge_terminal_jobs older_than limit st in
      (length st'.jobs + deleted ≡ length st.jobs) × (deleted ≤ limit)
unfolding purge_terminal_jobs purge_candidates
purge-le-limit older_than limit st u h =
    let old = keep (is_purgeable older_than) st.jobs in
    (
      length-delete_jobs (purge_candidates older_than limit st) st u
          (take-Unique job_key (purge_limit limit) _
            (exchange_sort-Unique job_key updated_before old (keep-Unique job_key _ st.jobs u)))
          (λ j m.
            (mem-keep _ st.jobs j
              ((exchange_sort-Has updated_before j old).0 (take-Has (purge_limit limit) _ j m))).0),
      omega (arith, length-take-le {0} (purge_limit limit) _, purge_limit-le limit h),
    )
  where
    purge_limit-le : (n : ℕ) → 0 < n → purge_limit n ≤ n
    purge_limit-le zero p = absurd (omega arith)
    purge_limit-le (suc n) p = ground arith
