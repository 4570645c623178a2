-- ===== src/Queue/Claim/Order.antt =====
-- About sort.Slice with the order of ClaimNext in internal/job/service.go.
use ai_cloudhub.Common.{Bool, List, ◌↔◌, arith, Has}
use ai_cloudhub.Sort.{StrictWeak, IsSorted, exchange_sort}
use ai_cloudhub.Sort.Laws.{exchange_sort-Has, exchange_sort-IsSorted}
use ai_cloudhub.Job.{Job}
use ai_cloudhub.Queue.Claim.{claim_order}

-- For a strict weak order the slice is permuted and sorted.
abbrev pub SortsSlices : ((Job → Job → Bool) → List Job → List Job) → Type 0
SortsSlices sort_slice =
    (before : Job → Job → Bool) (xs : List Job)
    → StrictWeak before
    → ((j : Job) → Has j (sort_slice before xs) ↔ Has j xs) × IsSorted before (sort_slice before xs)

-- The store's own sort is one that does.
pub exchange_sort-SortsSlices : SortsSlices exchange_sort
exchange_sort-SortsSlices before xs order =
    ((λ j. exchange_sort-Has before j xs), exchange_sort-IsSorted before order xs)

pub claim_order-StrictWeak : StrictWeak claim_order
unfolding claim_order
claim_order-StrictWeak = record {
  asymm = λ a b h. ground arith;
  cotrans = λ a b c h k. ground arith;
}
