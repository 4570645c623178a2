-- ===== src/Sort/Keys.antt =====
-- About the keys of a table's rows under sorting and cutting.
use ai_cloudhub.Common.{ℕ, zero, suc, List, [], ◌∷◌, Bool, ◌≡◌, refl, none, length, arith, take}
use ai_cloudhub.Text.{Text}
use ai_cloudhub.Text.Laws.{==_iff}
use ai_cloudhub.Table.{find, Unique}
use ai_cloudhub.Sort.{sweep, sort_rounds, exchange_sort}

module _ {A : Type 0} (key : A → Text) (before : A → A → Bool) where
  sweep-none :
      (k : Text) (x : A) (ys : List A)
      → find key k (x ∷ ys) ≡ none
      → find key k ((sweep before x ys).0 ∷ (sweep before x ys).1) ≡ none
  unfolding find sweep
  sweep-none k x [] h = h
  sweep-none k x (y ∷ ys) h = ground (arith, sweep-none k x ys, sweep-none k y ys)

  sweep-Unique :
      (x : A) (ys : List A)
      → Unique key (x ∷ ys)
      → Unique key ((sweep before x ys).0 ∷ (sweep before x ys).1)
  unfolding find sweep
  sweep-Unique x [] u = u
  sweep-Unique x (y ∷ ys) u = ground (
    arith,
    sweep-Unique x ys,
    sweep-Unique y ys,
    sweep-none (key x) y ys,
    sweep-none (key y) x ys,
    ==_iff (key x) (key y),
    ==_iff (key y) (key x),
    ==_iff (key (sweep before x ys).0) (key y),
    ==_iff (key y) (key (sweep before x ys).0),
    ==_iff (key (sweep before y ys).0) (key x),
    ==_iff (key x) (key (sweep before y ys).0),
  )

  sort_rounds-none :
      (n : ℕ) (k : Text) (xs : List A)
      → find key k xs ≡ none
      → find key k (sort_rounds before n xs) ≡ none
  unfolding sort_rounds find
  sort_rounds-none zero k xs h = h
  sort_rounds-none (suc n) k [] h = h
  sort_rounds-none (suc n) k (x ∷ xs) h =
      ground (arith, sweep-none k x xs, sort_rounds-none n k (sweep before x xs).1)

  sort_rounds-Unique : (n : ℕ) (xs : List A) → Unique key xs → Unique key (sort_rounds before n xs)
  unfolding sort_rounds
  sort_rounds-Unique zero xs u = u
  sort_rounds-Unique (suc n) [] u = u
  sort_rounds-Unique (suc n) (x ∷ xs) u =
      let swept = sweep-Unique x xs u in
      (
        sort_rounds-none n (key (sweep before x xs).0) (sweep before x xs).1 swept.0,
        sort_rounds-Unique n (sweep before x xs).1 swept.1,
      )

  pub exchange_sort-Unique : (xs : List A) → Unique key xs → Unique key (exchange_sort before xs)
  unfolding exchange_sort
  exchange_sort-Unique xs u = sort_rounds-Unique (length xs) xs u

module _ {A : Type 0} (key : A → Text) where
  take-none :
      (n : ℕ) (k : Text) (xs : List A) → find key k xs ≡ none → find key k (take n xs) ≡ none
  unfolding find
  take-none zero k xs h = refl
  take-none (suc n) k [] h = refl
  take-none (suc n) k (x ∷ xs) h = ground (arith, take-none n k xs)

  pub take-Unique : (n : ℕ) (xs : List A) → Unique key xs → Unique key (take n xs)
  take-Unique zero xs u = tt
  take-Unique (suc n) [] u = u
  take-Unique (suc n) (x ∷ xs) u = (take-none n (key x) xs u.0, take-Unique n xs u.1)
