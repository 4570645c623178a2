-- ===== src/Table/Laws.antt =====
-- The laws of maps.
use ai_cloudhub.Common.{
  List, [], ◌∷◌, none, some, ◌≡◌, refl, if◌then◌else◌, keep, Has, inl, inr, arith, Bool,
}
use ai_cloudhub.Text.{Text, ◌==◌}
use ai_cloudhub.Text.Laws.{==_iff, ==_refl}
use ai_cloudhub.Table.{find, put, remove, Unique}

module _ {A : Type 0} (key : A → Text) where
  pub find-put :
      (k : Text) (r : A) (t : List A)
      → find key k (put key r t) ≡ (if key r == k then some r else find key k t)
  unfolding find put
  find-put k r [] = refl
  find-put k r (x ∷ xs) =
      ground (arith, ==_iff (key x) (key r), ==_iff (key x) k, ==_iff (key r) k, find-put k r xs)

  pub find-remove :
      (j k : Text) (t : List A)
      → find key j (remove key k t) ≡ (if k == j then none else find key j t)
  unfolding find remove
  find-remove j k [] = ground arith
  find-remove j k (x ∷ xs) =
      ground (arith, ==_iff (key x) k, ==_iff k j, ==_iff (key x) j, find-remove j k xs)

  pub find-key : (k : Text) (t : List A) {r : A} → find key k t ≡ some r → key r ≡ k
  unfolding find
  find-key k [] h = ground arith
  find-key k (x ∷ xs) {r} h = ground (arith, ==_iff (key x) k, find-key k xs {r = r})

  pub find-Has : (k : Text) (t : List A) {r : A} → find key k t ≡ some r → Has r t
  unfolding find
  find-Has k [] h = ground arith
  find-Has k (x ∷ xs) {r} h = ground (arith, find-Has k xs {r = r})

  pub Has-find : (t : List A) (r : A) → Unique key t → Has r t → find key (key r) t ≡ some r
  unfolding find
  Has-find [] r u m = elim m [ ]
  Has-find (x ∷ xs) r u (inl e) = ground (arith, ==_refl (key x))
  Has-find (x ∷ xs) r u (inr m) = ground (arith, Has-find xs r, ==_iff (key x) (key r))

  pub put-Unique : (r : A) (t : List A) → Unique key t → Unique key (put key r t)
  unfolding put find
  put-Unique r [] u = (refl, tt)
  put-Unique r (x ∷ xs) u = ground (
    arith,
    put-Unique r xs,
    ==_iff (key x) (key r),
    find-put (key x) r xs,
    ==_iff (key r) (key x),
  )

  pub keep-find-none :
      (p : A → Bool) (k : Text) (t : List A) → find key k t ≡ none → find key k (keep p t) ≡ none
  unfolding find
  keep-find-none p k [] h = refl
  keep-find-none p k (x ∷ xs) h = ground (arith, keep-find-none p k xs)

  pub keep-Unique : (p : A → Bool) (t : List A) → Unique key t → Unique key (keep p t)
  unfolding find
  keep-Unique p [] u = tt
  keep-Unique p (x ∷ xs) u = ground (arith, keep-Unique p xs, keep-find-none p (key x) xs)
