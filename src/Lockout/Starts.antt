-- ===== src/Lockout/Starts.antt =====
-- About the failures that lock a key: handleLogin of internal/httpserver/server.go with the tracker
-- of internal/policy/authlimit.go.
use ai_cloudhub.Common.{
  ℕ, zero, suc, ◌+◌, ◌≤◌, ◌≡◌, refl, sym, subst, List, [], ◌∷◌, none, some, Bool-cases, inl, inr,
  arith, All, length,
}
use ai_cloudhub.Text.{Text}
use ai_cloudhub.Text.Laws.{==_refl}
use ai_cloudhub.Table.{find}
use ai_cloudhub.Table.Laws.{find-put, find-key}
use ai_cloudhub.Action.{Result-cases}
use ai_cloudhub.Auth.{Service}
use ai_cloudhub.Auth.Accounts.{login}
use ai_cloudhub.Lockout.{
  FailEntry, Limits, entry_key, first_failure, locked, fail, Gate, Attempt, unauthorized, lock_key,
  try_login, handle_login, handle_all,
}
use ai_cloudhub.Lockout.Laws.{LockedSince}

-- The key's entry counts `n` failures since `start`; none is there before the first.
abbrev Counted : Text → ℕ → ℕ → List FailEntry → Type 0
Counted k start zero es = find entry_key k es ≡ none
Counted k start (suc n) es =
    (e : FailEntry) × (find entry_key k es ≡ some e) × (e.first ≡ start) × (e.count ≡ suc n)

module _ (lim : Limits) (k : Text) (start : ℕ) (es : List FailEntry) where
  fail-Counted :
      (now n : ℕ)
      → (n ≡ 0 → now ≡ start)
      → now ≤ start + lim.window
      → Counted k start n es
      → Counted k start (suc n) (fail lim now k es).1
  unfolding fail
  fail-Counted now zero begins within none_yet = (
    first_failure k now,
    ground (arith, find-put entry_key k (first_failure k now) es, ==_refl k),
    begins refl,
    refl,
  )
  fail-Counted now (suc n) begins within (e, found, since, many) = (
    record e { count = suc e.count },
    ground (
      arith,
      find-put entry_key k (record e { count = suc e.count }) es,
      find-key entry_key k es {r = e} found,
      ==_refl k,
    ),
    since,
    ground arith,
  )

  locked-Counted :
      (now n : ℕ) → now ≤ start + lim.window → Counted k start n es → (locked lim now k es).1 ≡ es
  unfolding locked
  locked-Counted now zero within none_yet = ground arith
  locked-Counted now (suc n) within (e, found, since, many) = ground arith

module _ (sv : Service) (lim : Limits) (to_lower : Text → Text) (k : Text) (start : ℕ) where
  -- Attempts on the key, each answered that the credentials are wrong.
  abbrev pub AllWrong : List Attempt → Gate → Type 0
  AllWrong [] g = Unit
  AllWrong (a ∷ rest) g =
      (lock_key sv lim to_lower a ≡ k)
      × ((handle_login sv lim to_lower a g).1 ≡ unauthorized)
      × AllWrong rest (handle_login sv lim to_lower a g).0

  own-Counted :
      (a : Attempt) (g : Gate) (n : ℕ)
      → (n ≡ 0 → a.now ≡ start)
      → a.now ≤ start + lim.window
      → (handle_login sv lim to_lower a g).1 ≡ unauthorized
      → Counted (lock_key sv lim to_lower a) start n g.failures
      → Counted
          (lock_key sv lim to_lower a)
          start
          (suc n)
          (handle_login sv lim to_lower a g).0.failures
  unfolding handle_login try_login
  own-Counted a g n begins within wrong c =
      let j = lock_key sv lim to_lower a in
      let checked = locked lim a.now j g.failures in
      let same : checked.1 ≡ g.failures = locked-Counted lim j start g.failures a.now n within c in
      elim (Bool-cases a.allowed) [
        | inr limited ↦ ground arith
        | inl allowed ↦ elim (Bool-cases checked.0) [
          | inl shut ↦ ground arith
          | inr past ↦ elim (Result-cases (login sv a.now a.username a.password g.memory).0) [
            | inl (pair, welcome) ↦ ground arith
            | inr (e, bad) ↦
                rw (handle_login, allowed, past, try_login, bad, same)
                  (fail-Counted lim j start g.failures a.now n begins within c)
          ]
        ]
      ]

  wrong-LockedSince :
      (attempts : List Attempt) (g : Gate) (n : ℕ)
      → All (λ a. a.now ≤ start + lim.window) attempts
      → (n ≡ 0 → (a : Attempt) (rest : List Attempt) → attempts ≡ a ∷ rest → a.now ≡ start)
      → AllWrong attempts g
      → 1 ≤ n + length attempts
      → lim.max_fail ≤ n + length attempts
      → Counted k start n g.failures
      → LockedSince lim k start (handle_all sv lim to_lower attempts g).failures
  unfolding handle_all
  wrong-LockedSince [] g zero times begins wrong some_one enough c = ground arith
  wrong-LockedSince [] g (suc n) times begins wrong some_one enough (e, found, since, many) =
      (e, found, since, omega arith)
  wrong-LockedSince (a ∷ rest) g n times begins (own, this, others) some_one enough c =
      let g1 = (handle_login sv lim to_lower a g).0 in
      let c' : Counted (lock_key sv lim to_lower a) start n g.failures =
        subst (λ x. Counted x start n g.failures) (sym own) c in
      let next : Counted k start (suc n) g1.failures =
        subst (λ x. Counted x start (suc n) g1.failures) own
          (own-Counted a g n (λ z. begins z a rest refl) times.0 this c') in
      wrong-LockedSince rest g1 (suc n) times.1 (λ z. ground arith) others (omega arith)
        (omega arith) next

  -- As many wrong attempts on a key as the limit, the first at `start` and all within the window from
  -- there, lock the key from `start`, where no failure of the key stood before.
  pub lockout-starts :
      (a : Attempt) (rest : List Attempt) (g : Gate)
      → a.now ≡ start
      → All (λ b. b.now ≤ start + lim.window) rest
      → AllWrong (a ∷ rest) g
      → lim.max_fail ≤ suc (length rest)
      → find entry_key k g.failures ≡ none
      → LockedSince lim k start (handle_all sv lim to_lower (a ∷ rest) g).failures
  lockout-starts a rest g begins times wrong enough none_yet =
      wrong-LockedSince (a ∷ rest) g 0 (omega arith, times) (λ z b more e. ground arith) wrong
        (omega arith) (omega arith) none_yet
