-- ===== src/Lockout/Laws.antt =====
-- About the lockout of internal/policy/authlimit.go and handleLogin of internal/httpserver/server.go.
use ai_cloudhub.Common.{
  ℕ, suc, ◌+◌, ◌≤◌, ◌≡◌, refl, sym, subst, true, false, List, [], ◌∷◌, some, Option-cases,
  Bool-cases, inl, inr, arith, All,
}
use ai_cloudhub.Text.{Text, ◌==◌}
use ai_cloudhub.Text.Laws.{==_iff}
use ai_cloudhub.Table.{find}
use ai_cloudhub.Table.Laws.{find-put, find-remove, find-key}
use ai_cloudhub.Action.{Result-cases}
use ai_cloudhub.Memory.Audit.{append_audit}
use ai_cloudhub.Auth.{Service}
use ai_cloudhub.Auth.Accounts.{login}
use ai_cloudhub.Lockout.{
  FailEntry, Limits, entry_key, first_failure, locked, fail, clear, Gate, Attempt, too_many,
  lock_key, try_login, handle_login, handle_all, audit,
}

-- The key has an entry of this start that has reached the limit.
abbrev pub LockedSince : Limits → Text → ℕ → List FailEntry → Type 0
LockedSince lim k start es =
    (e : FailEntry) × (find entry_key k es ≡ some e) × (e.first ≡ start) × (lim.max_fail ≤ e.count)

module _ (lim : Limits) (k : Text) (start : ℕ) (es : List FailEntry) where
  locked-same :
      (now : ℕ)
      → now ≤ start + lim.window
      → LockedSince lim k start es
      → locked lim now k es ≡ (true, es)
  unfolding locked
  locked-same now within (e, found, same, reached) = ground arith

  locked-other :
      (now : ℕ) (j : Text)
      → (j == k) ≡ false
      → LockedSince lim k start es
      → LockedSince lim k start (locked lim now j es).1
  unfolding locked
  locked-other now j other (e, found, same, reached) =
      (e, ground (arith, find-remove entry_key k j es), same, reached)

  fail-other :
      (now : ℕ) (j : Text)
      → (j == k) ≡ false
      → LockedSince lim k start es
      → LockedSince lim k start (fail lim now j es).1
  unfolding fail
  fail-other now j other (e, found, same, reached) = elim (Option-cases (find entry_key j es)) [
    | inl missing ↦
        (e, ground (arith, find-put entry_key k (first_failure j now) es), same, reached)
    | inr (x, there) ↦ (
      e,
      ground (
        arith,
        find-key entry_key j es {r = x} there,
        find-put entry_key k (record x { count = suc x.count }) es,
        find-put entry_key k (first_failure j now) es,
      ),
      same,
      reached,
    )
  ]

  clear-other :
      (j : Text)
      → (j == k) ≡ false
      → LockedSince lim k start es
      → LockedSince lim k start (clear j es)
  unfolding clear
  clear-other j other (e, found, same, reached) =
      (e, ground (arith, find-remove entry_key k j es), same, reached)

module _ (sv : Service) (lim : Limits) (to_lower : Text → Text) (k : Text) (start : ℕ) where
  try_login-other :
      (a : Attempt) (g : Gate)
      → (lock_key sv lim to_lower a == k) ≡ false
      → LockedSince lim k start g.failures
      → LockedSince lim k start (try_login sv lim to_lower a g).0.failures
  unfolding try_login
  try_login-other a g other l =
      elim (Result-cases (login sv a.now a.username a.password g.memory).0) [
        | inl (pair, welcome) ↦
            rw (welcome, try_login) (clear-other lim k start g.failures _ other l)
        | inr (e, wrong) ↦ rw (wrong, try_login) (fail-other lim k start g.failures a.now _ other l)
      ]

  -- Past the guard, the key is not the locked one.
  not_own :
      (a : Attempt) (g : Gate)
      → a.now ≤ start + lim.window
      → LockedSince lim k start g.failures
      → (locked lim a.now (lock_key sv lim to_lower a) g.failures).0 ≡ false
      → (lock_key sv lim to_lower a == k) ≡ false
  not_own a g within l let_in =
      let j = lock_key sv lim to_lower a in
      let shut : locked lim a.now k g.failures ≡ (true, g.failures) =
        locked-same lim k start g.failures a.now within l in
      elim (Bool-cases (j == k)) [
        | inr other ↦ other
        | inl own ↦
            let again : (locked lim a.now k g.failures).0 ≡ false =
              subst (λ x. (locked lim a.now x g.failures).0 ≡ false) ((==_iff j k).0 own) let_in in
            ground arith
      ]

  handle_login-LockedSince :
      (a : Attempt) (g : Gate)
      → a.now ≤ start + lim.window
      → LockedSince lim k start g.failures
      → LockedSince lim k start (handle_login sv lim to_lower a g).0.failures
  unfolding handle_login
  handle_login-LockedSince a g within l =
      let j = lock_key sv lim to_lower a in
      let checked = locked lim a.now j g.failures in
      let l1 : LockedSince lim k start checked.1 = elim (Bool-cases (j == k)) [
        | inl own ↦
            let here : locked lim a.now k g.failures ≡ (true, g.failures) =
              locked-same lim k start g.failures a.now within l in
            subst (λ x. LockedSince lim k start (locked lim a.now x g.failures).1)
              (sym ((==_iff j k).0 own)) (rw here l)
        | inr other ↦ locked-other lim k start g.failures a.now j other l
      ] in
      elim (Bool-cases a.allowed) [
        | inr limited ↦ rw (handle_login, limited) l
        | inl allowed ↦ elim (Bool-cases checked.0) [
          | inl shut ↦ rw (handle_login, allowed, shut) l1
          | inr let_in ↦
              rw (handle_login, allowed, let_in)
                (try_login-other a (record g { failures = checked.1 }) (not_own a g within l let_in)
                  l1)
        ]
      ]

  handle_all-LockedSince :
      (attempts : List Attempt) (g : Gate)
      → All (λ a. a.now ≤ start + lim.window) attempts
      → LockedSince lim k start g.failures
      → LockedSince lim k start (handle_all sv lim to_lower attempts g).failures
  unfolding handle_all
  handle_all-LockedSince [] g times l = l
  handle_all-LockedSince (a ∷ rest) g times l =
      handle_all-LockedSince rest (handle_login sv lim to_lower a g).0 times.1
        (handle_login-LockedSince a g times.0 l)

  -- A locked key stays locked for its window: whatever attempts are made until then, with whatever
  -- outcome, an attempt on the key is answered with "too many", with the right password too, and
  -- leaves accounts and tokens as they are.
  pub lockout-holds :
      (attempts : List Attempt) (a : Attempt) (g : Gate)
      → All (λ b. b.now ≤ start + lim.window) attempts
      → a.now ≤ start + lim.window
      → lock_key sv lim to_lower a ≡ k
      → LockedSince lim k start g.failures
      → let g1 = handle_all sv lim to_lower attempts g in
        ((why : Text) × ((handle_login sv lim to_lower a g1).1 ≡ too_many why))
        × ((handle_login sv lim to_lower a g1).0.memory.users ≡ g1.memory.users)
        × ((handle_login sv lim to_lower a g1).0.memory.refresh ≡ g1.memory.refresh)
  unfolding handle_login audit append_audit
  lockout-holds attempts a g times within own l =
      let g1 = handle_all sv lim to_lower attempts g in
      let shut : locked lim a.now (lock_key sv lim to_lower a) g1.failures ≡ (true, g1.failures) =
        rw own (
          locked-same lim k start g1.failures a.now within
            (handle_all-LockedSince attempts g times l)) in
      elim (Bool-cases a.allowed) [
        | inr limited ↦ rw (handle_login, limited) ((_, refl), refl, refl)
        | inl allowed ↦ rw (handle_login, allowed, shut) ((_, refl), refl, refl)
      ]
