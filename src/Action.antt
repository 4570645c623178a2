-- ===== src/Action.antt =====
-- Methods that change the store and may answer an error: what was written before the error stays
-- written, so the state comes back in both cases. An error is its text.
use ai_cloudhub.Common.{◌≡◌, refl, ◌⊎◌, inl, inr, ◌++◌}
use ai_cloudhub.Text.{Text}
pub mod Keeps

pub data Result {ℓ} (A : Type ℓ) : Type ℓ where
  ok : A → Result A
  err : Text → Result A

pub Result-cases {ℓ} :
    {A : Type ℓ} (r : Result A) → ((a : A) × (r ≡ ok a)) ⊎ ((e : Text) × (r ≡ err e))
Result-cases (ok a) = inl (a, refl)
Result-cases (err e) = inr (e, refl)

-- `if err != nil { return nil, err }` between two checks that only compute.
abbrev pub on_ok {ℓ} : {A B : Type ℓ} → Result A → (A → Result B) → Result B
on_ok (ok a) f = f a
on_ok (err e) f = err e

abbrev renamed {ℓ} : {A : Type ℓ} → Text → Result A → Result A
renamed e (ok a) = ok a
renamed e (err e') = err e

-- `fmt.Errorf("...: %w", err)`
abbrev wrapped {ℓ} : {A : Type ℓ} → Text → Result A → Result A
wrapped e (ok a) = ok a
wrapped e (err e') = err (e ++ e')

abbrev pub Action {ℓ} : Type ℓ → Type ℓ → Type ℓ
Action S A = S → Result A × S

module _ {ℓ} {S A : Type ℓ} where
  unfoldable pub return : A → Action S A
  return a s = (ok a, s)

  -- return nil, fmt.Errorf(...)
  unfoldable pub fail : Text → Action S A
  fail e s = (err e, s)

  unfoldable pub lift : Result A → Action S A
  lift r s = (r, s)

  -- A method that only reads.
  unfoldable pub reads : (S → Result A) → Action S A
  reads f s = (f s, s)

  -- `if err != nil { return fmt.Errorf(...) }`
  unfoldable pub or_fail : Text → Action S A → Action S A
  or_fail e m s = (renamed e (m s).0, (m s).1)

  unfoldable pub or_wrap : Text → Action S A → Action S A
  or_wrap e m s = (wrapped e (m s).0, (m s).1)

module _ {ℓ} {S A B : Type ℓ} where
  abbrev resume : Result A → (A → Action S B) → Action S B
  resume (ok a) f s = f a s
  resume (err e) f s = (err e, s)

  infixl 10 ◌>>=◌ ◌>>◌
  unfoldable pub ◌>>=◌ : Action S A → (A → Action S B) → Action S B
  ◌>>=◌ m f s = resume (m s).0 f (m s).1

  abbrev pub ◌>>◌ : Action S A → Action S B → Action S B
  m >> n = m >>= λ a. n

  -- `_ = m`: the answer is dropped.
  unfoldable pub ◌and_then◌ : Action S A → Action S B → Action S B
  ◌and_then◌ m n s = n (m s).1

  -- `a := m; _ = n; return a`
  unfoldable pub ◌ending_with◌ : Action S A → Action S B → Action S A
  ◌ending_with◌ m n s = ((m s).0, (n (m s).1).1)

infixr 9 ◌and_then◌ ◌ending_with◌
