-- ===== src/Action/Keeps.antt =====
-- About actions: a predicate on the state that an action keeps, by the way the action is built.
use ai_cloudhub.Common.{◌≡◌, Bool, true, false, if◌then◌else◌, inl, inr}
use ai_cloudhub.Text.{Text}
use ai_cloudhub.Action.{
  Result, ok, Result-cases, Action, return, fail, lift, reads, or_fail, or_wrap, ◌>>=◌, ◌and_then◌,
  ◌ending_with◌,
}

-- From a state of `P`, an answer and an error alike leave a state of `P`.
pub record Keeps {ℓ} {S A : Type ℓ} (P : S → Type ℓ) (m : Action S A) : Type ℓ where
  pub kept : (s : S) → P s → P (m s).1

module _ {ℓ} {S A : Type ℓ} {P : S → Type ℓ} where
  pub Keeps-return : (a : A) → Keeps P (return a)
  unfolding return
  Keeps-return a = record { kept = λ s p. p }

  pub Keeps-fail : (e : Text) → Keeps P (fail {A = A} e)
  unfolding fail
  Keeps-fail e = record { kept = λ s p. p }

  pub Keeps-lift : (r : Result A) → Keeps P (lift r)
  unfolding lift
  Keeps-lift r = record { kept = λ s p. p }

  pub Keeps-reads : (f : S → Result A) → Keeps P (reads f)
  unfolding reads
  Keeps-reads f = record { kept = λ s p. p }

  pub Keeps-or_fail : (e : Text) (m : Action S A) → Keeps P m → Keeps P (or_fail e m)
  unfolding or_fail
  Keeps-or_fail e m k = record { kept = λ s p. k.kept s p }

  pub Keeps-or_wrap : (e : Text) (m : Action S A) → Keeps P m → Keeps P (or_wrap e m)
  unfolding or_wrap
  Keeps-or_wrap e m k = record { kept = λ s p. k.kept s p }

  pub Keeps-if :
      (b : Bool) (m n : Action S A) → Keeps P m → Keeps P n → Keeps P (if b then m else n)
  Keeps-if true m n km kn = km
  Keeps-if false m n km kn = kn

module _ {ℓ} {S A B : Type ℓ} {P : S → Type ℓ} where
  pub Keeps-and_then :
      (m : Action S A) (n : Action S B) → Keeps P m → Keeps P n → Keeps P (m and_then n)
  unfolding ◌and_then◌
  Keeps-and_then m n km kn = record { kept = λ s p. kn.kept (m s).1 (km.kept s p) }

  pub Keeps-ending_with :
      (m : Action S A) (n : Action S B) → Keeps P m → Keeps P n → Keeps P (m ending_with n)
  unfolding ◌ending_with◌
  Keeps-ending_with m n km kn = record { kept = λ s p. kn.kept (m s).1 (km.kept s p) }

  -- The rest may use what the first action answered, from some state.
  pub Keeps-bind_known :
      (m : Action S A) (f : A → Action S B)
      → Keeps P m
      → ((a : A) (s : S) → (m s).0 ≡ ok a → Keeps P (f a))
      → Keeps P (m >>= f)
  unfolding ◌>>=◌
  Keeps-bind_known m f km kf = record {
    kept = λ s p. elim (Result-cases (m s).0) [
      | inl (a, e) ↦ rw (e, ◌>>=◌) ((kf a s e).kept (m s).1 (km.kept s p))
      | inr (x, e) ↦ rw (e, ◌>>=◌) (km.kept s p)
    ];
  }

  pub Keeps-bind :
      (m : Action S A) (f : A → Action S B)
      → Keeps P m
      → ((a : A) → Keeps P (f a))
      → Keeps P (m >>= f)
  Keeps-bind m f km kf = Keeps-bind_known m f km λ a s e. kf a

pub ruleset keeps_rules = (
  Keeps-return, Keeps-fail, Keeps-lift, Keeps-reads, Keeps-or_fail, Keeps-or_wrap,
  Keeps-ending_with, Keeps-if, Keeps-and_then, Keeps-bind,
)
