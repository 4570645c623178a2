-- ===== src/Auth/Accounts/Refused.antt =====
-- About Login of internal/auth/auth.go with credentials that are wrong.
use ai_cloudhub.Common.{ℕ, ◌≡◌, false, inl, inr, refl}
use ai_cloudhub.Text.{Text, codes}
use ai_cloudhub.Action.{ok, err, Result-cases, or_fail, reads, fail, ◌>>=◌}
use ai_cloudhub.Memory.{Memory, User, get_user_by_username}
use ai_cloudhub.Auth.{Service}
use ai_cloudhub.Auth.Accounts.{login, password_matches, bad_credentials}

-- Login with a name that no account has, or with a password that is not the account's, answers the
-- same error in both cases and writes nothing.
pub login-refused :
    (sv : Service) (now : ℕ) (username password : Text) (m : Memory)
    → ((u : User)
        → get_user_by_username username m ≡ ok u
        → password_matches sv u.password password ≡ false)
    → login sv now username password m ≡ (err (codes "invalid credentials"), m)
unfolding login ◌>>=◌ or_fail reads fail bad_credentials
login-refused sv now username password m wrong =
    elim (Result-cases (get_user_by_username username m)) [
      | inr (e, unknown) ↦ rw (login, unknown) refl
      | inl (u, known) ↦ rw (login, known, wrong u known) refl
    ]
