-- ===== src/Auth/Scopes.antt =====
-- internal/auth/scope.go: the scopes of agents.
use ai_cloudhub.Common.{Bool, not, ◌||◌, List, [], ◌∷◌, ◌++◌, if◌then◌else◌}
use ai_cloudhub.Text.{Text, codes, is_empty, trim_space}
use ai_cloudhub.Policy.{contains}
use ai_cloudhub.Action.{Result, ok, err}

abbrev pub known_scopes : List Text
known_scopes =
    codes "drive.read"
    ∷ codes "drive.write"
    ∷ codes "job.run"
    ∷ codes "provider.read"
    ∷ codes "provider.write"
    ∷ []

unfoldable pub is_known_scope : Text → Bool
unfolding contains
is_known_scope s = contains known_scopes (trim_space s)

-- Trimmed by `clean`, without the empty and the repeated; `seen` holds what has been put out.
unfoldable pub normalise_from : (Text → Text) → List Text → List Text → List Text
unfolding contains
normalise_from clean seen [] = []
normalise_from clean seen (s ∷ ss) =
    let x = clean s in
    let dropped = normalise_from clean seen ss in
    let taken = normalise_from clean (x ∷ seen) ss in
    if is_empty x || contains seen x then dropped else x ∷ taken

unfoldable pub normalize_scopes : List Text → List Text
unfolding normalise_from
normalize_scopes ss = normalise_from trim_space [] ss

-- The loop that refuses the first unknown scope.
unfoldable pub all_known : (Text → Text) → List Text → Result {0} Unit
unfolding is_known_scope
all_known quote [] = ok tt
all_known quote (s ∷ ss) =
    let rest = all_known quote ss in
    if not (is_known_scope s) then err (codes "unknown scope " ++ quote s) else rest

unfoldable pub has_scope : Text → List Text → Text → Bool
unfolding contains
has_scope agent_id scopes need = is_empty agent_id || contains scopes (trim_space need)

unfoldable pub has_any_scope : Text → List Text → List Text → Bool
unfolding has_scope
has_any_scope agent_id scopes [] = is_empty agent_id
has_any_scope agent_id scopes (n ∷ ns) =
    has_scope agent_id scopes n || has_any_scope agent_id scopes ns
