-- ===== src/Drives/Laws.antt =====
-- About the drives of internal/drive/service.go: their number and their aliases.
use ai_cloudhub.Common.{◌≡◌, refl, Bool, ◌&&◌, List, [], ◌∷◌, none, arith}
use ai_cloudhub.Text.{Text, ◌==◌}
use ai_cloudhub.Table.Counts.{count}
use ai_cloudhub.Memory.{Drive}
use ai_cloudhub.Memory.Agents.{find_alias}

abbrev pub has_alias : Text → Text → Drive → Bool
has_alias u a d = d.user_id == u && d.alias == a

pub free-count :
    (u a : Text) (ds : List Drive) → find_alias u a ds ≡ none → count (has_alias u a) ds ≡ 0
unfolding find_alias
free-count u a [] none_yet = refl
free-count u a (d ∷ ds) none_yet = ground (arith, free-count u a ds)
