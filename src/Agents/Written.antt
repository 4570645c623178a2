-- ===== src/Agents/Written.antt =====
-- About what Update of internal/agent/service.go writes.
use ai_cloudhub.Common.{
  ◌≡◌, refl, sym, subst, ap, true, List, Option, some, Option-cases, inl, inr, arith, ◌∙◌,
}
use ai_cloudhub.Text.{Text, ◌==◌}
use ai_cloudhub.Text.Laws.{==_iff, ==_refl}
use ai_cloudhub.Table.{find, put}
use ai_cloudhub.Table.Laws.{find-put, find-key}
use ai_cloudhub.Action.{ok, Result-cases, return, reads, or_fail, ◌>>=◌}
use ai_cloudhub.Memory.{Memory, Agent, agent_key}
use ai_cloudhub.Memory.Agents.{get_agent, update_agent}
use ai_cloudhub.Auth.{Service}
use ai_cloudhub.Agents.{
  UpdateInput, set_name, set_status, set_scopes, set_drive_ids, requested, description_or, bumped,
  update,
}

-- The fields that a request cannot set.
abbrev pub SameAgent : Agent → Agent → Type 0
SameAgent a b =
    (b.id ≡ a.id) × (b.owner_user_id ≡ a.owner_user_id) × (b.token_version ≡ a.token_version)

set_name-SameAgent : (x : Option Text) (a b : Agent) → set_name x a ≡ ok b → SameAgent a b
unfolding set_name
set_name-SameAgent x a b set = ground arith

set_status-SameAgent : (x : Option Text) (a b : Agent) → set_status x a ≡ ok b → SameAgent a b
unfolding set_status
set_status-SameAgent x a b set = ground arith

set_scopes-SameAgent :
    (quote : Text → Text) (x : Option (List Text)) (a b : Agent)
    → set_scopes quote x a ≡ ok b
    → SameAgent a b
unfolding set_scopes
set_scopes-SameAgent quote x a b set = ground arith

set_drive_ids-SameAgent :
    (owner : Text) (x : UpdateInput) (a b : Agent) (m : Memory)
    → set_drive_ids owner x a m ≡ ok b
    → SameAgent a b
unfolding set_drive_ids
set_drive_ids-SameAgent owner x a b m set = ground arith

get_agent-found :
    (owner id : Text) (m : Memory) (a : Agent)
    → get_agent owner id m ≡ ok a
    → (find agent_key id m.agents ≡ some a) × (a.owner_user_id ≡ owner)
unfolding get_agent
get_agent-found owner id m a got = elim (Option-cases (find agent_key id m.agents)) [
  | inl missing ↦ ground arith
  | inr (b, found) ↦ ground (arith, ==_iff b.owner_user_id owner)
]

-- What Update writes: the row as the request changes it, its version raised where something is taken.
abbrev pub Updated : Text → Memory → Memory → Agent → Agent → Type 0
Updated id m m1 old new =
    (d : Agent) × SameAgent old d
    × (new ≡ bumped old d)
    × (find agent_key id m.agents ≡ some old)
    × (find agent_key id m1.agents ≡ some new)

requested-SameAgent :
    (quote : Text → Text) (owner : Text) (input : UpdateInput) (old d : Agent) (m : Memory)
    → requested quote owner input old m ≡ ok d
    → SameAgent old d
unfolding requested
requested-SameAgent quote owner input old d m asked =
    elim (Result-cases (set_name input.name old)) [
      | inr (e, bad) ↦ ground arith
      | inl (a, named) ↦
          let a' = record a { description = description_or a.description input.description } in
          elim (Result-cases (set_status input.status a')) [
            | inr (e, bad) ↦ ground arith
            | inl (b, stated) ↦ elim (Result-cases (set_scopes quote input.default_scopes b)) [
              | inr (e, bad) ↦ ground arith
              | inl (c, scoped) ↦ elim (Result-cases (set_drive_ids owner input c m)) [
                | inr (e, bad) ↦ ground arith
                | inl (d', placed) ↦ ground (
                  arith,
                  set_name-SameAgent input.name old a,
                  set_status-SameAgent input.status a' b,
                  set_scopes-SameAgent quote input.default_scopes b c,
                  set_drive_ids-SameAgent owner input c d' m,
                )
              ]
            ]
          ]
    ]

bumped-SameRow :
    (old d : Agent) → ((bumped old d).id ≡ d.id) × ((bumped old d).owner_user_id ≡ d.owner_user_id)
unfolding bumped
bumped-SameRow old d = ground arith

update_agent-writes :
    (id : Text) (old d : Agent) (m : Memory)
    → find agent_key id m.agents ≡ some old
    → SameAgent old d
    → update_agent (bumped old d) m
      ≡ (ok tt, record m { agents = put agent_key (bumped old d) m.agents })
unfolding update_agent
update_agent-writes id old d m found (same_id, same_owner, same_version) =
    let (id', owner') = bumped-SameRow old d in
    let here : find agent_key (bumped old d).id m.agents ≡ some old =
      subst (λ k. find agent_key k m.agents ≡ some old)
        (sym (id' ∙ same_id ∙ find-key agent_key id m.agents {r = old} found)) found in
    rw (update_agent, here, owner', same_owner, ==_refl old.owner_user_id) refl

pub update-Updated :
    (sv : Service) (owner id : Text) (input : UpdateInput) (m : Memory) (old new : Agent)
    → get_agent owner id m ≡ ok old
    → (update sv owner id input m).0 ≡ ok new
    → Updated id m (update sv owner id input m).1 old new
unfolding update ◌>>=◌ or_fail reads return
update-Updated sv owner id input m old new got done =
    let (found, owned) = get_agent-found owner id m old got in
    elim (Result-cases (requested sv.quote owner input old m)) [
      | inr (e, bad) ↦ ground arith
      | inl (d, asked) ↦
          let same = requested-SameAgent sv.quote owner input old d m asked in
          let here = find-key agent_key id m.agents {r = old} found in
          let row = bumped old d in
          let m1 : Memory = record m { agents = put agent_key row m.agents } in
          let wrote : update_agent row m ≡ (ok tt, m1) =
            update_agent-writes id old d m found same in
          let all : update sv owner id input m ≡ (ok row, m1) =
            rw (update, got, asked, wrote) refl in
          let answered : ok row ≡ ok new = sym (ap (λ r. r.0) all) ∙ done in
          let newest : row ≡ new = ground arith in
          let own_id : row.id ≡ id = (bumped-SameRow old d).0 ∙ same.0 ∙ here in
          let own : (row.id == id) ≡ true = (==_iff row.id id).1 own_id in
          let stands : find agent_key id m1.agents ≡ some row =
            find-put agent_key id row m.agents ∙ ground arith in
          (
            d,
            same,
            sym newest,
            found,
            ap (λ r. find agent_key id r.1.agents) all ∙ stands ∙ ap some newest,
          )
    ]
