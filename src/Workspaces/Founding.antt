-- ===== src/Workspaces/Founding.antt =====
-- A new workspace (workspaces.service.ts).
use ai_content_operating_sys.Base.{
  ℕ, ◌≤◌, ◌≡◌, refl, sym, ap, ◌∙◌, subst, true, false, ◌&&◌, ◌∷◌, any, count, ◌==◌, ==_refl, arith,
  Memᴰ,
}
use ai_content_operating_sys.Errors.{ok, steps, and_then-Steps, commit-eq-ok, ok_injective}
use ai_content_operating_sys.Errors.Atomic.{read_only, throw_if-Reads}
use ai_content_operating_sys.Audit.{record_audit-Quiet, finished}
use ai_content_operating_sys.Auth.Permissions.{owner}
use ai_content_operating_sys.Auth.Types.{AuthContext}
use ai_content_operating_sys.Database.Client.{Client}
use ai_content_operating_sys.Database.Counting.{there-any}
use ai_content_operating_sys.Database.IdentityRows.{User, Workspace, is_active}
use ai_content_operating_sys.Database.Store.{Store, workspace, workspace_member}
use ai_content_operating_sys.Database.Laws.{create_done}
use ai_content_operating_sys.Database.Reads.{find_first-Reads}
use ai_content_operating_sys.Workspaces.Members.{active_owner}
use ai_content_operating_sys.Workspaces.Managing.{
  CreateWorkspace, WorkspaceSummary, present_workspace, workspace_clash, new_workspace, founder,
  write_workspace, create_workspace,
}
use ai_content_operating_sys.Workspaces.Owners.{HasOwner}

-- The store after a workspace was made: one row and one owner more, the id and the slug new.
pub record Founded (id member_id user_id : ℕ) (input : CreateWorkspace) (s t : Store) : Type 0 where
  pub row : t.workspaces ≡ new_workspace id input ∷ s.workspaces
  pub first : t.members ≡ founder member_id user_id id ∷ s.members
  pub fresh : any (workspace_clash (new_workspace id input)) s.workspaces ≡ false
  pub accounts : t.users ≡ s.users

module _ (db : Client) where
  written :
      (id member_id user_id : ℕ) (input : CreateWorkspace) (s t : Store) {r : Workspace}
      → write_workspace db member_id user_id (new_workspace id input) s ≡ (ok r, t)
      → Founded id member_id user_id input s t × (r ≡ new_workspace id input)
  unfolding write_workspace
  written id member_id user_id input s t h = elim (and_then-Steps _ _ (commit-eq-ok _ _ h)) [
    | steps made s₁ e₁ h₁ ↦ elim (and_then-Steps _ _ h₁) [
      | steps _ s₂ e₂ k ↦
          let (is_row, grown, fresh) = create_done db workspace _ (new_workspace id input) e₁ in
          let (_, joined, _) = create_done db workspace_member _ _ e₂ in
          let is_id : made.id ≡ id = ap (λ (z : Workspace). z.id) is_row in
          let q : t ≡ s₂ = sym (ap (λ z. z.1) k) in
          (
            record {
              row =
                  ap (λ (z : Store). z.workspaces) q
                  ∙ ap (λ (z : Store). z.workspaces) joined
                  ∙ ap (λ (z : Store). z.workspaces) grown;
              first =
                  ap (λ (z : Store). z.members) q
                  ∙ ap (λ (z : Store). z.members) joined
                  ∙ ap (λ z. founder member_id user_id z ∷ s₁.members) is_id
                  ∙ ap (λ (z : Store). founder member_id user_id id ∷ z.members) grown;
              fresh = fresh;
              accounts =
                  ap (λ (z : Store). z.users) q
                  ∙ ap (λ (z : Store). z.users) joined
                  ∙ ap (λ (z : Store). z.users) grown;
            },
            sym (ok_injective _ _ (ap (λ z. z.0) k)) ∙ is_row,
          )
    ]
  ]

  -- The creation of a workspace that returns adds one row, with an id and a slug that no other has,
  -- and makes the caller its owner: an active caller leaves the new workspace an active owner.
  pub create_workspace_lem :
      (id member_id : ℕ) (actor : AuthContext) (input : CreateWorkspace) (s t : Store)
      {answer : WorkspaceSummary}
      → create_workspace db id member_id actor input s ≡ (ok answer, t)
      → Founded id member_id actor.user_id input s t
        × (answer ≡ present_workspace (new_workspace id input) owner)
        × ((u : User)
            → Memᴰ u s.users
            → u.id ≡ actor.user_id
            → is_active u.status ≡ true
            → HasOwner id t)
  unfolding create_workspace
  create_workspace_lem id member_id actor input s t h = elim (and_then-Steps _ _ h) [
    | steps duplicate s₁ e₁ h₁ ↦ elim (and_then-Steps _ _ h₁) [
      | steps _ s₂ e₂ h₂ ↦ elim (and_then-Steps _ _ h₂) [
        | steps row s₃ e₃ h₃ ↦
            let q₁ = read_only _ (find_first-Reads db workspace _) e₁ in
            let q₂ = read_only _ (throw_if-Reads _ _) e₂ in
            let (founded, is_row) = written id member_id actor.user_id input s₂ s₃ e₃ in
            let (is_answer, audited) = finished _ _ (record_audit-Quiet db _) h₃ in
            let founded' : Founded id member_id actor.user_id input s s₃ =
              subst (λ z. Founded id member_id actor.user_id input z s₃) (q₂ ∙ q₁) founded in
            let after : Founded id member_id actor.user_id input s t =
              subst (λ z. Founded id member_id actor.user_id input s z) (sym audited.others)
                (same_tables founded') in
            (
              after,
              sym is_answer ∙ ap (λ z. present_workspace z owner) is_row,
              λ u there is_caller active. owned after u there is_caller active,
            )
      ]
    ]
  ]
    where
      same_tables :
          {u : Store} {logs : _}
          → Founded id member_id actor.user_id input s u
          → Founded id member_id actor.user_id input s (record u { audit_logs = logs })
      same_tables f = record {
        row = f.row;
        first = f.first;
        fresh = f.fresh;
        accounts = f.accounts;
      }

      owned :
          Founded id member_id actor.user_id input s t
          → (u : User) → Memᴰ u s.users
          → u.id ≡ actor.user_id
          → is_active u.status ≡ true
          → HasOwner id t
      owned f u there is_caller active =
          let one : any (λ v. v.id == actor.user_id && is_active v.status) s.users ≡ true =
            there-any (λ v. v.id == actor.user_id && is_active v.status) s.users there
              (rw (is_caller, active, ==_refl actor.user_id) refl) in
          let new : active_owner id s.users (founder member_id actor.user_id id) ≡ true =
            rw (==_refl id, one) refl in
          subst (λ z. 1 ≤ count (active_owner id z) t.members) (sym f.accounts)
            (subst (λ z. 1 ≤ count (active_owner id s.users) z) (sym f.first) (ground arith))
