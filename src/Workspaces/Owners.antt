-- ===== src/Workspaces/Owners.antt =====
-- The active owners of a workspace (workspaces.service.ts).
use ai_content_operating_sys.Base.{
  ℕ, ◌≤◌, ◌≡◌, sym, ap, ◌∙◌, subst, Bool, true, false, not, ◌&&◌, List, count, filter, map, some,
  ◌==◌, ==_refl, arith, Memᴰ, inl, inr, Bool-cases, if◌then◌else◌,
}
use ai_content_operating_sys.Errors.{
  ok, pure, steps, and_then-Steps, passed, commit-eq-ok, or_throw_found,
}
use ai_content_operating_sys.Audit.{record_audit_done}
use ai_content_operating_sys.Auth.Permissions.{WorkspaceRole}
use ai_content_operating_sys.Auth.Types.{AuthContext, WorkspaceContext}
use ai_content_operating_sys.Database.Client.{Client, update_row}
use ai_content_operating_sys.Database.IdentityRows.{WorkspaceMember}
use ai_content_operating_sys.Database.Store.{Store, workspace_member, find_first}
use ai_content_operating_sys.Database.Counting.{
  at_most_one, count-filter, count-filter_kept, count-map, count-map_kept,
}
use ai_content_operating_sys.Database.Laws.{
  find_first_found, find_first_or_throw_found, update_many_done, delete_done,
}
use ai_content_operating_sys.Workspaces.Members.{
  is_owner, active_owner, find_member, assert_more_than_one_active_owner, write_role, change_role,
  delete_member, remove_member,
}

-- The primary key of the members.
abbrev pub UniqueMembers : List WorkspaceMember → Type 0
UniqueMembers members = (id : ℕ) → count (λ m. m.id == id) members ≤ 1

-- The workspace has an active owner.
abbrev pub HasOwner : ℕ → Store → Type 0
HasOwner workspace_id s = 1 ≤ count (active_owner workspace_id s.users) s.members

module _ (db : Client) where
  find_member_found :
      (workspace_id member_id : ℕ) {s u : Store} {m : WorkspaceMember}
      → find_member db workspace_id member_id s ≡ (ok m, u)
      → Memᴰ m s.members × (u ≡ s)
  unfolding find_member
  find_member_found workspace_id member_id {s} {u} {m} h = elim (and_then-Steps _ _ h) [
    | steps found s₁ e k ↦
        let (there, q₂) = or_throw_found found _ k in
        let e' : find_first db workspace_member
              (λ x. x.id == member_id && x.workspace_id == workspace_id) s
            ≡ (ok (some m), s₁) =
          rw (← there) e in
        let (mem, _, q₁) = find_first_found db workspace_member _ e' in (mem, q₂ ∙ q₁)
  ]

  pub another_owner :
      (workspace_id : ℕ) {s u : Store} {x : Unit {0}}
      → assert_more_than_one_active_owner db workspace_id s ≡ (ok x, u)
      → (2 ≤ count (active_owner workspace_id s.users) s.members) × (u ≡ s)
  unfolding assert_more_than_one_active_owner
  another_owner workspace_id {s} h =
      let (more, q) = passed _ _ h in
      let counted = db.count_rows-eq (active_owner workspace_id s.users) s.members in
      (ground arith, q)

  -- A guard that is asked only in one case.
  asked :
      (c : Bool) (workspace_id : ℕ) {s u : Store} {x : Unit {0}}
      → (if c then assert_more_than_one_active_owner db workspace_id else pure tt) s ≡ (ok x, u)
      → ((c ≡ true → 2 ≤ count (active_owner workspace_id s.users) s.members)) × (u ≡ s)
  asked true workspace_id h = let (more, q) = another_owner workspace_id h in (λ _. more, q)
  asked false workspace_id {s} h = (λ e. absurd (ground arith), sym (ap (λ z. z.1) h))

  delete_member_owner :
      (workspace_id : ℕ) (member : WorkspaceMember) (s t : Store) {x : Unit {0}}
      → UniqueMembers s.members
      → Memᴰ member s.members
      → HasOwner workspace_id s
      → delete_member db workspace_id member s ≡ (ok x, t)
      → HasOwner workspace_id t
  unfolding delete_member
  delete_member_owner workspace_id member s t unique there has h =
      elim (and_then-Steps _ _ (commit-eq-ok _ _ h)) [
        | steps _ u e k ↦
            let (more, q) = asked (is_owner member.role) workspace_id e in
            let gone = delete_done db workspace_member (λ m. m.id == member.id) k in
            let p = active_owner workspace_id s.users in
            let is_member : WorkspaceMember → Bool = λ m. m.id == member.id in
            let left = filter (λ m. not (is_member m)) s.members in
            let few : count is_member s.members ≤ 1 = unique member.id in
            let kept : 1 ≤ count p left = elim (Bool-cases (is_owner member.role)) [
              | inl owned ↦
                  let more' = more owned in
                  let some_left = count-filter p is_member s.members in omega arith
              | inr other ↦
                  let not_owner : p member ≡ false = ground arith in
                  let all_left = count-filter_kept p is_member s.members (λ m mem e'.
                    let same : member ≡ m =
                      at_most_one is_member s.members few there mem (==_refl member.id) e' in
                    subst (λ z. p z ≡ false) same not_owner) in
                  omega arith
            ] in
            let remove : Store → Store =
              λ z. record z { members = filter (λ m. not (is_member m)) z.members } in
            let t_is : t ≡ remove s = gone ∙ ap remove q in
            subst (HasOwner workspace_id) (sym t_is) kept
      ]

  -- Removing a member that returns leaves the workspace an active owner, when it had one.
  pub remove_member-HasOwner :
      (actor : AuthContext) (workspace : WorkspaceContext) (member_id : ℕ) (s t : Store)
      {x : Unit {0}}
      → UniqueMembers s.members
      → HasOwner workspace.id s
      → remove_member db actor workspace member_id s ≡ (ok x, t)
      → HasOwner workspace.id t
  unfolding remove_member
  remove_member-HasOwner actor workspace member_id s t unique has h = elim (and_then-Steps _ _ h) [
    | steps member s₁ e₁ h₁ ↦ elim (and_then-Steps _ _ h₁) [
      | steps _ s₂ e₂ h₂ ↦ elim (and_then-Steps _ _ h₂) [
        | steps _ s₃ e₃ h₃ ↦
            let (there, q₁) = find_member_found workspace.id member_id e₁ in
            let (_, q₂) = passed _ _ e₂ in
            let audited = record_audit_done db _ h₃ in
            let kept : HasOwner workspace.id s₃ =
              delete_member_owner workspace.id member s s₃ unique there has (rw (q₂ ∙ q₁) at e₃) in
            subst (HasOwner workspace.id) (sym audited.others) kept
      ]
    ]
  ]

  write_role_owner :
      (workspace_id : ℕ) (member : WorkspaceMember) (role : WorkspaceRole) (s t : Store)
      {m : WorkspaceMember}
      → UniqueMembers s.members
      → Memᴰ member s.members
      → HasOwner workspace_id s
      → write_role db workspace_id member role s ≡ (ok m, t)
      → HasOwner workspace_id t
  unfolding write_role
  write_role_owner workspace_id member role s t unique there has h =
      elim (and_then-Steps _ _ (commit-eq-ok _ _ h)) [
        | steps _ u e k ↦ elim (and_then-Steps _ _ k) [
          | steps _ v e' k' ↦
              let (more, q) = asked (is_owner member.role && not (is_owner role)) workspace_id e in
              let (_, q') =
                update_many_done db workspace_member (λ x. x.id == member.id)
                  (λ x. record x { role = role }) e' in
              let (_, _, q'') = find_first_or_throw_found db workspace_member _ k' in
              let p = active_owner workspace_id s.users in
              let is_member : WorkspaceMember → Bool = λ x. x.id == member.id in
              let change : WorkspaceMember → WorkspaceMember = λ x. record x { role = role } in
              let after = map (update_row is_member change) s.members in
              let few : count is_member s.members ≤ 1 = unique member.id in
              let kept : 1 ≤ count p after =
                elim (Bool-cases (is_owner member.role && not (is_owner role))) [
                  | inl demoted ↦
                      let more' = more demoted in
                      let left = count-map p is_member change s.members in omega arith
                  | inr other ↦
                      let left = count-map_kept p is_member change s.members (λ x mem e₀ owned.
                        let same : member ≡ x =
                          at_most_one is_member s.members few there mem (==_refl member.id) e₀ in
                        let owned' : p member ≡ true = subst (λ z. p z ≡ true) (sym same) owned in
                        let still : p (change member) ≡ true = ground arith in
                        subst (λ z. p (change z) ≡ true) same still) in
                      omega arith
                ] in
              let set : Store → Store =
                λ z. record z { members = map (update_row is_member change) z.members } in
              let t_is : t ≡ set s = q'' ∙ q' ∙ ap set q in
              subst (HasOwner workspace_id) (sym t_is) kept
        ]
      ]

  -- Changing a role that returns leaves the workspace an active owner, when it had one.
  pub change_role-HasOwner :
      (actor : AuthContext) (workspace : WorkspaceContext) (member_id : ℕ) (role : WorkspaceRole)
      (s t : Store) {m : WorkspaceMember}
      → UniqueMembers s.members
      → HasOwner workspace.id s
      → change_role db actor workspace member_id role s ≡ (ok m, t)
      → HasOwner workspace.id t
  unfolding change_role
  change_role-HasOwner actor workspace member_id role s t unique has h =
      elim (and_then-Steps _ _ h) [
        | steps member s₁ e₁ h₁ ↦ elim (and_then-Steps _ _ h₁) [
          | steps _ s₂ e₂ h₂ ↦ elim (and_then-Steps _ _ h₂) [
            | steps updated s₃ e₃ h₃ ↦ elim (and_then-Steps _ _ h₃) [
              | steps _ s₄ e₄ h₄ ↦
                  let (there, q₁) = find_member_found workspace.id member_id e₁ in
                  let (_, q₂) = passed _ _ e₂ in
                  let audited = record_audit_done db _ e₄ in
                  let final : s₄ ≡ t = ap (λ z. z.1) h₄ in
                  let kept : HasOwner workspace.id s₃ =
                    write_role_owner workspace.id member role s s₃ unique there has
                      (rw (q₂ ∙ q₁) at e₃) in
                  let kept₄ : HasOwner workspace.id s₄ =
                    subst (HasOwner workspace.id) (sym audited.others) kept in
                  subst (HasOwner workspace.id) final kept₄
            ]
          ]
        ]
      ]
