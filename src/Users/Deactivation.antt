-- ===== src/Users/Deactivation.antt =====
-- users.service.ts: what a deactivation and a reset leave.
use ai_content_operating_sys.Database.Counting.{there-any}
use ai_content_operating_sys.Base.{
  ℕ, ◌+◌, ◌≤◌, ◌≡◌, ◌≢◌, refl, sym, ap, ◌∙◌, subst, Bool, true, false, ◌&&◌, List, [], ◌∷◌, any,
  map, count, ◌==◌, arith, Memᴰ, Bool-cases, inl, inr,
}
use ai_content_operating_sys.Errors.{ok, steps, and_then-Steps, passed, commit-eq-ok, ok_injective}
use ai_content_operating_sys.Audit.{record_audit_done}
use ai_content_operating_sys.Auth.Types.{AuthContext}
use ai_content_operating_sys.Auth.Sessions.{revoke_user_sessions}
use ai_content_operating_sys.Auth.Revocation.{AllRevoked, of_user, revoke_call}
use ai_content_operating_sys.Database.Client.{Client, update_row}
use ai_content_operating_sys.Database.IdentityRows.{
  User, UserStatus, Workspace, WorkspaceMember, is_active,
}
use ai_content_operating_sys.Database.Store.{Store, session, user}
use ai_content_operating_sys.Database.Laws.{update_many_done, update_one_done}
use ai_content_operating_sys.Workspaces.Members.{is_owner, active_owner}
use ai_content_operating_sys.Workspaces.Owners.{HasOwner, another_owner}
use ai_content_operating_sys.Users.Managing.{owns, check_owned, write_deactivation, deactivate}
use ai_content_operating_sys.Users.Managers.{Manager, assert_can_manage_lem, any-Memᴰ}

-- The deactivated row.
abbrev pub deactivated : User → User
deactivated u = record u { status = UserStatus.inactive; security_version = u.security_version + 1 }

abbrev pub without : ℕ → List User → List User
without user_id = map (update_row (λ u. u.id == user_id) deactivated)

-- A user has one membership of a workspace.
abbrev pub UniqueMemberships : List WorkspaceMember → Type 0
UniqueMemberships members =
    (user_id workspace_id : ℕ)
    → count (λ m. m.user_id == user_id && m.workspace_id == workspace_id) members ≤ 1

-- The other accounts are as active as before.
active_after :
    (target user_id : ℕ) (users : List User)
    → (user_id == target) ≡ false
    → any (λ u. u.id == user_id && is_active u.status) (without target users)
      ≡ any (λ u. u.id == user_id && is_active u.status) users
active_after target user_id [] h = refl
active_after target user_id (u ∷ users) h =
    let rest = active_after target user_id users h in
    elim (Bool-cases (u.id == target)) [
      | inl gone ↦
          let other : (u.id == user_id) ≡ false = ground arith in
          let e : update_row (λ x. x.id == target) deactivated u ≡ deactivated u = rw gone refl in
          let e' : update_row (λ x. x.id == target) deactivated u ≡ deactivated u = e in
          rw e' (rw other rest)
      | inr kept ↦
          let e : update_row (λ x. x.id == target) deactivated u ≡ u = rw kept refl in
          rw (e, rest) refl
    ]

-- The active owners lost are memberships of the target.
abbrev owner_target : ℕ → ℕ → WorkspaceMember → Bool
owner_target target workspace_id m =
    m.user_id == target && m.workspace_id == workspace_id && is_owner m.role

count_zero : {A : Type 0} (p : A → Bool) (xs : List A) → any p xs ≡ false → count p xs ≡ 0
count_zero p [] h = refl
count_zero p (x ∷ xs) h = ground (arith, count_zero p xs)

module _ (target workspace_id : ℕ) (users : List User) where
  abbrev of_target : WorkspaceMember → Bool
  of_target = owner_target target workspace_id

  owner_after :
      (m : WorkspaceMember)
      → active_owner workspace_id users m ≡ true
      → of_target m ≡ false
      → active_owner workspace_id (without target users) m ≡ true
  owner_after m h k =
      let other : (m.user_id == target) ≡ false = ground arith in
      let same = active_after target m.user_id users other in ground (arith, same)

  count_after :
      (members : List WorkspaceMember)
      → count (active_owner workspace_id users) members
        ≤ count (active_owner workspace_id (without target users)) members + count of_target members
  count_after [] = omega arith
  count_after (m ∷ members) = ground (arith, owner_after m, count_after members)

  of_target_few :
      (members : List WorkspaceMember)
      → count of_target members
        ≤ count (λ m. m.user_id == target && m.workspace_id == workspace_id) members
  of_target_few [] = omega arith
  of_target_few (m ∷ members) = ground (arith, of_target_few members)

owned_cons :
    (s : Store) (y : WorkspaceMember) (ms : List WorkspaceMember)
    → 2 ≤ count (active_owner y.workspace_id s.users) s.members
    → ((m : WorkspaceMember)
        → Memᴰ m ms
        → 2 ≤ count (active_owner m.workspace_id s.users) s.members)
    → (m : WorkspaceMember) → Memᴰ m (y ∷ ms)
    → 2 ≤ count (active_owner m.workspace_id s.users) s.members
owned_cons s y ms here others m (Memᴰ.head e) =
    subst (λ z. 2 ≤ count (active_owner z.workspace_id s.users) s.members) (sym e) here
owned_cons s y ms here others m (Memᴰ.tail i) = others m i

owned_there :
    (places : List Workspace) (place : Workspace) (target : ℕ) (m : WorkspaceMember)
    → Memᴰ place places
    → place.is_active ≡ true
    → owner_target target place.id m ≡ true
    → (owns places target m ≡ true) × (m.workspace_id ≡ place.id)
owned_there places place target m there open_ h =
    let same : m.workspace_id ≡ place.id = ground arith in
    let found =
      there-any (λ w. w.id == m.workspace_id && w.is_active) places there (ground arith) in
    (ground arith, same)

module _ (db : Client) where
  check_owned_done :
      (ms : List WorkspaceMember) (s t : Store) {x : Unit {0}}
      → check_owned db ms s ≡ (ok x, t)
      → ((m : WorkspaceMember)
          → Memᴰ m ms
          → 2 ≤ count (active_owner m.workspace_id s.users) s.members)
        × (t ≡ s)
  unfolding check_owned
  check_owned_done [] s t h = (λ m i. elim i [ ], sym (ap (λ z. z.1) h))
  check_owned_done (y ∷ ms) s t h = elim (and_then-Steps _ _ h) [
    | steps _ u e k ↦
        let (more, q) = another_owner db y.workspace_id e in
        let (others, q') = check_owned_done ms s t (rw q at k) in
        (owned_cons s y ms more others, q')
  ]

  -- An active workspace keeps an active owner.
  keeps_owner :
      (target : ℕ) (place : Workspace) (s : Store)
      → UniqueMemberships s.members
      → Memᴰ place s.workspaces
      → place.is_active ≡ true
      → HasOwner place.id s
      → ((m : WorkspaceMember)
          → Memᴰ m (db.find_many (owns s.workspaces target) s.members)
          → 2 ≤ count (active_owner m.workspace_id s.users) s.members)
      → 1 ≤ count (active_owner place.id (without target s.users)) s.members
  keeps_owner target place s unique there open_ has more =
      let p = owner_target target place.id in
      let left = count_after target place.id s.users s.members in
      let few = of_target_few target place.id s.users s.members in
      let one = unique target place.id in
      elim (Bool-cases (any p s.members)) [
        | inl owner ↦
            let (m, member, q) = any-Memᴰ p s.members owner in
            let (owned, same) = owned_there s.workspaces place target m there open_ q in
            let two =
              more m (db.Memᴰ-find_many (owns s.workspaces target) s.members member owned) in
            let two' : 2 ≤ count (active_owner place.id s.users) s.members =
              subst (λ z. 2 ≤ count (active_owner z s.users) s.members) same two in
            omega arith
        | inr not_owner ↦ let zero_owned = count_zero p s.members not_owner in omega arith
      ]

-- What a deactivation did to the account, its sessions and its workspaces.
pub record Deactivated (actor target : ℕ) (s t : Store) : Type 0 where
  pub other : actor ≢ target
  pub manager : Manager s actor target
  pub users_after : t.users ≡ without target s.users
  pub members_after : t.members ≡ s.members
  pub signed_out : AllRevoked (of_user target) t.sessions
  pub owned :
      (place : Workspace)
      → Memᴰ place s.workspaces
      → place.is_active ≡ true
      → HasOwner place.id s
      → HasOwner place.id t

different : (a b : ℕ) → (a == b) ≡ false → a ≢ b
different a b h e = ground arith

module _ (db : Client) where
  -- A deactivation that returns was asked by a manager for another account, which is inactive with a
  -- new version and no live session; every active workspace that had an active owner still has one,
  -- where each user has one membership of a workspace.
  pub deactivate_lem :
      (actor : AuthContext) (target now : ℕ) (s t : Store) {x : Unit {0}}
      → UniqueMemberships s.members
      → deactivate db actor target now s ≡ (ok x, t)
      → Deactivated actor.user_id target s t
  unfolding deactivate write_deactivation revoke_user_sessions
  deactivate_lem actor target now s t unique h = elim (and_then-Steps _ _ h) [
    | steps _ s₁ e₁ h₁ ↦ elim (and_then-Steps _ _ h₁) [
      | steps _ s₂ e₂ h₂ ↦ elim (and_then-Steps _ _ h₂) [
        | steps _ s₃ e₃ h₃ ↦ elim (and_then-Steps _ _ (commit-eq-ok _ _ e₃)) [
          | steps owned s₄ e₄ h₄ ↦ elim (and_then-Steps _ _ h₄) [
            | steps _ s₅ e₅ h₅ ↦ elim (and_then-Steps _ _ h₅) [
              | steps _ s₆ e₆ h₆ ↦
                  let (other, q₁) = passed (actor.user_id == target) _ e₁ in
                  let (manager, q₂) = assert_can_manage_lem db actor.user_id target s₁ s₂ e₂ in
                  let q₄ : s₂ ≡ s₄ = ap (λ z. z.1) e₄ in
                  let owned_is : db.find_many (owns s₂.workspaces target) s₂.members ≡ owned =
                    ok_injective _ _ (ap (λ z. z.0) e₄) in
                  let (more, q₅) = check_owned_done db owned s₄ s₅ e₅ in
                  let (q₆, _, _) = update_one_done db user _ _ e₆ in
                  let gone =
                    revoke_call now "USER_DEACTIVATED" (of_user target) _ (λ r. refl) (λ r. refl) db
                      s₆ s₃ h₆ in
                  let (_, q₃) = update_many_done db session _ _ h₆ in
                  let audited = record_audit_done db _ h₃ in
                  let same₂ : s₂ ≡ s = q₂ ∙ q₁ in
                  let same₄ : s₄ ≡ s = sym q₄ ∙ same₂ in
                  let same₅ : s₅ ≡ s = q₅ ∙ same₄ in
                  let people : t.users ≡ without target s.users =
                    ap (λ z. z.users) audited.others
                    ∙ ap (λ z. z.users) q₃
                    ∙ ap (λ z. z.users) q₆
                    ∙ ap (λ z. without target z.users) same₅ in
                  let team : t.members ≡ s.members =
                    ap (λ z. z.members) audited.others
                    ∙ ap (λ z. z.members) q₃
                    ∙ ap (λ z. z.members) q₆
                    ∙ ap (λ z. z.members) same₅ in
                  let rows : t.sessions ≡ s₃.sessions = ap (λ z. z.sessions) audited.others in
                  let asked : (m : WorkspaceMember)
                      → Memᴰ m (db.find_many (owns s.workspaces target) s.members)
                      → 2 ≤ count (active_owner m.workspace_id s.users) s.members =
                    λ m i.
                      let i' =
                        subst (λ z. Memᴰ m (db.find_many (owns z.workspaces target) z.members))
                          (sym same₂) i in
                      let two = more m (subst (Memᴰ m) owned_is i') in
                      subst (λ z. 2 ≤ count (active_owner m.workspace_id z.users) z.members) same₄
                        two in
                  record {
                    other = different _ _ other;
                    manager = subst (λ z. Manager z actor.user_id target) q₁ manager;
                    users_after = people;
                    members_after = team;
                    signed_out = subst (AllRevoked (of_user target)) (sym rows) gone;
                    owned = λ place there open_ has.
                        let kept = keeps_owner db target place s unique there open_ has asked in
                        rw (people, team) kept;
                  }
            ]
          ]
        ]
      ]
    ]
  ]
