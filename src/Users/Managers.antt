-- ===== src/Users/Managers.antt =====
-- users.service.ts: who manages whom.
use ai_content_operating_sys.Base.{
  ℕ, ◌≡◌, refl, sym, ap, ◌∙◌, subst, Bool, true, false, not, ◌&&◌, ◌||◌, List, [], ◌∷◌, any, map,
  count, ==_iff, arith, Memᴰ, Bool-cases, inl, inr, if◌then◌else◌,
}
use ai_content_operating_sys.Errors.{ok, pure, steps, and_then-Steps, passed, ok_injective}
use ai_content_operating_sys.Auth.Permissions.{WorkspaceRole}
use ai_content_operating_sys.Auth.Admission.{found_row}
use ai_content_operating_sys.Database.Client.{Client}
use ai_content_operating_sys.Database.IdentityRows.{User, Workspace, WorkspaceMember}
use ai_content_operating_sys.Database.Store.{Store, user}
use ai_content_operating_sys.Workspaces.Members.{is_owner, is_admin}
use ai_content_operating_sys.Users.Managing.{
  in_active_workspace, manages, owns, present_empty, user_not_found, assert_manager, find_user,
  assert_not_owner, assert_can_manage,
}

-- A membership that lets its user manage a target: of an owner, or of an administrator when the
-- target owns no active workspace.
pub record Manager (s : Store) (actor target : ℕ) : Type 0 where
  pub membership : WorkspaceMember
  pub there : Memᴰ membership s.members
  pub is_actor : membership.user_id ≡ actor
  pub in_active : in_active_workspace s.workspaces membership ≡ true
  pub may :
      (is_owner membership.role
        || is_admin membership.role && not (any (owns s.workspaces target) s.members))
      ≡ true
  pub person : User
  pub person_there : Memᴰ person s.users
  pub is_target : person.id ≡ target

-- What a test finds.
pub any-Memᴰ {ℓ} :
    {A : Type ℓ} (p : A → Bool) (xs : List A) → any p xs ≡ true → (x : A) × Memᴰ x xs × (p x ≡ true)
any-Memᴰ p [] h = absurd (ground arith)
any-Memᴰ p (x ∷ xs) h = elim (Bool-cases (p x)) [
  | inl here ↦ (x, Memᴰ.head refl, here)
  | inr later ↦ let (y, m, q) = any-Memᴰ p xs (ground arith) in (y, Memᴰ.tail m, q)
]

count_none {ℓ} : {A : Type ℓ} (p : A → Bool) (xs : List A) → count p xs ≡ 0 → any p xs ≡ false
count_none p [] h = refl
count_none p (x ∷ xs) h = ground (arith, count_none p xs)

any-map :
    {A B : Type 0} (p : B → Bool) (f : A → B) (xs : List A)
    → any p (map f xs) ≡ any (λ x. p (f x)) xs
any-map p f [] = refl
any-map p f (x ∷ xs) = ap (λ z. p (f x) || z) (any-map p f xs)

first_of :
    (xs : List WorkspaceMember) → present_empty xs ≡ false → (x : WorkspaceMember) × Memᴰ x xs
first_of [] h = absurd (ground arith)
first_of (x ∷ xs) h = (x, Memᴰ.head refl)

manages_done :
    (places : List Workspace) (actor : ℕ) (m : WorkspaceMember)
    → manages places actor m ≡ true
    → (m.user_id ≡ actor) × (in_active_workspace places m ≡ true)
manages_done places actor m h = ground arith

module _ (db : Client) where
  assert_manager_done :
      (user_id : ℕ) (s t : Store) {roles : List WorkspaceRole}
      → assert_manager db user_id s ≡ (ok roles, t)
      → (present_empty (db.find_many (manages s.workspaces user_id) s.members) ≡ false)
        × (roles ≡ map (λ m. m.role) (db.find_many (manages s.workspaces user_id) s.members))
        × (t ≡ s)
  unfolding assert_manager
  assert_manager_done user_id s t {roles} h = elim (and_then-Steps _ _ h) [
    | steps _ u e k ↦
        let (some_found, q) = passed _ _ e in
        (some_found, sym (ok_injective _ _ (ap (λ z. z.0) k)), sym (ap (λ z. z.1) k) ∙ q)
  ]

  find_user_done :
      (user_id : ℕ) {s t : Store} {u : User}
      → find_user db user_id s ≡ (ok u, t)
      → Memᴰ u s.users × (u.id ≡ user_id) × (t ≡ s)
  unfolding find_user
  find_user_done user_id h = elim (and_then-Steps _ _ h) [
    | steps o v e k ↦
        let (there, mine, q) = found_row db user _ user_not_found e k in
        (there, (==_iff _ _).0 mine, q)
  ]

  -- The manager by whom the last test of `assert_can_manage` passes.
  manager_by :
      (actor target : ℕ) (s t : Store) {x : Unit {0}}
      → present_empty (db.find_many (manages s.workspaces actor) s.members) ≡ false
      → (if any is_owner (map (λ m. m.role) (db.find_many (manages s.workspaces actor) s.members))
            then pure tt
            else assert_not_owner db target)
          s
        ≡ (ok x, t)
      → (m : WorkspaceMember) × Memᴰ m s.members
        × (manages s.workspaces actor m ≡ true)
        × ((is_owner m.role || is_admin m.role && not (any (owns s.workspaces target) s.members))
            ≡ true)
        × (t ≡ s)
  unfolding assert_not_owner
  manager_by actor target s t found h =
      let p = manages s.workspaces actor in
      let rows = db.find_many p s.members in
      let mapped = any-map is_owner (λ (m : WorkspaceMember). m.role) rows in
      elim (Bool-cases (any is_owner (map (λ m. m.role) rows))) [
        | inl owned ↦
            let (m, there, own) = any-Memᴰ (λ m. is_owner m.role) rows (sym mapped ∙ owned) in
            let (member, may) = db.find_many-Memᴰ p s.members there in
            let h' : pure tt s ≡ (ok tt, t) = rw owned at h in
            (m, member, may, ground arith, sym (ap (λ z. z.1) h'))
        | inr other ↦
            let (m, there) = first_of rows found in
            let (member, may) = db.find_many-Memᴰ p s.members there in
            let h' : assert_not_owner db target s ≡ (ok tt, t) = rw other at h in
            let (none_owned, q) = passed _ _ h' in
            let counted = db.count_rows-eq (owns s.workspaces target) s.members in
            let zero_owned : count (owns s.workspaces target) s.members ≡ 0 = ground arith in
            let no_owner = count_none (owns s.workspaces target) s.members zero_owned in
            (m, member, may, ground arith, q)
      ]

  -- An account is managed by an owner of an active workspace, or by an administrator of one when the
  -- account owns no active workspace; the test changes nothing.
  pub assert_can_manage_lem :
      (actor target : ℕ) (s t : Store) {x : Unit {0}}
      → assert_can_manage db actor target s ≡ (ok x, t)
      → Manager s actor target × (t ≡ s)
  unfolding assert_can_manage
  assert_can_manage_lem actor target s t h = elim (and_then-Steps _ _ h) [
    | steps roles s₁ e₁ h₁ ↦ elim (and_then-Steps _ _ h₁) [
      | steps person s₂ e₂ h₂ ↦
          let (found, are, q₁) = assert_manager_done actor s s₁ e₁ in
          let (there, is_target, q₂) = find_user_done target e₂ in
          let h₃ : (if any is_owner
                    (map (λ m. m.role) (db.find_many (manages s.workspaces actor) s.members))
                  then pure tt
                  else assert_not_owner db target)
                s
              ≡ (ok tt, t) =
            rw (are, q₂ ∙ q₁) at h₂ in
          let (m, member, by, may, q₃) = manager_by actor target s t found h₃ in
          let (is_actor, in_active) = manages_done s.workspaces actor m by in
          (
            record {
              membership = m;
              there = member;
              is_actor = is_actor;
              in_active = in_active;
              may = may;
              person = person;
              person_there = subst (λ z. Memᴰ person z.users) q₁ there;
              is_target = is_target;
            },
            q₃,
          )
    ]
  ]
