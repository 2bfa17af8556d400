-- ===== src/Sync/Missing.antt =====
-- apps/worker/src/blogger-sync.ts: the posts that the provider no longer lists.
use ai_content_operating_sys.Base.{
  ℕ, ◌≡◌, refl, sym, ap, ◌∙◌, subst, Bool, true, false, not, List, [], ◌∷◌, any, map, filter, some,
  ◌==◌, ==_refl, ==_iff, arith, Memᴰ, Bool-cases, inl, inr,
}
use ai_content_operating_sys.Errors.{ok, steps, and_then-Steps, ok_injective}
use ai_content_operating_sys.Text.{Text}
use ai_content_operating_sys.Database.Client.{update_row, Memᴰ-filter}
use ai_content_operating_sys.Database.IntegrationRows.{ExternalPost, ExternalPostStatus}
use ai_content_operating_sys.Database.Store.{Store, external_post, find_many}
use ai_content_operating_sys.Database.Laws.{Memᴰ-update_row, update_many_done}
use ai_content_operating_sys.Database.Counting.{there-any, any-map_same}
use ai_content_operating_sys.Sync.Job.{Worker, is_deleted, same_post, has}
use ai_content_operating_sys.Sync.Importing.{mark_deleted, delete_missing}
use ai_content_operating_sys.Sync.Pages.{has_row}

-- Every post of the connection that is not marked as deleted was seen.
abbrev pub NoStale : ℕ → List Text → Store → Type 0
NoStale connection_id seen s =
    (r : ExternalPost)
    → Memᴰ r s.external_posts
    → r.connection_id ≡ connection_id
    → is_deleted r.status ≡ false
    → has seen r.external_post_id ≡ true

module _ (w : Worker) where
  abbrev deleted_row : ExternalPost → ExternalPost
  deleted_row r = record r {
    status = ExternalPostStatus.deleted;
    deleted_externally_at = some w.now;
  }

  abbrev missing_of : ℕ → List Text → Store → List ExternalPost
  missing_of connection_id seen s =
      filter (λ r. not (has seen r.external_post_id))
        (w.db.find_many (λ r. r.connection_id == connection_id) s.external_posts)

  -- A row that is not seen is missing.
  unseen_missing :
      (connection_id : ℕ) (seen : List Text) (s : Store) (r : ExternalPost)
      → Memᴰ r s.external_posts
      → r.connection_id ≡ connection_id
      → has seen r.external_post_id ≡ false
      → Memᴰ r (missing_of connection_id seen s)
  unseen_missing connection_id seen s r m mine unseen =
      let found =
        w.db.Memᴰ-find_many (λ x. x.connection_id == connection_id) s.external_posts m
          ((==_iff _ _).1 mine) in
      Memᴰ-filter (λ x. not (has seen x.external_post_id)) _ found (ap not unseen)

  mark_deleted_done :
      (connection_id : ℕ) (seen : List Text) (missing : List ExternalPost) (s t : Store)
      {x : Unit {0}}
      → ((r : ExternalPost)
          → Memᴰ r s.external_posts
          → r.connection_id ≡ connection_id
          → has seen r.external_post_id ≡ false
          → Memᴰ r missing)
      → mark_deleted w missing s ≡ (ok x, t)
      → NoStale connection_id seen t
        × ((id : Text) → has_row connection_id id t ≡ has_row connection_id id s)
  unfolding mark_deleted
  mark_deleted_done connection_id seen [] s t covers h =
      let q : s ≡ t = ap (λ z. z.1) h in
      (
        subst (NoStale connection_id seen) q (λ r m mine alive.
            elim (Bool-cases (has seen r.external_post_id)) [
              | inl yes_ ↦ yes_
              | inr no_ ↦ elim (covers r m mine no_) [ ]
            ]),
        λ id. ap (λ z. has_row connection_id id z) (sym q),
      )
  mark_deleted_done connection_id seen (y ∷ ms) s t covers h = elim (and_then-Steps _ _ h) [
    | steps n u e k ↦
        let p : ExternalPost → Bool = λ r. any (λ x. x.id == r.id) (y ∷ ms) in
        let (_, q) = update_many_done w.db external_post p deleted_row e in
        let final : u ≡ t = ap (λ z. z.1) k in
        let rows : t.external_posts ≡ map (update_row p deleted_row) s.external_posts =
          ap (λ z. z.external_posts) (sym final ∙ q) in
        (
          λ r' m mine alive.
              let (r, there, is_r) =
                Memᴰ-update_row p deleted_row s.external_posts (subst (Memᴰ r') rows m) in
              fresh p r r' there is_r mine alive,
          λ id.
              ap (any (same_post connection_id id)) rows
              ∙ any-map_same (same_post connection_id id) p deleted_row s.external_posts
                  (λ x. refl),
        )
  ]
    where
      fresh :
          (p : ExternalPost → Bool) (r r' : ExternalPost)
          → Memᴰ r s.external_posts
          → r' ≡ update_row (λ z. any (λ x. x.id == z.id) (y ∷ ms)) deleted_row r
          → r'.connection_id ≡ connection_id
          → is_deleted r'.status ≡ false
          → has seen r'.external_post_id ≡ true
      fresh p r r' there is_r mine alive = elim (Bool-cases (any (λ x. x.id == r.id) (y ∷ ms))) [
        | inl gone ↦
            let e : r' ≡ deleted_row r = rw gone at is_r in
            let dead : is_deleted r'.status ≡ true = ap (λ z. is_deleted z.status) e in
            absurd (ground arith)
        | inr left ↦
            let e : r' ≡ r = rw left at is_r in
            elim (Bool-cases (has seen r'.external_post_id)) [
              | inl yes_ ↦ yes_
              | inr no_ ↦
                  let mine' : r.connection_id ≡ connection_id =
                    ap (λ z. z.connection_id) (sym e) ∙ mine in
                  let unseen : has seen r.external_post_id ≡ false =
                    ap (λ z. has seen z.external_post_id) (sym e) ∙ no_ in
                  let in_missing = covers r there mine' unseen in
                  let hit = there-any (λ x. x.id == r.id) (y ∷ ms) in_missing (==_refl r.id) in
                  absurd (ground arith)
            ]
      ]

  pub delete_missing_done :
      (connection_id : ℕ) (seen : List Text) (s t : Store) {x : Unit {0}}
      → delete_missing w connection_id seen s ≡ (ok x, t)
      → NoStale connection_id seen t
        × ((id : Text) → has_row connection_id id t ≡ has_row connection_id id s)
  unfolding delete_missing find_many
  delete_missing_done connection_id seen s t h = elim (and_then-Steps _ _ h) [
    | steps existing u e k ↦
        let is_existing : w.db.find_many (λ r. r.connection_id == connection_id) s.external_posts
            ≡ existing =
          ok_injective _ _ (ap (λ z. z.0) e) in
        let q : s ≡ u = ap (λ z. z.1) e in
        let k' : mark_deleted w (missing_of connection_id seen s) s ≡ (ok tt, t) =
          rw (is_existing, q) k in
        mark_deleted_done connection_id seen (missing_of connection_id seen s) s t
          (unseen_missing connection_id seen s) k'
  ]
