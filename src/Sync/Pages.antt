-- ===== src/Sync/Pages.antt =====
-- apps/worker/src/blogger-sync.ts: the loop over the pages of a provider.
use ai_content_operating_sys.Base.{
  ℕ, suc, ◌+◌, ◌≡◌, refl, sym, ap, ◌∙◌, subst, Bool, true, false, ◌&&◌, ◌||◌, List, [], ◌∷◌, ◌++◌,
  any, map, length, Option, none, some, is_some, ==_refl, arith, Memᴰ, if◌then◌else◌,
}
use ai_content_operating_sys.Errors.{ok, pure, ◌>>=◌, steps, and_then-Steps, ok_injective}
use ai_content_operating_sys.Text.{Text, equal}
use ai_content_operating_sys.Text.Equality.{equal_refl}
use ai_content_operating_sys.Database.Client.{update_row}
use ai_content_operating_sys.Database.IntegrationRows.{WebsiteConnection, ExternalPost, post_clash}
use ai_content_operating_sys.Database.Store.{Store, external_post, audit_log, find_first}
use ai_content_operating_sys.Database.Laws.{find_first_found, update_many_done, create_done}
use ai_content_operating_sys.Database.Counting.{there-any, any-map_same}
use ai_content_operating_sys.Sync.Job.{
  ProviderPost, ProviderPostPage, Provider, Worker, Progress, never_clash, same_post,
}
use ai_content_operating_sys.Sync.Importing.{
  log, imported, new_post, upsert_post, import_post, import_posts,
}

-- The token after which the loop ends.
abbrev pub ends : Option Text → Bool
ends none = true
ends (some []) = true
ends (some (_ ∷ _)) = false

-- The posts that a provider lists from a token on, page after page.
pub data Listing (source : Provider) : Option Text → ℕ → List ProviderPost → Type 0 where
  last_page :
      {token : Option Text} (page : ProviderPostPage)
      → source.list_posts token ≡ ok page
      → ends page.next_page_token ≡ true
      → Listing source token 1 page.items
  next_page :
      {token : Option Text} (page : ProviderPostPage) (t : Text) (n : ℕ) (rest : List ProviderPost)
      → source.list_posts token ≡ ok page
      → page.next_page_token ≡ some t
      → ends (some t) ≡ false
      → Listing source (some t) n rest
      → Listing source token (suc n) (page.items ++ rest)

-- The ids of posts, onto those seen before.
abbrev pub see : List Text → List ProviderPost → List Text
see seen [] = seen
see seen (post ∷ posts) = see (post.id ∷ seen) posts

-- The connection has a row for the post.
abbrev pub has_row : ℕ → Text → Store → Bool
has_row connection_id id s = any (same_post connection_id id) s.external_posts

-- What importing posts did: a row for each, none lost, and the counts.
pub record Imported (connection_id : ℕ) (posts : List ProviderPost) (p p' : Progress) (s t : Store)
    : Type 0 where
  pub seen : p'.seen ≡ see p.seen posts
  pub processed : p'.processed ≡ p.processed + length posts
  pub counted : p'.created + p'.updated ≡ p.created + p.updated + length posts
  pub rows : (post : ProviderPost) → Memᴰ post posts → has_row connection_id post.id t ≡ true
  pub kept : (id : Text) → has_row connection_id id s ≡ true → has_row connection_id id t ≡ true

see-append :
    (seen : List Text) (xs ys : List ProviderPost) → see seen (xs ++ ys) ≡ see (see seen xs) ys
see-append seen [] ys = refl
see-append seen (x ∷ xs) ys = see-append (x.id ∷ seen) xs ys

length-append : (xs ys : List ProviderPost) → length (xs ++ ys) ≡ length xs + length ys
length-append [] ys = omega arith
length-append (x ∷ xs) ys = let rest = length-append xs ys in omega arith

split_there :
    (xs ys : List ProviderPost) (p : ProviderPost → Type 0)
    → ((x : ProviderPost) → Memᴰ x xs → p x)
    → ((y : ProviderPost) → Memᴰ y ys → p y)
    → (x : ProviderPost) → Memᴰ x (xs ++ ys)
    → p x
split_there [] ys p here there x m = there x m
split_there (z ∷ xs) ys p here there x (Memᴰ.head e) = here x (Memᴰ.head e)
split_there (z ∷ xs) ys p here there x (Memᴰ.tail m) =
    split_there xs ys p (λ y i. here y (Memᴰ.tail i)) there x m

-- Importing more posts.
pub both_done :
    (connection_id : ℕ) (xs ys : List ProviderPost) (p q r : Progress) (s t u : Store)
    → Imported connection_id xs p q s t
    → Imported connection_id ys q r t u
    → Imported connection_id (xs ++ ys) p r s u
both_done connection_id xs ys p q r s t u a b =
    let len = length-append xs ys in
    let first = a.processed in
    let second = b.processed in
    let first' = a.counted in
    let second' = b.counted in
    record {
      seen = b.seen ∙ ap (λ z. see z ys) a.seen ∙ sym (see-append p.seen xs ys);
      processed = omega arith;
      counted = omega arith;
      rows =
          split_there xs ys (λ post. has_row connection_id post.id u ≡ true)
            (λ post m. b.kept post.id (a.rows post m)) b.rows;
      kept = λ id h. b.kept id (a.kept id h);
    }

-- A store with the same posts.
pub same_rows :
    (connection_id : ℕ) (xs : List ProviderPost) (p q : Progress) (s t u : Store)
    → u.external_posts ≡ t.external_posts
    → Imported connection_id xs p q s t
    → Imported connection_id xs p q s u
same_rows connection_id xs p q s t u e a = record {
  seen = a.seen;
  processed = a.processed;
  counted = a.counted;
  rows = λ post m. ap (any (same_post connection_id post.id)) e ∙ a.rows post m;
  kept = λ id h. ap (any (same_post connection_id id)) e ∙ a.kept id h;
}

module _ (w : Worker) (connection : WebsiteConnection) (site : Text) where
  -- The entry of a new post leaves the posts.
  logged :
      (c : Bool) (s t : Store) {x : Unit {0}}
      → (if c then pure tt else (do
        _ ←
            log w "blogger.post.imported" connection.workspace_id connection.website_id
              "ExternalPost" none
        pure tt))
          s
        ≡ (ok x, t)
      → t.external_posts ≡ s.external_posts
  logged true s t h = ap (λ z. z.1.external_posts) (sym h)
  logged false s t h = elim (and_then-Steps _ _ h) [
    | steps r u e k ↦
        let (_, q, _) = create_done w.db audit_log never_clash _ e in
        ap (λ z. z.1.external_posts) (sym k) ∙ ap (λ z. z.external_posts) q
  ]

  found_same :
      (post : ProviderPost) (s t : Store) {o : Option ExternalPost}
      → find_first w.db external_post (same_post connection.id post.id) s ≡ (ok o, t)
      → s ≡ t
  unfolding find_first
  found_same post s t h = ap (λ z. z.1) h

  found_there :
      (post : ProviderPost) (s t : Store) {o : Option ExternalPost}
      → find_first w.db external_post (same_post connection.id post.id) s ≡ (ok o, t)
      → is_some o ≡ true
      → has_row connection.id post.id s ≡ true
  found_there post s t {o = none} h e = absurd (ground arith)
  found_there post s t {o = some r} h e =
      let (m, here, _) = find_first_found w.db external_post (same_post connection.id post.id) h in
      there-any (same_post connection.id post.id) s.external_posts m here

  counted_one :
      (c : Bool) (created updated : ℕ)
      → (if c then created else created + 1) + (if c then updated + 1 else updated)
        ≡ created + updated + 1
  counted_one true created updated = omega arith
  counted_one false created updated = omega arith

  one_row :
      (post : ProviderPost) (t : Store)
      → has_row connection.id post.id t ≡ true
      → (x : ProviderPost) → Memᴰ x (post ∷ [])
      → has_row connection.id x.id t ≡ true
  one_row post t h x (Memᴰ.head e) = subst (λ z. has_row connection.id z.id t ≡ true) (sym e) h
  one_row post t h x (Memᴰ.tail m) = elim m [ ]

  upserted :
      (c : Bool) (post : ProviderPost) (s t : Store) {x : Unit {0}}
      → (c ≡ true → has_row connection.id post.id s ≡ true)
      → upsert_post w c connection site post s ≡ (ok x, t)
      → (has_row connection.id post.id t ≡ true)
        × ((id : Text) → has_row connection.id id s ≡ true → has_row connection.id id t ≡ true)
  unfolding upsert_post imported new_post
  upserted true post s t there h = elim (and_then-Steps _ _ h) [
    | steps n u e k ↦
        let (_, q) =
          update_many_done w.db external_post (same_post connection.id post.id) (imported w post)
            e in
        let final : u ≡ t = ap (λ z. z.1) k in
        let rows : t.external_posts
            ≡ map (update_row (same_post connection.id post.id) (imported w post))
                s.external_posts =
          ap (λ z. z.external_posts) (sym final ∙ q) in
        let same : (id : Text) → has_row connection.id id t ≡ has_row connection.id id s = λ id.
          ap (any (same_post connection.id id)) rows
          ∙ any-map_same (same_post connection.id id) (same_post connection.id post.id)
              (imported w post) s.external_posts (λ r. refl) in
        (same post.id ∙ there refl, λ id h'. same id ∙ h')
  ]
  upserted false post s t there h = elim (and_then-Steps _ _ h) [
    | steps r u e k ↦
        let (_, q, _) = create_done w.db external_post post_clash _ e in
        let final : u ≡ t = ap (λ z. z.1) k in
        let new : ExternalPost = new_post w connection site post in
        let rows : t.external_posts ≡ new ∷ s.external_posts =
          ap (λ z. z.external_posts) (sym final ∙ q) in
        let own : same_post connection.id post.id new ≡ true =
          ap (λ z. z && equal post.id post.id) (==_refl connection.id) ∙ equal_refl post.id in
        let grown : (id : Text)
            → has_row connection.id id t
              ≡ (same_post connection.id id new || has_row connection.id id s) =
          λ id. ap (any (same_post connection.id id)) rows in
        (
          grown post.id ∙ ap (λ z. z || has_row connection.id post.id s) own,
          λ id h'. grown id ∙ or_right (same_post connection.id id new) _ h',
        )
  ]
    where
      or_right : (a b : Bool) → b ≡ true → (a || b) ≡ true
      or_right a b h = ground arith

  import_post_done :
      (p : Progress) (post : ProviderPost) (s t : Store) {p' : Progress}
      → import_post w connection site p post s ≡ (ok p', t)
      → Imported connection.id (post ∷ []) p p' s t
  unfolding import_post
  import_post_done p post s t {p'} h = elim (and_then-Steps _ _ h) [
    | steps o s₁ e₁ h₁ ↦ elim (and_then-Steps _ _ h₁) [
      | steps _ s₂ e₂ h₂ ↦ elim (and_then-Steps _ _ h₂) [
        | steps _ s₃ e₃ h₃ ↦
            let q₁ : s ≡ s₁ = found_same post s s₁ e₁ in
            let there = found_there post s s₁ e₁ in
            let e₂' : upsert_post w (is_some o) connection site post s ≡ (ok tt, s₂) = rw q₁ e₂ in
            let (row, kept) = upserted (is_some o) post s s₂ there e₂' in
            let rows : t.external_posts ≡ s₂.external_posts =
              ap (λ z. z.1.external_posts) (sym h₃) ∙ logged (is_some o) s₂ s₃ e₃ in
            let is_p : _ ≡ p' = ok_injective _ _ (ap (λ z. z.0) h₃) in
            let is_p' = is_p in
            record {
              seen = ap (λ z. z.seen) (sym is_p);
              processed = ap (λ z. z.processed) (sym is_p);
              counted =
                  ap (λ z. z.created + z.updated) (sym is_p)
                  ∙ counted_one (is_some o) p.created p.updated;
              rows = one_row post t (ap (any (same_post connection.id post.id)) rows ∙ row);
              kept = λ id h'. ap (any (same_post connection.id id)) rows ∙ kept id h';
            }
      ]
    ]
  ]

  pub import_posts_done :
      (posts : List ProviderPost) (p : Progress) (s t : Store) {p' : Progress}
      → import_posts w connection site p posts s ≡ (ok p', t)
      → Imported connection.id posts p p' s t
  unfolding import_posts
  import_posts_done [] p s t {p'} h =
      let is_p : p ≡ p' = ok_injective _ _ (ap (λ z. z.0) h) in
      let q : s ≡ t = ap (λ z. z.1) h in
      record {
        seen = ap (λ z. z.seen) (sym is_p);
        processed = let e = ap (λ z. z.processed) (sym is_p) in omega arith;
        counted = let e = ap (λ z. z.created + z.updated) (sym is_p) in omega arith;
        rows = λ post m. elim m [ ];
        kept = λ id h'. ap (λ z. any (same_post connection.id id) z.external_posts) (sym q) ∙ h';
      }
  import_posts_done (post ∷ posts) p s t h = elim (and_then-Steps _ _ h) [
    | steps q u e k ↦
        both_done connection.id (post ∷ []) posts p q _ s u t (import_post_done p post s u e)
          (import_posts_done posts q u t k)
  ]
