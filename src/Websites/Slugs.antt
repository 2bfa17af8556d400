-- ===== src/Websites/Slugs.antt =====
-- The slugs of the websites of a workspace (websites.service.ts), as an invariant of the rows.
use ai_content_operating_sys.Base.{
  ℕ, ◌≤◌, ◌≡◌, refl, sym, ap, ◌∙◌, subst, Bool, true, false, ◌&&◌, List, [], ◌∷◌, any, map, count,
  some, ◌==◌, ==_iff, ==_refl, arith, Memᴰ, Bool-cases, inl, inr, and-true,
}
use ai_content_operating_sys.Text.{Text, equal}
use ai_content_operating_sys.Text.Equality.{equal-true}
use ai_content_operating_sys.Database.Client.{update_row}
use ai_content_operating_sys.Database.IdentityRows.{Website}
use ai_content_operating_sys.Database.Laws.{Memᴰ-update_row}
use ai_content_operating_sys.Database.Counting.{
  at_most_one, count-map_less, count_implied, there-any,
}
use ai_content_operating_sys.Websites.Managing.{has_slug, website_clash, not_except}

-- Ids are unique, and the slugs of the websites of a workspace, deactivated ones included.
pub record UniqueSlugs (rows : List Website) : Type 0 where
  pub unique : (id : ℕ) → count (λ w. w.id == id) rows ≤ 1
  pub one : (workspace_id : ℕ) (slug : Text) → count (has_slug workspace_id slug) rows ≤ 1

-- A change that moves no website.
pub record InPlace (f : Website → Website) : Type 0 where
  pub id : (w : Website) → (f w).id ≡ w.id
  pub place : (w : Website) → (f w).workspace_id ≡ w.workspace_id

no_clash :
    (r : Website) (rows : List Website)
    → any (website_clash r) rows ≡ false
    → (count (λ w. w.id == r.id) rows ≡ 0) × (count (has_slug r.workspace_id r.slug) rows ≡ 0)
no_clash r [] h = (refl, refl)
no_clash r (x ∷ rows) h =
    let (ids, slugs) = no_clash r rows (ground arith) in (ground arith, ground arith)

-- A new row.
pub grow-UniqueSlugs :
    (r : Website) (rows : List Website)
    → any (website_clash r) rows ≡ false
    → UniqueSlugs rows
    → UniqueSlugs (r ∷ rows)
grow-UniqueSlugs r rows free before =
    let (ids, slugs) = no_clash r rows free in
    record {
      unique = λ id.
          let few = before.unique id in
          elim (Bool-cases (r.id == id)) [
            | inl same ↦
                let e : r.id ≡ id = (==_iff _ _).0 same in
                let none_there = subst (λ z. count (λ w. w.id == z) rows ≡ 0) e ids in ground arith
            | inr other ↦ ground arith
          ];
      one = λ w slug.
          let few = before.one w slug in
          elim (Bool-cases (has_slug w slug r)) [
            | inl same ↦
                let (a, b) = and-true (r.workspace_id == w) (equal r.slug slug) same in
                let e : r.workspace_id ≡ w = (==_iff _ _).0 a in
                let e' : r.slug ≡ slug = equal-true _ _ b in
                let none_there : count (has_slug w slug) rows ≡ 0 = rw (← e, ← e') slugs in
                ground arith
            | inr other ↦ ground arith
          ];
    }

module _ (r : Website) (rows : List Website) (f : Website → Website) (in_place : InPlace f)
    (before : UniqueSlugs rows) (there : Memᴰ r rows) where
  abbrev is_row : Website → Bool
  is_row w = w.id == r.id

  abbrev changed : List Website
  changed = map (update_row is_row f) rows

  unique_after : (id : ℕ) → count (λ w. w.id == id) changed ≤ 1
  unique_after id =
      let less =
        count-map_less (λ w. w.id == id) is_row f rows
          (λ x m h k. subst (λ z. (z == id) ≡ true) (in_place.id x) k) in
      let was = before.unique id in omega arith

  is_it : (x : Website) → Memᴰ x rows → is_row x ≡ true → x ≡ r
  is_it x m h = at_most_one is_row rows (before.unique r.id) m there h (==_refl r.id)

  -- A change that keeps the slug.
  pub same_slug-UniqueSlugs : ((w : Website) → (f w).slug ≡ w.slug) → UniqueSlugs changed
  same_slug-UniqueSlugs same = record {
    unique = unique_after;
    one = λ w slug.
        let less =
          count-map_less (has_slug w slug) is_row f rows
            (λ x m h k. ground (arith, in_place.place x, same x)) in
        let was = before.one w slug in omega arith;
  }

  module _ (slug : Text) (taken : (w : Website) → (f w).slug ≡ slug)
      (free : any (λ w. has_slug r.workspace_id slug w && not_except (some r.id) w) rows
        ≡ false) where
    -- A row that has the new slug is the changed one.
    the_changed :
        (x : Website) → Memᴰ x changed → has_slug r.workspace_id slug x ≡ true → is_row x ≡ true
    the_changed x m h =
        let (y, old, e) = Memᴰ-update_row is_row f rows m in
        elim (Bool-cases (is_row y)) [
          | inl hit ↦
              let e' : x ≡ f y = rw hit at e in
              subst (λ z. (z == r.id) ≡ true) (sym (in_place.id y) ∙ ap (λ z. z.id) (sym e')) hit
          | inr miss ↦
              let e' : x ≡ y = rw miss at e in
              let h' : has_slug r.workspace_id slug y ≡ true =
                subst (λ z. has_slug r.workspace_id slug z ≡ true) e' h in
              let both : (has_slug r.workspace_id slug y && not_except (some r.id) y) ≡ true =
                rw (h', miss) refl in
              let found =
                there-any (λ w. has_slug r.workspace_id slug w && not_except (some r.id) w) rows old
                  both in
              absurd (ground arith)
        ]

    -- A change of the slug to one that no other website of the workspace has.
    pub new_slug-UniqueSlugs : UniqueSlugs changed
    new_slug-UniqueSlugs = record {
      unique = unique_after;
      one = λ w t. elim (Bool-cases (r.workspace_id == w && equal slug t)) [
        | inl same ↦
            let (a, b) = and-true (r.workspace_id == w) (equal slug t) same in
            let e : r.workspace_id ≡ w = (==_iff _ _).0 a in
            let e' : slug ≡ t = equal-true _ _ b in
            let fewer = count_implied (has_slug r.workspace_id slug) is_row changed the_changed in
            let few : count (has_slug r.workspace_id slug) changed ≤ 1 =
              let was = unique_after r.id in omega arith in
            subst (λ z. count (has_slug z t) changed ≤ 1) e
              (subst (λ z. count (has_slug r.workspace_id z) changed ≤ 1) e' few)
        | inr other ↦
            let less = count-map_less (has_slug w t) is_row f rows (λ x m h k.
              let q : (f x).workspace_id ≡ r.workspace_id =
                in_place.place x ∙ ap (λ z. z.workspace_id) (is_it x m h) in
              let k' : (r.workspace_id == w && equal slug t) ≡ true = rw (← q, ← taken x) k in
              absurd (ground arith)) in
            let was = before.one w t in omega arith
      ];
    }
