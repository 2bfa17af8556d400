-- ===== src/ContentProfiles/Defaults.antt =====
-- The default profile of a website (content-profiles.service.ts), as an invariant of the rows.
use ai_content_operating_sys.Base.{
  ℕ, ◌≤◌, ◌≡◌, refl, sym, ap, ◌∙◌, subst, Bool, true, false, ◌&&◌, List, [], ◌∷◌, any, map, count,
  Option, none, some, ◌==◌, ==_iff, ==_refl, arith, Memᴰ, Bool-cases, inl, inr, and-true,
}
use ai_content_operating_sys.Database.Client.{update_row}
use ai_content_operating_sys.Database.ContentRows.{ContentProfile, ProfileStatus}
use ai_content_operating_sys.Database.Laws.{Memᴰ-update_row}
use ai_content_operating_sys.Database.Counting.{
  at_most_one, count-map_less, count-map_more, count-map_none,
}
use ai_content_operating_sys.ContentProfiles.Managing.{
  Runtime, UpdateContentProfile, profile_clash, default_of, not_default, is_active_profile,
  with_status, edited_profile,
}

-- Ids are unique, a website has at most one default profile, and a default profile is active.
pub record OneDefault (rows : List ContentProfile) : Type 0 where
  pub unique : (id : ℕ) → count (λ p. p.id == id) rows ≤ 1
  pub one : (workspace_id website_id : ℕ) → count (default_of workspace_id website_id) rows ≤ 1
  pub live :
      (p : ContentProfile) → Memᴰ p rows → p.is_default ≡ true → is_active_profile p.status ≡ true

-- A change that makes no profile the default, nor a default one inactive.
pub record Tame (f : ContentProfile → ContentProfile) : Type 0 where
  pub id : (p : ContentProfile) → (f p).id ≡ p.id
  pub place : (p : ContentProfile) → (f p).workspace_id ≡ p.workspace_id
  pub site : (p : ContentProfile) → (f p).website_id ≡ p.website_id
  pub less : (p : ContentProfile) → (f p).is_default ≡ true → p.is_default ≡ true
  pub live :
      (p : ContentProfile)
      → (f p).is_default ≡ true
      → is_active_profile p.status ≡ true
      → is_active_profile (f p).status ≡ true

pub not_default-Tame : Tame not_default
not_default-Tame = record {
  id = λ p. refl;
  place = λ p. refl;
  site = λ p. refl;
  less = λ p h. absurd (ground arith);
  live = λ p h k. absurd (ground arith);
}

pub deactivated-Tame : Tame (λ p. record p { status = ProfileStatus.inactive; is_default = false })
deactivated-Tame = record {
  id = λ p. refl;
  place = λ p. refl;
  site = λ p. refl;
  less = λ p h. absurd (ground arith);
  live = λ p h k. absurd (ground arith);
}

with_status-Tame : (o : Option ProfileStatus) → Tame (with_status o)
with_status-Tame none = record {
  id = λ p. refl;
  place = λ p. refl;
  site = λ p. refl;
  less = λ p h. h;
  live = λ p h k. k;
}
with_status-Tame (some ProfileStatus.active) = record {
  id = λ p. refl;
  place = λ p. refl;
  site = λ p. refl;
  less = λ p h. h;
  live = λ p h k. refl;
}
with_status-Tame (some ProfileStatus.inactive) = record {
  id = λ p. refl;
  place = λ p. refl;
  site = λ p. refl;
  less = λ p h. absurd (ground arith);
  live = λ p h k. absurd (ground arith);
}

pub edited_profile-Tame :
    (runtime : Runtime) (input : UpdateContentProfile) → Tame (edited_profile runtime input)
unfolding edited_profile
edited_profile-Tame runtime input =
    let t = with_status-Tame input.status in
    record {
      id = λ p. t.id _;
      place = λ p. t.place _;
      site = λ p. t.site _;
      less = λ p h. t.less _ h;
      live = λ p h k. t.live _ h k;
    }

module _ (q : ContentProfile → Bool) (f : ContentProfile → ContentProfile) where
  abbrev changed : List ContentProfile → List ContentProfile
  changed = map (update_row q f)

  unique_after :
      (rows : List ContentProfile)
      → ((p : ContentProfile) → (f p).id ≡ p.id)
      → ((id : ℕ) → count (λ p. p.id == id) rows ≤ 1)
      → (id : ℕ) → count (λ p. p.id == id) (changed rows) ≤ 1
  unique_after rows same few id =
      let kept =
        count-map_less (λ p. p.id == id) q f rows
          (λ p m h k. subst (λ z. (z == id) ≡ true) (same p) k) in
      let was = few id in omega arith

  -- A tame change of some rows.
  pub update-OneDefault :
      (rows : List ContentProfile) → Tame f → OneDefault rows → OneDefault (changed rows)
  update-OneDefault rows tame before = record {
    unique = unique_after rows tame.id before.unique;
    one = λ w site.
        let kept =
          count-map_less (default_of w site) q f rows
            (λ p m h k. ground (arith, tame.place p, tame.site p, tame.less p)) in
        let was = before.one w site in omega arith;
    live = λ p' m h.
        let (p, there, e) = Memᴰ-update_row q f rows m in
        subst (λ z. is_active_profile z.status ≡ true) (sym e) (live_after p there (rw e at h));
  }
    where
      live_after :
          (p : ContentProfile)
          → Memᴰ p rows
          → (update_row q f p).is_default ≡ true
          → is_active_profile (update_row q f p).status ≡ true
      live_after p there h = elim (Bool-cases (q p)) [
        | inl hit ↦
            let e : update_row q f p ≡ f p = rw hit refl in
            let h' : (f p).is_default ≡ true = subst (λ z. z.is_default ≡ true) e h in
            let was = before.live p there (tame.less p h') in
            subst (λ z. is_active_profile z.status ≡ true) (sym e) (tame.live p h' was)
        | inr miss ↦
            let e : update_row q f p ≡ p = rw miss refl in
            let h' : p.is_default ≡ true = subst (λ z. z.is_default ≡ true) e h in
            subst (λ z. is_active_profile z.status ≡ true) (sym e) (before.live p there h')
      ]

-- A website with its default cleared has none.
pub cleared :
    (workspace_id website_id : ℕ) (rows : List ContentProfile)
    → count
        (default_of workspace_id website_id)
        (map (update_row (default_of workspace_id website_id) not_default) rows)
      ≡ 0
cleared workspace_id website_id rows =
    count-map_none (default_of workspace_id website_id) (default_of workspace_id website_id)
      not_default rows (λ p h. ground arith) (λ p h. h)

no_clash :
    (r : ContentProfile) (rows : List ContentProfile)
    → any (profile_clash r) rows ≡ false
    → count (λ p. p.id == r.id) rows ≡ 0
no_clash r [] h = refl
no_clash r (x ∷ rows) h = ground (arith, no_clash r rows)

-- A new row, the default only of a website that has none.
pub grow-OneDefault :
    (r : ContentProfile) (rows : List ContentProfile)
    → any (profile_clash r) rows ≡ false
    → is_active_profile r.status ≡ true
    → (r.is_default ≡ true → count (default_of r.workspace_id r.website_id) rows ≡ 0)
    → OneDefault rows
    → OneDefault (r ∷ rows)
grow-OneDefault r rows free live alone before = record {
  unique = λ id.
      let few = before.unique id in
      elim (Bool-cases (r.id == id)) [
        | inl same ↦
            let e : r.id ≡ id = (==_iff _ _).0 same in
            let none_there =
              subst (λ z. count (λ p. p.id == z) rows ≡ 0) e (no_clash r rows free) in
            ground arith
        | inr other ↦ ground arith
      ];
  one = λ w site.
      let few = before.one w site in
      elim (Bool-cases (default_of w site r)) [
        | inl default ↦
            let (ours, is_default) = our_default w site r default in
            let none_there : count (default_of w site) rows ≡ 0 =
              rw (← ours.0, ← ours.1) (alone is_default) in
            ground arith
        | inr other ↦ ground arith
      ];
  live = λ p m h. grown_live p m h;
}
  where
    our_default :
        (w site : ℕ) (p : ContentProfile)
        → default_of w site p ≡ true
        → ((p.workspace_id ≡ w) × (p.website_id ≡ site)) × (p.is_default ≡ true)
    our_default w site p h = ground arith

    grown_live :
        (p : ContentProfile)
        → Memᴰ p (r ∷ rows)
        → p.is_default ≡ true
        → is_active_profile p.status ≡ true
    grown_live p (Memᴰ.head e) h = subst (λ z. is_active_profile z.status ≡ true) (sym e) live
    grown_live p (Memᴰ.tail m) h = before.live p m h

-- The default of a website that has none.
abbrev pub as_default : ContentProfile → ContentProfile
as_default p = record p { is_default = true }

module _ (r : ContentProfile) (rows : List ContentProfile) where
  abbrev is_row : ContentProfile → Bool
  is_row p = p.id == r.id

  set_one :
      (w site : ℕ)
      → Memᴰ r rows
      → count (default_of r.workspace_id r.website_id) rows ≡ 0
      → OneDefault rows
      → count (default_of w site) (map (update_row is_row as_default) rows) ≤ 1
  set_one w site there none_there before =
      elim (Bool-cases (w == r.workspace_id && site == r.website_id)) [
        | inl same ↦
            let (e, e') = and-true _ _ same in
            let w_is : w ≡ r.workspace_id = (==_iff _ _).0 e in
            let site_is : site ≡ r.website_id = (==_iff _ _).0 e' in
            let more = count-map_more (default_of w site) is_row as_default rows in
            let few = before.unique r.id in
            let zero_there : count (default_of w site) rows ≡ 0 = rw (w_is, site_is) none_there in
            omega arith
        | inr other ↦
            let less = count-map_less (default_of w site) is_row as_default rows (λ p m h k.
              let same = at_most_one is_row rows (before.unique r.id) m there h (==_refl r.id) in
              let k' = subst (λ z. default_of w site (as_default z) ≡ true) same k in
              absurd (ground arith)) in
            let few = before.one w site in omega arith
      ]

  pub set-OneDefault :
      Memᴰ r rows
      → is_active_profile r.status ≡ true
      → count (default_of r.workspace_id r.website_id) rows ≡ 0
      → OneDefault rows
      → OneDefault (map (update_row is_row as_default) rows)
  set-OneDefault there live none_there before = record {
    unique = unique_after is_row as_default rows (λ p. refl) before.unique;
    one = λ w site. set_one w site there none_there before;
    live = λ p' m h.
        let (p, old, e) = Memᴰ-update_row is_row as_default rows m in
        elim (Bool-cases (is_row p)) [
          | inl hit ↦
              let e' : p' ≡ as_default p = rw hit at e in
              let same =
                at_most_one is_row rows (before.unique r.id) old there hit (==_refl r.id) in
              let q : p'.status ≡ r.status = ap (λ z. z.status) e' ∙ ap (λ z. z.status) same in
              subst (λ z. is_active_profile z ≡ true) (sym q) live
          | inr miss ↦
              let e' : p' ≡ p = rw miss at e in
              before.live p' (subst (λ z. Memᴰ z rows) (sym e') old) h
        ];
  }
