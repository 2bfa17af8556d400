-- ===== src/Contents/Domain/Normal.antt =====
-- The form of a slug, and the bounds of the reading time.
use ai_content_operating_sys.Base.{
  ℕ, zero, suc, ◌+◌, ◌*◌, ◌≤◌, ◌<◌, ◌≡◌, refl, sym, ap, ◌∙◌, Bool, true, false, not, ◌&&◌, [], ◌∷◌,
  length, arith, ◌⊎◌, inl, inr, Bool-cases, if◌then◌else◌, subst,
}
use ai_content_operating_sys.Errors.{ok, steps, and_then-Steps, passed}
use ai_content_operating_sys.Text.{Text, Unicode, is_empty, collapse, collapse_from, take}
use ai_content_operating_sys.Database.Store.{Store}
use ai_content_operating_sys.Contents.Domain.Html.{reading_minutes}
use ai_content_operating_sys.Contents.Domain.Slug.{
  dash, is_dash, drop_last_dash, drop_first_dash, slug_characters, normalize_content_slug,
}
use ai_content_operating_sys.Contents.Domain.Words.{IsSlugText, normalize_content_slug-IsSlugText}
use ai_content_operating_sys.Contents.Fields.{valid_slug}

-- No dash after a dash; `after` is true when one comes just before.
abbrev pub is_spaced : Bool → Text → Bool
is_spaced after [] = true
is_spaced after (c ∷ s) =
    let dashed = is_spaced true s in
    let plain = is_spaced false s in if is_dash c then not after && dashed else plain

-- Words joined by single dashes: moreover, no dash at the end, nor at the start for `after` true.
abbrev pub is_joined : Bool → Text → Bool
is_joined after [] = not after
is_joined after (c ∷ s) =
    let dashed = is_joined true s in
    let plain = is_joined false s in if is_dash c then not after && dashed else plain

collapse_spaced :
    (after : Bool) (s : Text) → is_spaced after (collapse_from is_dash dash after s) ≡ true
unfolding collapse_from
collapse_spaced after [] = refl
collapse_spaced after (c ∷ s) =
    let dashed = collapse_spaced true s in
    let plain = collapse_spaced false s in
    elim (Bool-cases (is_dash c)) [
      | inl d ↦ elim (Bool-cases after) [ inl a ↦ rw (d, a) dashed | inr a ↦ rw (d, a) dashed ]
      | inr d ↦ rw (d, d) plain
    ]

drop_first_spaced :
    (s : Text) → is_spaced false s ≡ true → is_spaced true (drop_first_dash s) ≡ true
drop_first_spaced [] h = refl
drop_first_spaced (c ∷ s) h = elim (Bool-cases (is_dash c)) [
  | inl d ↦ rw d (rw d at h)
  | inr d ↦ rw (d, d) (rw d at h)
]

take_spaced :
    (n : ℕ) (after : Bool) (s : Text) → is_spaced after s ≡ true → is_spaced after (take n s) ≡ true
unfolding take
take_spaced zero after s h = refl
take_spaced (suc n) after [] h = refl
take_spaced (suc n) after (c ∷ s) h = ground (arith, take_spaced n true s, take_spaced n false s)

drop_last_spaced :
    (after : Bool) (s : Text) → is_spaced after s ≡ true → is_spaced after (drop_last_dash s) ≡ true
unfolding drop_last_dash
drop_last_spaced after [] h = refl
drop_last_spaced after (c ∷ s) h = ground (arith, drop_last_spaced true s, drop_last_spaced false s)

drop_last_joined :
    (after : Bool) (s : Text)
    → is_spaced after s ≡ true
    → (is_empty (drop_last_dash s) ≡ true) ⊎ (is_joined after (drop_last_dash s) ≡ true)
unfolding drop_last_dash
drop_last_joined after [] h = inl refl
drop_last_joined after (c ∷ []) h = ground arith
drop_last_joined after (c ∷ d ∷ s) h =
    ground (arith, drop_last_joined true (d ∷ s), drop_last_joined false (d ∷ s))

length-take : (n : ℕ) (s : Text) → length (take n s) ≤ n
unfolding take
length-take zero s = omega arith
length-take (suc n) [] = omega arith
length-take (suc n) (c ∷ s) = let h = length-take n s in omega arith

length-drop_last_dash : (s : Text) → length (drop_last_dash s) ≤ length s
unfolding drop_last_dash
length-drop_last_dash [] = omega arith
length-drop_last_dash (c ∷ s) = ground (arith, length-drop_last_dash s)

normalize_content_slug-is_joined :
    (u : Unicode) (value : Text)
    → (is_empty (normalize_content_slug u value) ≡ true)
      ⊎ (is_joined true (normalize_content_slug u value) ≡ true)
unfolding normalize_content_slug collapse
normalize_content_slug-is_joined u value =
    let raw = slug_characters u value in
    let gathered = collapse_from is_dash dash false raw in
    let stripped = drop_first_dash gathered in
    drop_last_joined true (take 120 (drop_last_dash stripped)) (
      take_spaced 120 true (drop_last_dash stripped)
        (drop_last_spaced true stripped (drop_first_spaced gathered (collapse_spaced false raw))))

normalize_content_slug-length :
    (u : Unicode) (value : Text) → length (normalize_content_slug u value) ≤ 120
unfolding normalize_content_slug
normalize_content_slug-length u value =
    let stripped = drop_first_dash (collapse is_dash dash (slug_characters u value)) in
    let cut = take 120 (drop_last_dash stripped) in
    let shorter = length-drop_last_dash cut in
    let short = length-take 120 (drop_last_dash stripped) in omega arith

-- A slug that is accepted is made of words of letters and numbers joined by single dashes, of at most
-- 120 units, where the last character may be half a pair of surrogates.
pub valid_slug_lem :
    (u : Unicode) (value : Text) {s t : Store} {slug : Text}
    → valid_slug u value s ≡ (ok slug, t)
    → (is_joined true slug ≡ true) × IsSlugText u slug × (length slug ≤ 120) × (t ≡ s)
unfolding valid_slug
valid_slug_lem u value {s} {t} {slug} h = elim (and_then-Steps _ _ h) [
  | steps _ v e k ↦
      let (filled, q) = passed _ _ e in
      let is_slug : normalize_content_slug u value ≡ slug = cc in
      let joined : is_joined true (normalize_content_slug u value) ≡ true =
        elim (normalize_content_slug-is_joined u value) [
          | inl nothing ↦ absurd (ground arith)
          | inr yes_joined ↦ yes_joined
        ] in
      (
        subst (λ z. is_joined true z ≡ true) is_slug joined,
        subst (IsSlugText u) is_slug (normalize_content_slug-IsSlugText u value),
        subst (λ z. length z ≤ 120) is_slug (normalize_content_slug-length u value),
        sym (ap (λ z. z.1) k) ∙ q,
      )
]

-- The reading time is the number of minutes that 225 words a minute take, rounded up.
pub reading_minutes_lem :
    (words : ℕ)
    → (words ≤ 225 * reading_minutes words) × (225 * reading_minutes words < words + 225)
unfolding reading_minutes
reading_minutes_lem words = ground arith
