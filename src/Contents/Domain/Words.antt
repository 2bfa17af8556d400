-- ===== src/Contents/Domain/Words.antt =====
-- The characters of a slug (content-domain.ts `normalizeContentSlug`).
use ai_content_operating_sys.Base.{
  ℕ, zero, suc, ◌≡◌, Bool, true, false, ◌&&◌, ◌||◌, not, filter, ◌==◌, [], ◌∷◌, arith, inl, inr,
  Bool-cases, and-true,
}
use ai_content_operating_sys.Text.{
  Text, Unicode, between, is_space, trim, collapse, collapse_from, is_empty, keep, surrogates, take,
}
use ai_content_operating_sys.Contents.Domain.Slug.{
  dash, is_dash, drop_last_dash, drop_first_dash, slug_characters, normalize_content_slug,
}

abbrev pub is_high : ℕ → Bool
is_high c = between 0xd800 0xdbff c

abbrev pub is_pair : ℕ → ℕ → Bool
is_pair c d = is_high c && between 0xdc00 0xdfff d

-- `[\p{L}\p{N}-]`
abbrev pub in_slug : Unicode → ℕ → Bool
in_slug u c = u.is_letter_or_number c || is_dash c

-- A text of letters, numbers and dashes, each a unit or a pair of surrogates; a pair may be cut at the
-- end of the text.
pub data IsSlugText (u : Unicode) : Text → Type 0 where
  no_unit : IsSlugText u []
  one_unit : {c : ℕ} {s : Text} → in_slug u c ≡ true → IsSlugText u s → IsSlugText u (c ∷ s)
  one_pair :
      {c d : ℕ} {s : Text}
      → is_pair c d ≡ true
      → in_slug u (surrogates c d) ≡ true
      → IsSlugText u s
      → IsSlugText u (c ∷ d ∷ s)
  half_pair : {c : ℕ} → is_high c ≡ true → IsSlugText u (c ∷ [])

no_dash : (c d : ℕ) → is_pair c d ≡ true → (is_dash c ≡ false) × (is_dash d ≡ false)
no_dash c d h = (ground arith, ground arith)

high_no_dash : (c : ℕ) → is_high c ≡ true → is_dash c ≡ false
high_no_dash c h = ground arith

pair-high : (c d : ℕ) → is_pair c d ≡ true → is_high c ≡ true
pair-high c d h = (and-true _ _ h).0

in_slug-dash : (u : Unicode) → in_slug u dash ≡ true
in_slug-dash u = ground arith

module _ (u : Unicode) where
  keep-IsSlugText : (s : Text) → IsSlugText u (keep (in_slug u) s)
  unfolding keep
  keep-IsSlugText [] = no_unit
  keep-IsSlugText (c ∷ []) = elim (Bool-cases (in_slug u c)) [
    | inl h ↦ rw h (one_unit h no_unit)
    | inr h ↦ rw h no_unit
  ]
  keep-IsSlugText (c ∷ d ∷ s) =
      let one = keep-IsSlugText (d ∷ s) in
      let pair = keep-IsSlugText s in
      elim (Bool-cases (is_pair c d)) [
        | inl p ↦ elim (Bool-cases (in_slug u (surrogates c d))) [
          | inl h ↦ rw (p, h) (one_pair p h pair)
          | inr h ↦ rw (p, h) pair
        ]
        | inr p ↦ elim (Bool-cases (in_slug u c)) [
          | inl h ↦ rw (p, h) (one_unit h one)
          | inr h ↦ rw (p, h) one
        ]
      ]

  collapse_from-IsSlugText :
      (inside : Bool) {s : Text}
      → IsSlugText u s
      → IsSlugText u (collapse_from is_dash dash inside s)
  unfolding collapse_from
  collapse_from-IsSlugText inside no_unit = no_unit
  collapse_from-IsSlugText inside (one_unit {c} {s} h rest) =
      let after_dash = collapse_from-IsSlugText true rest in
      let after_other = collapse_from-IsSlugText false rest in
      elim (Bool-cases (is_dash c)) [
        | inl d ↦ elim (Bool-cases inside) [
          | inl i ↦ rw (d, i) after_dash
          | inr i ↦ rw (d, i) (one_unit (in_slug-dash u) after_dash)
        ]
        | inr d ↦ rw d (one_unit h after_other)
      ]
  collapse_from-IsSlugText inside (one_pair {c} {d} {s} p h rest) =
      let (e, e') = no_dash c d p in
      let after = collapse_from-IsSlugText false rest in rw (e, e') (one_pair p h after)
  collapse_from-IsSlugText inside (half_pair {c} h) = rw (high_no_dash c h) (half_pair h)

  drop_first_dash-IsSlugText : {s : Text} → IsSlugText u s → IsSlugText u (drop_first_dash s)
  drop_first_dash-IsSlugText no_unit = no_unit
  drop_first_dash-IsSlugText (one_unit {c} h rest) = elim (Bool-cases (is_dash c)) [
    | inl d ↦ rw d rest
    | inr d ↦ rw d (one_unit h rest)
  ]
  drop_first_dash-IsSlugText (one_pair {c} {d} p h rest) =
      rw ((no_dash c d p).0) (one_pair p h rest)
  drop_first_dash-IsSlugText (half_pair {c} h) = rw (high_no_dash c h) (half_pair h)

  drop_last_dash-IsSlugText : {s : Text} → IsSlugText u s → IsSlugText u (drop_last_dash s)
  unfolding drop_last_dash
  drop_last_dash-IsSlugText no_unit = no_unit
  drop_last_dash-IsSlugText (one_unit {c} {s} h rest) =
      let after = drop_last_dash-IsSlugText rest in
      elim (Bool-cases (is_dash c && is_empty s)) [
        | inl d ↦ rw d no_unit
        | inr d ↦ rw d (one_unit h after)
      ]
  drop_last_dash-IsSlugText (one_pair {c} {d} {s} p h rest) =
      let (e, e') = no_dash c d p in
      let after = drop_last_dash-IsSlugText rest in rw (e, e') (one_pair p h after)
  drop_last_dash-IsSlugText (half_pair {c} h) = rw (high_no_dash c h) (half_pair h)

  take-IsSlugText : (n : ℕ) {s : Text} → IsSlugText u s → IsSlugText u (take n s)
  unfolding take
  take-IsSlugText zero k = no_unit
  take-IsSlugText (suc n) no_unit = no_unit
  take-IsSlugText (suc n) (one_unit h rest) = one_unit h (take-IsSlugText n rest)
  take-IsSlugText (suc zero) (one_pair {c} {d} p h rest) = half_pair (pair-high c d p)
  take-IsSlugText (suc (suc n)) (one_pair p h rest) = one_pair p h (take-IsSlugText n rest)
  take-IsSlugText (suc zero) (half_pair h) = half_pair h
  take-IsSlugText (suc (suc n)) (half_pair h) = half_pair h

  pub normalize_content_slug-IsSlugText :
      (value : Text) → IsSlugText u (normalize_content_slug u value)
  unfolding normalize_content_slug slug_characters collapse
  normalize_content_slug-IsSlugText value = drop_last_dash-IsSlugText (
      take-IsSlugText 120 (
        drop_last_dash-IsSlugText (
          drop_first_dash-IsSlugText (
            collapse_from-IsSlugText false (
              keep-IsSlugText (
                collapse (λ c. is_space c || c == 0x5f) dash
                  (trim (
                    u.to_lower_case
                      (filter (λ c. not (between 0x300 0x36f c)) (u.nfkd value))))))))))
