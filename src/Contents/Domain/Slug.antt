-- ===== src/Contents/Domain/Slug.antt =====
-- content-domain.ts `normalizeContentSlug`.
use ai_content_operating_sys.Base.{ℕ, Bool, not, ◌&&◌, ◌||◌, [], ◌∷◌, filter, ◌==◌, if◌then◌else◌}
use ai_content_operating_sys.Text.{
  Text, Unicode, is_empty, is_space, between, trim, collapse, keep, take,
}

abbrev pub dash : ℕ
dash = 0x2d

abbrev pub is_dash : ℕ → Bool
is_dash c = c == dash

-- `.replace(/-$/, '')`: one dash at the end
unfoldable pub drop_last_dash : Text → Text
drop_last_dash [] = []
drop_last_dash (c ∷ s) =
    let rest = drop_last_dash s in if is_dash c && is_empty s then [] else c ∷ rest

abbrev pub drop_first_dash : Text → Text
drop_first_dash [] = []
drop_first_dash (c ∷ s) = if is_dash c then s else c ∷ s

-- the characters left, before the dashes are gathered
unfoldable pub slug_characters : Unicode → Text → Text
unfolding trim collapse keep is_space
slug_characters u value =
    keep (λ c. u.is_letter_or_number c || is_dash c)
      (collapse (λ c. is_space c || c == 0x5f) dash
        (trim (u.to_lower_case (filter (λ c. not (between 0x300 0x36f c)) (u.nfkd value)))))

unfoldable pub normalize_content_slug : Unicode → Text → Text
unfolding slug_characters collapse drop_last_dash take
normalize_content_slug u value =
    drop_last_dash (
      take 120 (drop_last_dash (drop_first_dash (collapse is_dash dash (slug_characters u value)))))
