-- ===== src/Contents/Domain/Labels.antt =====
-- content-domain.ts `normalizeContentLabels`: normal forms, without duplicates, sorted.
use ai_content_operating_sys.Base.{not, List, [], ◌∷◌, map, any, filter, if◌then◌else◌}
use ai_content_operating_sys.Text.{Text, Unicode, is_empty, trim, collapse_spaces, before, equal}

-- `label.normalize('NFKC').trim().replace(/\s+/g, ' ').toLocaleLowerCase('und')`
unfoldable pub normal_label : Unicode → Text → Text
unfolding trim collapse_spaces
normal_label u label = u.to_locale_lower_case (collapse_spaces (trim (u.nfkc label)))

-- `[...new Set(xs)]`; sorting follows, so which of two equal labels stays does not show.
unfoldable pub distinct : List Text → List Text
unfolding equal
distinct [] = []
distinct (x ∷ xs) = let rest = distinct xs in if any (equal x) rest then rest else x ∷ rest

-- `.sort()`
unfoldable pub insert : Text → List Text → List Text
unfolding before
insert x [] = x ∷ []
insert x (y ∷ ys) = let rest = insert x ys in if before y x then y ∷ rest else x ∷ y ∷ ys

unfoldable pub sort : List Text → List Text
unfolding insert
sort [] = []
sort (x ∷ xs) = insert x (sort xs)

unfoldable pub normalize_content_labels : Unicode → List Text → List Text
unfolding normal_label distinct sort
normalize_content_labels u labels =
    sort (distinct (filter (λ l. not (is_empty l)) (map (normal_label u) labels)))
