-- ===== src/Contents/Domain/Order.antt =====
-- The order of the labels of a content (content-domain.ts).
use ai_content_operating_sys.Base.{
  ◌≤◌, ◌≡◌, refl, sym, ap, ◌∙◌, Bool, true, false, not, ◌&&◌, ◌||◌, List, [], ◌∷◌, map, filter, any,
  length, ltb, arith, subst,
}
use ai_content_operating_sys.Errors.{ok, steps, and_then-Steps, passed}
use ai_content_operating_sys.Text.{Text, Unicode, is_empty, before, equal}
use ai_content_operating_sys.Database.Store.{Store}
use ai_content_operating_sys.Contents.Domain.Labels.{
  normal_label, distinct, insert, sort, normalize_content_labels,
}
use ai_content_operating_sys.Contents.Fields.{valid_labels}

abbrev pub is_sorted : List Text → Bool
is_sorted [] = true
is_sorted (x ∷ []) = true
is_sorted (x ∷ y ∷ ys) = not (before y x) && is_sorted (y ∷ ys)

abbrev pub is_distinct : List Text → Bool
is_distinct [] = true
is_distinct (x ∷ xs) = not (any (equal x) xs) && is_distinct xs

before_asym : (a b : Text) → before a b ≡ true → before b a ≡ false
unfolding before
before_asym [] [] h = refl
before_asym [] (d ∷ t) h = refl
before_asym (c ∷ s) [] h = absurd (ground arith)
before_asym (c ∷ s) (d ∷ t) h = ground (arith, before_asym s t)

equal_sym : (a b : Text) → equal a b ≡ equal b a
unfolding equal
equal_sym [] [] = refl
equal_sym [] (d ∷ t) = refl
equal_sym (c ∷ s) [] = refl
equal_sym (c ∷ s) (d ∷ t) = ground (arith, equal_sym s t)

insert_sorted : (x : Text) (l : List Text) → is_sorted l ≡ true → is_sorted (insert x l) ≡ true
unfolding insert
insert_sorted x [] h = refl
insert_sorted x (y ∷ []) h = ground (arith, before_asym y x)
insert_sorted x (y ∷ z ∷ l) h = ground (arith, before_asym y x, insert_sorted x (z ∷ l))

sort_sorted : (l : List Text) → is_sorted (sort l) ≡ true
unfolding sort
sort_sorted [] = refl
sort_sorted (x ∷ l) = insert_sorted x (sort l) (sort_sorted l)

any-insert : (p : Text → Bool) (x : Text) (l : List Text) → any p (insert x l) ≡ (p x || any p l)
unfolding insert
any-insert p x [] = refl
any-insert p x (y ∷ l) = ground (arith, any-insert p x l)

insert_distinct :
    (x : Text) (l : List Text)
    → any (equal x) l ≡ false
    → is_distinct l ≡ true
    → is_distinct (insert x l) ≡ true
unfolding insert
insert_distinct x [] h d = refl
insert_distinct x (y ∷ l) h d =
    ground (arith, insert_distinct x l, any-insert (equal y) x l, equal_sym x y)

any-sort : (p : Text → Bool) (l : List Text) → any p (sort l) ≡ any p l
unfolding sort
any-sort p [] = refl
any-sort p (x ∷ l) = any-insert p x (sort l) ∙ ap (λ z. p x || z) (any-sort p l)

sort_distinct : (l : List Text) → is_distinct l ≡ true → is_distinct (sort l) ≡ true
unfolding sort
sort_distinct [] h = refl
sort_distinct (x ∷ l) h =
    insert_distinct x (sort l) (any-sort (equal x) l ∙ ground arith)
      (sort_distinct l (ground arith))

distinct-is_distinct : (l : List Text) → is_distinct (distinct l) ≡ true
unfolding distinct
distinct-is_distinct [] = refl
distinct-is_distinct (x ∷ l) = ground (arith, distinct-is_distinct l)

normal_sorted :
    (u : Unicode) (value : List Text) → is_sorted (normalize_content_labels u value) ≡ true
unfolding normalize_content_labels
normal_sorted u value =
    sort_sorted (distinct (filter (λ l. not (is_empty l)) (map (normal_label u) value)))

normal_distinct :
    (u : Unicode) (value : List Text) → is_distinct (normalize_content_labels u value) ≡ true
unfolding normalize_content_labels
normal_distinct u value =
    let kept = filter (λ l. not (is_empty l)) (map (normal_label u) value) in
    sort_distinct (distinct kept) (distinct-is_distinct kept)

neither : (a b : Bool) → (a || b) ≡ false → (a ≡ false) × (b ≡ false)
neither a b h = ground arith

-- Labels that are accepted are at most 30, of at most 80 units each, sorted and distinct.
pub valid_labels_lem :
    (u : Unicode) (value : List Text) {s t : Store} {labels : List Text}
    → valid_labels u value s ≡ (ok labels, t)
    → (is_sorted labels ≡ true)
      × (is_distinct labels ≡ true)
      × (length labels ≤ 30)
      × (any (λ label. ltb 80 (length label)) labels ≡ false)
      × (t ≡ s)
unfolding valid_labels
valid_labels_lem u value {s} {t} {labels} h = elim (and_then-Steps _ _ h) [
  | steps _ v e k ↦
      let (fine, q) = passed _ _ e in
      let is_labels : normalize_content_labels u value ≡ labels = cc in
      let (few, short) = neither _ _ fine in
      (
        subst (λ z. is_sorted z ≡ true) is_labels (normal_sorted u value),
        subst (λ z. is_distinct z ≡ true) is_labels (normal_distinct u value),
        subst (λ z. length z ≤ 30) is_labels (ground arith),
        subst (λ z. any (λ label. ltb 80 (length label)) z ≡ false) is_labels short,
        sym (ap (λ z. z.1) k) ∙ q,
      )
]
