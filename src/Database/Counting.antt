-- ===== src/Database/Counting.antt =====
-- Counting the rows of a table that match a test, before and after a change.
use ai_content_operating_sys.Base.{
  ◌+◌, ◌≤◌, ◌≡◌, refl, sym, ◌∙◌, subst, Bool, true, false, not, List, [], ◌∷◌, any, count, filter,
  map, arith, Memᴰ, ap, Bool-cases, inl, inr,
}
use ai_content_operating_sys.Database.Client.{update_row}

module _ {A : Type 0} (q : A → Bool) where
  pub count_there : (xs : List A) {a : A} → Memᴰ a xs → q a ≡ true → 1 ≤ count q xs
  count_there [] m h = elim m [ ]
  count_there (x ∷ xs) (Memᴰ.head e) h =
      let h' : q x ≡ true = subst (λ z. q z ≡ true) e h in ground arith
  count_there (x ∷ xs) (Memᴰ.tail m) h = ground (arith, count_there xs m h)

  -- At most one row counted: two that are there are the same.
  pub at_most_one :
      (xs : List A) {a b : A}
      → count q xs ≤ 1
      → Memᴰ a xs
      → Memᴰ b xs
      → q a ≡ true
      → q b ≡ true
      → a ≡ b
  at_most_one [] few ma mb ha hb = elim ma [ ]
  at_most_one (x ∷ xs) few (Memᴰ.head e) (Memᴰ.head e') ha hb = e ∙ sym e'
  at_most_one (x ∷ xs) few (Memᴰ.head e) (Memᴰ.tail mb) ha hb =
      let h' : q x ≡ true = subst (λ z. q z ≡ true) e ha in
      let there = count_there xs mb hb in absurd (ground arith)
  at_most_one (x ∷ xs) few (Memᴰ.tail ma) (Memᴰ.head e) ha hb =
      let h' : q x ≡ true = subst (λ z. q z ≡ true) e hb in
      let there = count_there xs ma ha in absurd (ground arith)
  at_most_one (x ∷ xs) few (Memᴰ.tail ma) (Memᴰ.tail mb) ha hb =
      at_most_one xs (ground arith) ma mb ha hb

module _ {A : Type 0} (p q : A → Bool) where
  -- Rows taken away, at most as many as match.
  pub count-filter : (xs : List A) → count p xs ≤ count p (filter (λ x. not (q x)) xs) + count q xs
  count-filter [] = omega arith
  count-filter (x ∷ xs) = ground (arith, count-filter xs)

  pub count-filter_kept :
      (xs : List A)
      → ((x : A) → Memᴰ x xs → q x ≡ true → p x ≡ false)
      → count p xs ≤ count p (filter (λ x. not (q x)) xs)
  count-filter_kept [] h = omega arith
  count-filter_kept (x ∷ xs) h =
      let here = h x (Memᴰ.head refl) in
      let rest = count-filter_kept xs (λ y m. h y (Memᴰ.tail m)) in ground arith

  pub count-map :
      (f : A → A) (xs : List A) → count p xs ≤ count p (map (update_row q f) xs) + count q xs
  count-map f [] = omega arith
  count-map f (x ∷ xs) = ground (arith, count-map f xs)

  pub count-map_kept :
      (f : A → A) (xs : List A)
      → ((x : A) → Memᴰ x xs → q x ≡ true → p x ≡ true → p (f x) ≡ true)
      → count p xs ≤ count p (map (update_row q f) xs)
  count-map_kept f [] h = omega arith
  count-map_kept f (x ∷ xs) h =
      let here = h x (Memᴰ.head refl) in
      let rest = count-map_kept f xs (λ y m. h y (Memᴰ.tail m)) in ground arith

  -- No more rows match than before, where a changed row that matches did before.
  pub count-map_less :
      (f : A → A) (xs : List A)
      → ((x : A) → Memᴰ x xs → q x ≡ true → p (f x) ≡ true → p x ≡ true)
      → count p (map (update_row q f) xs) ≤ count p xs
  count-map_less f [] h = omega arith
  count-map_less f (x ∷ xs) h =
      let here = h x (Memᴰ.head refl) in
      let rest = count-map_less f xs (λ y m. h y (Memᴰ.tail m)) in ground arith

  -- A test that implies another counts no more.
  pub count_implied :
      (xs : List A) → ((x : A) → Memᴰ x xs → p x ≡ true → q x ≡ true) → count p xs ≤ count q xs
  count_implied [] h = omega arith
  count_implied (x ∷ xs) h =
      let here = h x (Memᴰ.head refl) in
      let rest = count_implied xs (λ y m. h y (Memᴰ.tail m)) in ground arith

  -- The changed rows are all that match more.
  pub count-map_more :
      (f : A → A) (xs : List A) → count p (map (update_row q f) xs) ≤ count p xs + count q xs
  count-map_more f [] = omega arith
  count-map_more f (x ∷ xs) = ground (arith, count-map_more f xs)

  -- The rows that a change clears.
  pub count-map_none :
      (f : A → A) (xs : List A)
      → ((x : A) → q x ≡ true → p (f x) ≡ false)
      → ((x : A) → q x ≡ false → p x ≡ false)
      → count p (map (update_row q f) xs) ≡ 0
  count-map_none f [] h k = refl
  count-map_none f (x ∷ xs) h k =
      let here = h x in let there = k x in let rest = count-map_none f xs h k in ground arith

-- A change of no row.
pub count-zero_map :
    {A : Type 0} (q : A → Bool) (f : A → A) (xs : List A)
    → count q xs ≡ 0
    → map (update_row q f) xs ≡ xs
count-zero_map q f [] h = refl
count-zero_map q f (x ∷ xs) h = elim (Bool-cases (q x)) [
  | inl hit ↦ absurd (ground arith)
  | inr miss ↦ let rest = count-zero_map q f xs (ground arith) in rw miss (ap (λ z. x ∷ z) rest)
]

pub there-any :
    {A : Type 0} (p : A → Bool) (xs : List A) {x : A} → Memᴰ x xs → p x ≡ true → any p xs ≡ true
there-any p [] m h = elim m [ ]
there-any p (y ∷ xs) (Memᴰ.head e) h =
    let h' : p y ≡ true = subst (λ z. p z ≡ true) e h in ground arith
there-any p (y ∷ xs) (Memᴰ.tail m) h = ground (arith, there-any p xs m h)

-- A change that a test does not read.
pub any-map_same :
    {A : Type 0} (p q : A → Bool) (f : A → A) (xs : List A)
    → ((x : A) → p (f x) ≡ p x)
    → any p (map (update_row q f) xs) ≡ any p xs
any-map_same p q f [] h = refl
any-map_same p q f (x ∷ xs) h = let here = h x in let rest = any-map_same p q f xs h in ground arith
