-- ===== src/Database/Client.antt =====
-- The operations of a Prisma model delegate that the services call, over the rows of a table, and
-- what the services rely on. A call that throws has changed nothing.
use ai_content_operating_sys.Base.{
  ℕ, ◌≡◌, refl, Bool, true, false, List, [], ◌∷◌, map, Option, none, some, any, find, count, Memᴰ,
  if◌then◌else◌, arith, Bool-cases, inl, inr, filter, not, sym, subst,
}
use ai_content_operating_sys.Errors.{Failure, Result, ok, err, coded, known, p2002}

-- `updateMany({ where, data })` on one row
abbrev pub update_row {ℓ} : {Row : Type ℓ} → (Row → Bool) → (Row → Row) → Row → Row
update_row p f r = if p r then f r else r

-- An exception of the services, which the client never throws.
abbrev pub is_coded : Failure → Bool
is_coded (coded _ _) = true
is_coded _ = false

-- `clash a b`: a unique constraint of the schema forbids both rows.
pub record Client : Type 1 where
  pub find_first : {Row : Type 0} → (Row → Bool) → List Row → Option Row
  pub count_rows : {Row : Type 0} → (Row → Bool) → List Row → ℕ
  pub update_many : {Row : Type 0} → (Row → Bool) → (Row → Row) → List Row → Result (ℕ × List Row)
  pub create : {Row : Type 0} → (Row → Row → Bool) → Row → List Row → Result (List Row)
  pub find_many : {Row : Type 0} → (Row → Bool) → List Row → List Row
  pub delete_many : {Row : Type 0} → (Row → Bool) → List Row → Result (List Row)
  pub find_first-some :
      {Row : Type 0} (p : Row → Bool) (t : List Row) (r : Row)
      → find_first p t ≡ some r
      → Memᴰ r t × (p r ≡ true)
  pub find_first-none :
      {Row : Type 0} (p : Row → Bool) (t : List Row) → find_first p t ≡ none → any p t ≡ false
  pub count_rows-eq : {Row : Type 0} (p : Row → Bool) (t : List Row) → count_rows p t ≡ count p t
  pub update_many-ok :
      {Row : Type 0} (p : Row → Bool) (f : Row → Row) (t t' : List Row) (n : ℕ)
      → update_many p f t ≡ ok (n, t')
      → (n ≡ count p t) × (t' ≡ map (update_row p f) t)
  pub update_many-err :
      {Row : Type 0} (p : Row → Bool) (f : Row → Row) (t : List Row) (e : Failure)
      → update_many p f t ≡ err e
      → is_coded e ≡ false
  pub find_many-Memᴰ :
      {Row : Type 0} (p : Row → Bool) (t : List Row) {r : Row}
      → Memᴰ r (find_many p t)
      → Memᴰ r t × (p r ≡ true)
  pub Memᴰ-find_many :
      {Row : Type 0} (p : Row → Bool) (t : List Row) {r : Row}
      → Memᴰ r t
      → p r ≡ true
      → Memᴰ r (find_many p t)
  pub create-ok :
      {Row : Type 0} (clash : Row → Row → Bool) (r : Row) (t t' : List Row)
      → create clash r t ≡ ok t'
      → (t' ≡ r ∷ t) × (any (clash r) t ≡ false)
  pub delete_many-ok :
      {Row : Type 0} (p : Row → Bool) (t t' : List Row)
      → delete_many p t ≡ ok t'
      → t' ≡ filter (λ r. not (p r)) t

abbrev pub create_in_memory :
    {Row : Type 0} → (Row → Row → Bool) → Row → List Row → Result (List Row)
create_in_memory clash r t = if any (clash r) t then err (known p2002) else ok (r ∷ t)

pub find-some :
    {Row : Type 0} (p : Row → Bool) (t : List Row) (r : Row)
    → find p t ≡ some r
    → Memᴰ r t × (p r ≡ true)
find-some p [] r h = absurd (ground arith)
find-some p (x ∷ t) r h = elim (Bool-cases (p x)) [
  | inl here ↦ let e : x ≡ r = ground arith in (Memᴰ.head (sym e), rw e at here)
  | inr later ↦ let (m, q) = find-some p t r (ground arith) in (Memᴰ.tail m, q)
]

pub find-none : {Row : Type 0} (p : Row → Bool) (t : List Row) → find p t ≡ none → any p t ≡ false
find-none p [] h = refl
find-none p (x ∷ t) h = ground (arith, find-none p t)

module _ {Row : Type 0} where
  pub update_in_memory-err :
      (p : Row → Bool) (f : Row → Row) (t : List Row) (e : Failure)
      → ◌≡◌ {A = Result (ℕ × List Row)} (ok (count p t, map (update_row p f) t)) (err e)
      → is_coded e ≡ false
  update_in_memory-err p f t e h = absurd (ground arith)

  kept :
      (p : Row → Bool) (x : Row) (t : List Row) {r : Row}
      → p x ≡ true
      → (Memᴰ r (filter p t) → Memᴰ r t × (p r ≡ true))
      → Memᴰ r (x ∷ filter p t)
      → Memᴰ r (x ∷ t) × (p r ≡ true)
  kept p x t here rest (Memᴰ.head e) = (Memᴰ.head e, subst (λ z. p z ≡ true) (sym e) here)
  kept p x t here rest (Memᴰ.tail m) = let (n, q) = rest m in (Memᴰ.tail n, q)

  pub filter-Memᴰ :
      (p : Row → Bool) (t : List Row) {r : Row} → Memᴰ r (filter p t) → Memᴰ r t × (p r ≡ true)
  filter-Memᴰ p [] m = elim m [ ]
  filter-Memᴰ p (x ∷ t) {r} m = elim (Bool-cases (p x)) [
    | inl here ↦ kept p x t here (filter-Memᴰ p t) (rw here at m)
    | inr gone ↦ let (n, q) = filter-Memᴰ p t (rw gone at m) in (Memᴰ.tail n, q)
  ]

  pub Memᴰ-filter :
      (p : Row → Bool) (t : List Row) {r : Row} → Memᴰ r t → p r ≡ true → Memᴰ r (filter p t)
  Memᴰ-filter p [] m h = elim m [ ]
  Memᴰ-filter p (x ∷ t) (Memᴰ.head e) h =
      let here : p x ≡ true = subst (λ z. p z ≡ true) e h in rw here (Memᴰ.head e)
  Memᴰ-filter p (x ∷ t) (Memᴰ.tail m) h =
      let n = Memᴰ-filter p t m h in
      elim (Bool-cases (p x)) [ inl here ↦ rw here (Memᴰ.tail n) | inr gone ↦ rw gone n ]

  pub update_in_memory-ok :
      (p : Row → Bool) (f : Row → Row) (t t' : List Row) (n : ℕ)
      → ◌≡◌ {A = Result (ℕ × List Row)} (ok (count p t, map (update_row p f) t)) (ok (n, t'))
      → (n ≡ count p t) × (t' ≡ map (update_row p f) t)
  update_in_memory-ok p f t t' n h = (cc, cc)

  pub delete_in_memory-ok :
      (p : Row → Bool) (t t' : List Row)
      → ◌≡◌ {A = Result (List Row)} (ok (filter (λ r. not (p r)) t)) (ok t')
      → t' ≡ filter (λ r. not (p r)) t
  delete_in_memory-ok p t t' h = cc

  pub create_in_memory-ok :
      (clash : Row → Row → Bool) (r : Row) (t t' : List Row)
      → create_in_memory clash r t ≡ ok t'
      → (t' ≡ r ∷ t) × (any (clash r) t ≡ false)
  create_in_memory-ok clash r t t' h = elim (Bool-cases (any (clash r) t)) [
    | inl taken ↦
        let h' : ◌≡◌ {A = Result (List Row)} (err (known p2002)) (ok t') = rw taken at h in cc
    | inr free ↦
        let h' : ◌≡◌ {A = Result (List Row)} (ok (r ∷ t)) (ok t') = rw free at h in (cc, free)
  ]

-- A client that keeps its tables in memory meets the laws.
abbrev pub in_memory : Client
in_memory = record {
  find_first = find;
  count_rows = count;
  update_many = λ p f t. ok (count p t, map (update_row p f) t);
  create = create_in_memory;
  delete_many = λ p t. ok (filter (λ r. not (p r)) t);
  find_many = filter;
  find_first-some = find-some;
  find_first-none = find-none;
  count_rows-eq = λ p t. refl;
  update_many-ok = update_in_memory-ok;
  update_many-err = update_in_memory-err;
  find_many-Memᴰ = filter-Memᴰ;
  Memᴰ-find_many = Memᴰ-filter;
  create-ok = create_in_memory-ok;
  delete_many-ok = delete_in_memory-ok;
}
