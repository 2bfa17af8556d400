-- ===== src/Database/Laws.antt =====
-- What the calls on a table do, by the laws of the client.
use ai_content_operating_sys.Base.{
  ℕ, ◌≡◌, refl, sym, ap, Bool, true, false, List, ◌∷◌, map, Option, none, some, any, count, filter,
  not, arith, ◌⊎◌, inl, inr, subst, ◌∙◌,
}
use mathlib.Core.List.Memᴰ
use mathlib.Core.List.{Memᴰ}
use ai_content_operating_sys.Errors.{Result, ok, err, Failure, steps, and_then-Steps, commit-eq-ok}
use ai_content_operating_sys.Database.Client.{Client, update_row, is_coded}
use ai_content_operating_sys.Database.Store.{
  Store, Table, find_first, find_first_or_throw, update_many, update_one, create, delete,
}

-- The result of a client's call, with its equation.
pub outcome {ℓ} :
    {A : Type ℓ} (r : Result A) → ((a : A) × (r ≡ ok a)) ⊎ ((e : Failure) × (r ≡ err e))
outcome (ok a) = inl (a, refl)
outcome (err e) = inr (e, refl)

-- Where a row of an updated table comes from.
pub Memᴰ-update_row :
    {Row : Type 0} (p : Row → Bool) (f : Row → Row) (t : List Row) {r' : Row}
    → Memᴰ r' (map (update_row p f) t)
    → (r : Row) × Memᴰ r t × (r' ≡ update_row p f r)
Memᴰ-update_row p f t m = let (r, here, e) = Memᴰ.of_map (update_row p f) t m in (r, here, sym e)

option_cases : {A : Type 0} (o : Option A) → (o ≡ none) ⊎ ((a : A) × (o ≡ some a))
option_cases none = inl refl
option_cases (some a) = inr (a, refl)

module _ (db : Client) {Row : Type 0} (t : Table Row) where
  pub find_first_found :
      (p : Row → Bool) {s u : Store} {r : Row}
      → find_first db t p s ≡ (ok (some r), u)
      → Memᴰ r (t.rows s) × (p r ≡ true) × (u ≡ s)
  unfolding find_first
  find_first_found p {s} {u} {r} h =
      let (m, q) = db.find_first-some p (t.rows s) r cc in (m, q, sym (ap (λ z. z.1) h))

  pub find_first_or_throw_found :
      (p : Row → Bool) {s u : Store} {r : Row}
      → find_first_or_throw db t p s ≡ (ok r, u)
      → Memᴰ r (t.rows s) × (p r ≡ true) × (u ≡ s)
  unfolding find_first_or_throw
  find_first_or_throw_found p {s} {u} {r} h =
      let (m, q) = db.find_first-some p (t.rows s) r (ground arith) in (m, q, ground arith)

  pub find_first_or_throw_failed :
      (p : Row → Bool) (s : Store) {u : Store} {x : Failure}
      → find_first_or_throw db t p s ≡ (err x, u)
      → any p (t.rows s) ≡ false
  unfolding find_first_or_throw
  find_first_or_throw_failed p s {u} {x} h = elim (option_cases (db.find_first p (t.rows s))) [
    | inl e ↦ db.find_first-none p (t.rows s) e
    | inr (r, e) ↦
        let h' : ◌≡◌ {A = Result Row × Store} (ok r, s) (err x, u) = rw e at h in
        absurd (ground arith)
  ]

  pub update_many_done :
      (p : Row → Bool) (f : Row → Row) {s u : Store} {n : ℕ}
      → update_many db t p f s ≡ (ok n, u)
      → (n ≡ count p (t.rows s)) × (u ≡ t.replace s (map (update_row p f) (t.rows s)))
  unfolding update_many
  update_many_done p f {s} {u} {n} h = elim (outcome (db.update_many p f (t.rows s))) [
    | inl ((k, rows), e) ↦
        let (counted, changed) = db.update_many-ok p f (t.rows s) rows k e in
        ground (arith, counted, changed)
    | inr (x, e) ↦ absurd (ground arith)
  ]

  -- An update that threw is an error of the client, and changed nothing.
  pub update_many_failed :
      (p : Row → Bool) (f : Row → Row) {s u : Store} {x : Failure}
      → update_many db t p f s ≡ (err x, u)
      → (is_coded x ≡ false) × (u ≡ s)
  unfolding update_many
  update_many_failed p f {s} {u} {x} h = elim (outcome (db.update_many p f (t.rows s))) [
    | inl (r, e) ↦ absurd (ground arith)
    | inr (y, e) ↦ let theirs = db.update_many-err p f (t.rows s) y e in ground (arith, theirs)
  ]

  pub update_one_done :
      (p : Row → Bool) (f : Row → Row) {s u : Store} {r : Row}
      → update_one db t p f s ≡ (ok r, u)
      → (u ≡ t.replace s (map (update_row p f) (t.rows s))) × Memᴰ r (t.rows u) × (p r ≡ true)
  unfolding update_one
  update_one_done p f {s} {u} {r} h = elim (and_then-Steps _ _ (commit-eq-ok _ _ h)) [
    | steps n v e k ↦
        let (_, changed) = update_many_done p f e in
        let (there, here, q) = find_first_or_throw_found p k in
        (q ∙ changed, subst (λ z. Memᴰ r (t.rows z)) (sym q) there, here)
  ]

  pub create_done :
      (clash : Row → Row → Bool) (r : Row) {s u : Store} {r' : Row}
      → create db t clash r s ≡ (ok r', u)
      → (r' ≡ r) × (u ≡ t.replace s (r ∷ t.rows s)) × (any (clash r) (t.rows s) ≡ false)
  unfolding create
  create_done clash r {s} {u} {r'} h = elim (outcome (db.create clash r (t.rows s))) [
    | inl (rows, e) ↦
        let (grown, free) = db.create-ok clash r (t.rows s) rows e in ground (arith, grown, free)
    | inr (x, e) ↦ absurd (ground arith)
  ]

  -- A call that throws has changed nothing.
  pub create_failed :
      (clash : Row → Row → Bool) (r : Row) {s u : Store} {x : Failure}
      → create db t clash r s ≡ (err x, u)
      → u ≡ s
  unfolding create
  create_failed clash r {s} {u} {x} h = elim (outcome (db.create clash r (t.rows s))) [
    | inl (rows, e) ↦ absurd (ground arith)
    | inr (y, e) ↦ ground arith
  ]

  pub delete_done :
      (p : Row → Bool) {s u : Store} {x : Unit {0}}
      → delete db t p s ≡ (ok x, u)
      → u ≡ t.replace s (filter (λ r. not (p r)) (t.rows s))
  unfolding delete
  delete_done p {s} {u} h = elim (outcome (db.delete_many p (t.rows s))) [
    | inl (rows, e) ↦ let kept = db.delete_many-ok p (t.rows s) rows e in ground (arith, kept)
    | inr (x, e) ↦ absurd (ground arith)
  ]
