-- ===== src/Auth/Counters.antt =====
-- A Redis client that keeps its counters in memory.
use ai_content_operating_sys.Text.Equality.{equal_refl}
use ai_content_operating_sys.Base.{
  ℕ, suc, ◌+◌, ◌≤◌, ◌≡◌, refl, sym, ap, ◌∙◌, true, false, List, [], ◌∷◌, none, some, arith,
  Bool-cases, inl, inr, if◌then◌else◌, ltb,
}
use ai_content_operating_sys.Errors.{Result, ok, err, Failure}
use ai_content_operating_sys.Text.{Text, equal}
use ai_content_operating_sys.Auth.RateLimit.{alive, reading_of, reading, Redis}
use ai_content_operating_sys.Database.Client.{is_coded}
use ai_content_operating_sys.Database.IdentityRows.{Counter}

abbrev fresh : Text → Counter
fresh key = record { key = key; value = 1; dies_at = none }

abbrev bumped : ℕ → Counter → Counter
bumped now c = if alive now c.dies_at then record c { value = suc c.value } else fresh c.key

unfoldable pub bump : ℕ → Text → List Counter → List Counter
bump now key [] = fresh key ∷ []
bump now key (c ∷ t) =
    let rest = bump now key t in if equal c.key key then bumped now c ∷ t else c ∷ rest

abbrev delayed : ℕ → ℕ → Counter → Counter
delayed now ms c = if alive now c.dies_at then record c { dies_at = some (now + ms) } else c

unfoldable pub expire : ℕ → Text → ℕ → List Counter → List Counter
expire now key ms [] = []
expire now key ms (c ∷ t) =
    let rest = expire now key ms t in if equal c.key key then delayed now ms c ∷ t else c ∷ rest

reading_of-bumped :
    (now : ℕ) (c : Counter)
    → (reading_of now (bumped now c) ≡ suc (reading_of now c)) × ((bumped now c).key ≡ c.key)
reading_of-bumped now c = elim (Bool-cases (alive now c.dies_at)) [
  | inl on ↦ rw on (rw on (refl, refl))
  | inr off ↦ rw off (refl, refl)
]

reading-bump :
    (now : ℕ) (key : Text) (t : List Counter)
    → reading now key (bump now key t) ≡ suc (reading now key t)
unfolding reading bump
reading-bump now key [] = rw (equal_refl key) refl
reading-bump now key (c ∷ t) = elim (Bool-cases (equal c.key key)) [
  | inl same ↦
      let (more, kept) = reading_of-bumped now c in
      let same' : equal (bumped now c).key key ≡ true = ap (λ z. equal z key) kept ∙ same in
      rw same (rw same' more)
  | inr other ↦ rw other (rw other (reading-bump now key t))
]

reading_of-delayed :
    (now ms : ℕ) (c : Counter)
    → 1 ≤ ms
    → (reading_of now (delayed now ms c) ≡ reading_of now c) × ((delayed now ms c).key ≡ c.key)
reading_of-delayed now ms c h = elim (Bool-cases (alive now c.dies_at)) [
  | inl on ↦
      let later : ltb now (now + ms) ≡ true = ground arith in
      let e : delayed now ms c ≡ record c { dies_at = some (now + ms) } = rw on refl in
      let after : reading_of now (record c { dies_at = some (now + ms) }) ≡ c.value =
        rw later refl in
      let before : reading_of now c ≡ c.value = rw on refl in
      (ap (reading_of now) e ∙ after ∙ sym before, ap (λ z. z.key) e)
  | inr off ↦
      let e : delayed now ms c ≡ c = rw off refl in (ap (reading_of now) e, ap (λ z. z.key) e)
]

reading-expire :
    (now : ℕ) (key : Text) (ms : ℕ) (t : List Counter)
    → 1 ≤ ms
    → reading now key (expire now key ms t) ≡ reading now key t
unfolding reading expire
reading-expire now key ms [] h = refl
reading-expire now key ms (c ∷ t) h = elim (Bool-cases (equal c.key key)) [
  | inl same ↦
      let (more, kept) = reading_of-delayed now ms c h in
      let same' : equal (delayed now ms c).key key ≡ true = ap (λ z. equal z key) kept ∙ same in
      rw same (rw same' more)
  | inr other ↦ rw other (rw other (reading-expire now key ms t h))
]

pub incr_ok :
    (now : ℕ) (key : Text) (t t' : List Counter) (n : ℕ)
    → ◌≡◌ {A = Result (ℕ × List Counter)}
        (ok (suc (reading now key t), bump now key t))
        (ok (n, t'))
    → (n ≡ suc (reading now key t)) × (reading now key t' ≡ n)
incr_ok now key t t' n h =
    let is_n : suc (reading now key t) ≡ n = cc in
    let is_t : bump now key t ≡ t' = cc in
    (sym is_n, ap (reading now key) (sym is_t) ∙ reading-bump now key t ∙ is_n)

pub pexpire_ok :
    (now : ℕ) (key : Text) (ms : ℕ) (t t' : List Counter)
    → 1 ≤ ms
    → ◌≡◌ {A = Result (List Counter)} (ok (expire now key ms t)) (ok t')
    → reading now key t' ≡ reading now key t
pexpire_ok now key ms t t' h e =
    let is_t : expire now key ms t ≡ t' = cc in
    ap (reading now key) (sym is_t) ∙ reading-expire now key ms t h

pub incr_err :
    (now : ℕ) (key : Text) (t : List Counter) (e : Failure)
    → ◌≡◌ {A = Result (ℕ × List Counter)} (ok (suc (reading now key t), bump now key t)) (err e)
    → is_coded e ≡ false
incr_err now key t e h = absurd (ground arith)

pub pexpire_err :
    (now : ℕ) (key : Text) (ms : ℕ) (t : List Counter) (e : Failure)
    → ◌≡◌ {A = Result (List Counter)} (ok (expire now key ms t)) (err e)
    → is_coded e ≡ false
pexpire_err now key ms t e h = absurd (ground arith)

abbrev pub redis_in_memory : Redis
redis_in_memory = record {
  incr = λ now key t. ok (suc (reading now key t), bump now key t);
  pexpire = λ now key ms t. ok (expire now key ms t);
  incr-ok = incr_ok;
  pexpire-ok = pexpire_ok;
  incr-err = incr_err;
  pexpire-err = pexpire_err;
}
