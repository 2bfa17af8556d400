-- ===== src/Auth/RateLimit.antt =====
-- auth.service.ts: the limit on attempts, counted in Redis. The client of Redis is a record of its
-- two commands, with what their documentation says.
use ai_content_operating_sys.Base.{
  ℕ, suc, ◌<◌, ◌≤◌, ◌≡◌, sym, ap, ◌∙◌, Bool, true, false, List, [], ◌∷◌, ◌++◌, Option, none, some,
  ltb, ◌==◌, arith, if◌then◌else◌, inl, inr,
}
use ai_content_operating_sys.Errors.{
  Result, ok, err, Failure, Action, throw_if, ◌>>=◌, ◌>>◌, pure, coded, too_many_requests,
  rate_limit_exceeded, steps, and_then-Steps, passed,
}
use ai_content_operating_sys.Text.{Text, units, equal}
use ai_content_operating_sys.Database.Client.{is_coded}
use ai_content_operating_sys.Database.IdentityRows.{Counter}
use ai_content_operating_sys.Database.Store.{Store}
use ai_content_operating_sys.Database.Laws.{outcome}

-- A key whose time to live has not passed.
abbrev pub alive : ℕ → Option ℕ → Bool
alive now none = true
alive now (some d) = ltb now d

abbrev pub reading_of : ℕ → Counter → ℕ
reading_of now c = if alive now c.dies_at then c.value else 0

-- What a key counts; a key that is not there counts nothing.
unfoldable pub reading : ℕ → Text → List Counter → ℕ
reading now key [] = 0
reading now key (c ∷ t) =
    let rest = reading now key t in if equal c.key key then reading_of now c else rest

pub record Redis : Type 0 where
  pub incr : ℕ → Text → List Counter → Result (ℕ × List Counter)
  pub pexpire : ℕ → Text → ℕ → List Counter → Result (List Counter)
  pub incr-ok :
      (now : ℕ) (key : Text) (t t' : List Counter) (n : ℕ)
      → incr now key t ≡ ok (n, t')
      → (n ≡ suc (reading now key t)) × (reading now key t' ≡ n)
  pub pexpire-ok :
      (now : ℕ) (key : Text) (ms : ℕ) (t t' : List Counter)
      → 1 ≤ ms
      → pexpire now key ms t ≡ ok t'
      → reading now key t' ≡ reading now key t
  pub incr-err :
      (now : ℕ) (key : Text) (t : List Counter) (e : Failure)
      → incr now key t ≡ err e
      → is_coded e ≡ false
  pub pexpire-err :
      (now : ℕ) (key : Text) (ms : ℕ) (t : List Counter) (e : Failure)
      → pexpire now key ms t ≡ err e
      → is_coded e ≡ false

abbrev pub counted : Store → Result (ℕ × List Counter) → Result ℕ × Store
counted s (ok (n, t)) = (ok n, record s { counters = t })
counted s (err e) = (err e, s)

abbrev pub expiring : Store → Result (List Counter) → Result (Unit {0}) × Store
expiring s (ok t) = (ok tt, record s { counters = t })
expiring s (err e) = (err e, s)

abbrev pub rate_key : Text → Text → Text
rate_key scope identity = units "auth-rate:" ++ scope ++ units ":" ++ identity

abbrev pub limited : Failure
limited = coded too_many_requests rate_limit_exceeded

module _ (redis : Redis) (now window maximum : ℕ) where
  abbrev pub incr : Text → Action Store ℕ
  incr key s = counted s (redis.incr now key s.counters)

  abbrev pub pexpire : Text → Action Store (Unit {0})
  pexpire key s = expiring s (redis.pexpire now key window s.counters)

  -- `consumeRateLimit`
  unfoldable pub consume_rate_limit : Text → Text → Action Store (Unit {0})
  consume_rate_limit scope identity = do
    count ← incr (rate_key scope identity)
    if count == 1 then pexpire (rate_key scope identity) else pure tt
    throw_if (ltb maximum count) limited

-- Counting an attempt writes the counters only.
pub record OnlyCounters (s t : Store) : Type 0 where
  pub others : t ≡ record s { counters = t.counters }

module _ (redis : Redis) (now window maximum : ℕ) where
  incr_done :
      (key : Text) (s t : Store) {n : ℕ}
      → incr redis now window maximum key s ≡ (ok n, t)
      → (n ≡ suc (reading now key s.counters))
        × (reading now key t.counters ≡ n)
        × (t ≡ record s { counters = t.counters })
  incr_done key s t {n} h = elim (outcome (redis.incr now key s.counters)) [
    | inl ((k, rows), e) ↦
        let (counts, kept) = redis.incr-ok now key s.counters rows k e in
        ground (arith, counts, kept)
    | inr (x, e) ↦ absurd (ground arith)
  ]

  pexpire_done :
      (key : Text) (s t : Store) {x : Unit {0}}
      → 1 ≤ window
      → pexpire redis now window maximum key s ≡ (ok x, t)
      → (reading now key t.counters ≡ reading now key s.counters)
        × (t ≡ record s { counters = t.counters })
  pexpire_done key s t {x} some_time h = elim (outcome (redis.pexpire now key window s.counters)) [
    | inl (rows, e) ↦
        let kept = redis.pexpire-ok now key window s.counters rows some_time e in
        ground (arith, kept)
    | inr (y, e) ↦ absurd (ground arith)
  ]

  first_done :
      (first : Bool) (key : Text) (s t : Store) {x : Unit {0}}
      → 1 ≤ window
      → (if first then pexpire redis now window maximum key else pure tt) s ≡ (ok x, t)
      → (reading now key t.counters ≡ reading now key s.counters)
        × (t ≡ record s { counters = t.counters })
  first_done true key s t some_time h = pexpire_done key s t some_time h
  first_done false key s t some_time h = ground arith

  -- An attempt that the limit lets through is one of the first of its window, up to the maximum, and
  -- is counted, for a window that is not empty; no table of the database changes.
  pub consume_rate_limit_lem :
      (scope identity : Text) (s t : Store) {x : Unit {0}}
      → 1 ≤ window
      → consume_rate_limit redis now window maximum scope identity s ≡ (ok x, t)
      → (reading now (rate_key scope identity) s.counters < maximum)
        × (reading now (rate_key scope identity) t.counters
            ≡ suc (reading now (rate_key scope identity) s.counters))
        × OnlyCounters s t
  unfolding consume_rate_limit
  consume_rate_limit_lem scope identity s t some_time h = elim (and_then-Steps _ _ h) [
    | steps n u e k ↦ elim (and_then-Steps _ _ k) [
      | steps _ v e' k' ↦
          let key = rate_key scope identity in
          let (counts, now_n, q) = incr_done key s u e in
          let (kept, q') = first_done (n == 1) key u v some_time e' in
          let (few, q'') = passed _ _ k' in
          let q₃ : v ≡ record s { counters = v.counters } =
            q' ∙ ap (λ (z : Store). record z { counters = v.counters }) q in
          (
            ground (arith, counts, few),
            ap (λ z. reading now key z.counters) q'' ∙ kept ∙ now_n ∙ counts,
            record { others = q'' ∙ q₃ ∙ ap (λ z. record s { counters = z.counters }) (sym q'') },
          )
    ]
  ]
