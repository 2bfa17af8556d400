-- ===== src/Errors/Atomic.antt =====
-- Calls that only read, calls that never throw, and calls that write nothing when they throw.
use ai_content_operating_sys.Base.{
  ◌≡◌, refl, sym, ap, ◌∙◌, Bool, true, false, Option, none, some, arith, ◌⊎◌, inl, inr,
  if◌then◌else◌,
}
use ai_content_operating_sys.Errors.{
  Result, ok, err, Failure, Action, pure, throw, throw_if, or_throw, and_then, ◌>>=◌, transaction,
  commit-eq-err, rescue, catch, Result-cases,
}

module _ {S A : Type 0} where
  pub record Reads (m : Action S A) : Type 0 where
    pub same : (s : S) → (m s).1 ≡ s

  pub record NeverThrows (m : Action S A) : Type 0 where
    pub returns : (s : S) → (a : A) × ((m s).0 ≡ ok a)

  pub record Atomic (m : Action S A) : Type 0 where
    pub rollback : (s t : S) (e : Failure) → m s ≡ (err e, t) → t ≡ s

module _ {S A : Type 0} where
  pub Reads-Atomic : (m : Action S A) → Reads m → Atomic m
  Reads-Atomic m reads = record {
    rollback = λ s t e h. let q : (m s).1 ≡ t = ap (λ z. z.1) h in sym q ∙ reads.same s;
  }

  pub read_only : (m : Action S A) {s t : S} {r : Result A} → Reads m → m s ≡ (r, t) → t ≡ s
  read_only m {s} {t} reads h = let q : (m s).1 ≡ t = ap (λ z. z.1) h in sym q ∙ reads.same s

  pub pure-Reads : (a : A) → Reads {S = S} (pure a)
  pure-Reads a = record { same = λ s. refl }

  pub throw-Reads : (e : Failure) → Reads {S = S} {A = A} (throw e)
  throw-Reads e = record { same = λ s. refl }

  pub or_throw-Reads : (o : Option A) (e : Failure) → Reads {S = S} (or_throw o e)
  or_throw-Reads none e = record { same = λ s. refl }
  or_throw-Reads (some a) e = record { same = λ s. refl }

  pub pure-NeverThrows : (a : A) → NeverThrows {S = S} (pure a)
  pure-NeverThrows a = record { returns = λ s. (a, refl) }

  pub transaction-Atomic : (m : Action S A) → Atomic (transaction m)
  transaction-Atomic m = record { rollback = λ s t e h. commit-eq-err s (m s) h }

pub throw_if-Reads : {S : Type 0} (c : Bool) (e : Failure) → Reads {S = S} (throw_if c e)
throw_if-Reads c e = record { same = λ s. refl }

-- A step that threw ended the call.
pub threw :
    {S A B : Type 0} (f : A → Action S B) (r : Result A × S) {t : S} {e : Failure}
    → and_then f r ≡ (err e, t)
    → (r ≡ (err e, t)) ⊎ ((a : A) × (u : S) × (r ≡ (ok a, u)) × (f a u ≡ (err e, t)))
unfolding and_then
threw f (ok a, u) h = inr (a, u, refl, h)
threw f (err x, u) h = inl (ground arith)

module _ {S A B : Type 0} (m : Action S A) (f : A → Action S B) where
  pub bind-Reads : Reads m → ((a : A) → Reads (f a)) → Reads (m >>= f)
  unfolding and_then
  bind-Reads first rest = record {
    same = λ s. elim (Result-cases (m s)) [
      | inl (a, u, e) ↦
          let q : u ≡ s = sym (ap (λ z. z.1) e) ∙ first.same s in rw e ((rest a).same u ∙ q)
      | inr (x, u, e) ↦ let q : u ≡ s = sym (ap (λ z. z.1) e) ∙ first.same s in rw e q
    ];
  }

  -- A read, then an atomic call.
  pub bind-Atomic : Reads m → ((a : A) → Atomic (f a)) → Atomic (m >>= f)
  bind-Atomic first rest = record {
    rollback = λ s t e h. elim (threw f (m s) h) [
      | inl r ↦ (Reads-Atomic m first).rollback s t e r
      | inr (a, u, r, k) ↦
          let q : u ≡ s = sym (ap (λ z. z.1) r) ∙ first.same s in (rest a).rollback u t e k ∙ q
    ];
  }

  -- An atomic call, then what never throws.
  pub then-Atomic : Atomic m → ((a : A) → NeverThrows (f a)) → Atomic (m >>= f)
  then-Atomic first rest = record {
    rollback = λ s t e h. elim (threw f (m s) h) [
      | inl r ↦ first.rollback s t e r
      | inr (a, u, r, k) ↦
          let (b, q) = (rest a).returns u in
          let z : (f a u).0 ≡ err e = ap (λ z. z.0) k in absurd (ground arith)
    ];
  }

  pub bind-NeverThrows : NeverThrows m → ((a : A) → NeverThrows (f a)) → NeverThrows (m >>= f)
  unfolding and_then
  bind-NeverThrows first rest = record {
    returns = λ s. elim (Result-cases (m s)) [
      | inl (a, u, e) ↦ rw e ((rest a).returns u)
      | inr (x, u, e) ↦
          let (b, q) = first.returns s in
          let z : (m s).0 ≡ err x = ap (λ z. z.0) e in absurd (ground arith)
    ];
  }

pub if-Reads :
    {S A : Type 0} (c : Bool) (m n : Action S A) → Reads m → Reads n → Reads (if c then m else n)
if-Reads true m n p q = p
if-Reads false m n p q = q

pub if-NeverThrows :
    {S A : Type 0} (c : Bool) (m n : Action S A)
    → NeverThrows m
    → NeverThrows n
    → NeverThrows (if c then m else n)
if-NeverThrows true m n p q = p
if-NeverThrows false m n p q = q

pub if-Atomic :
    {S A : Type 0} (c : Bool) (m n : Action S A) → Atomic m → Atomic n → Atomic (if c then m else n)
if-Atomic true m n p q = p
if-Atomic false m n p q = q

-- A handler that only reads keeps a call atomic.
pub catch-Atomic :
    {S A : Type 0} (m : Action S A) (h : Failure → Action S A)
    → Atomic m
    → ((e : Failure) → Reads (h e))
    → Atomic (catch m h)
unfolding rescue
catch-Atomic m h body reads = record {
  rollback = λ s t e k. elim (Result-cases (m s)) [
    | inl (a, u, q) ↦ absurd (ground arith)
    | inr (x, u, q) ↦
        let z : h x u ≡ (err e, t) = rw q at k in
        let here : t ≡ u = (Reads-Atomic (h x) (reads x)).rollback u t e z in
        here ∙ body.rollback s u x q
  ];
}
