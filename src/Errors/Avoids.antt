-- ===== src/Errors/Avoids.antt =====
-- Calls that do not throw a given error.
use ai_content_operating_sys.Base.{
  ◌≡◌, ◌≢◌, ap, sym, arith, inl, inr, Bool, true, false, if◌then◌else◌,
}
use ai_content_operating_sys.Errors.{
  Failure, Result, err, Action, pure, throw_if, throw, transaction, commit, ◌>>=◌, Result-cases,
}
use ai_content_operating_sys.Errors.Atomic.{NeverThrows, threw}

pub record Avoids {S A : Type 0} (x : Failure) (m : Action S A) : Type 0 where
  pub never : (s t : S) → ¬ (m s ≡ (err x, t))

module _ {S A B : Type 0} (x : Failure) where
  pub bind-Avoids :
      (m : Action S A) (f : A → Action S B)
      → Avoids x m
      → ((a : A) → Avoids x (f a))
      → Avoids x (m >>= f)
  bind-Avoids m f first rest = record {
    never = λ s t h. elim (threw f (m s) h) [
      | inl r ↦ first.never s t r
      | inr (a, u, r, k) ↦ (rest a).never u t k
    ];
  }

module _ {S A : Type 0} (x : Failure) where
  pub NeverThrows-Avoids : (m : Action S A) → NeverThrows m → Avoids x m
  NeverThrows-Avoids m quiet = record {
    never = λ s t h.
        let (a, q) = quiet.returns s in
        let z : (m s).0 ≡ err x = ap (λ y. y.0) h in absurd (ground arith);
  }

  pub pure-Avoids : (a : A) → Avoids {S = S} x (pure a)
  pure-Avoids a = record { never = λ s t h. absurd (ground arith) }

  pub throw-Avoids : (y : Failure) → x ≢ y → Avoids {S = S} {A = A} x (throw y)
  throw-Avoids y ne = record {
    never = λ s t h.
        let e : ◌≡◌ {A = Result A} (err y) (err x) = ap (λ z. z.0) h in
        let e' : y ≡ x = cc in ne (sym e');
  }

  pub if-Avoids :
      (c : Bool) (m n : Action S A) → Avoids x m → Avoids x n → Avoids x (if c then m else n)
  if-Avoids true m n p q = p
  if-Avoids false m n p q = q

  pub transaction-Avoids : (m : Action S A) → Avoids x m → Avoids x (transaction m)
  unfolding commit
  transaction-Avoids m body = record {
    never = λ s t h. elim (Result-cases (m s)) [
      | inl (a, u, e) ↦ absurd (ground arith)
      | inr (y, u, e) ↦ let k : m s ≡ (err x, u) = ground arith in body.never s u k
    ];
  }

pub throw_if-Avoids :
    {S : Type 0} (x : Failure) (c : Bool) (y : Failure) → x ≢ y → Avoids {S = S} x (throw_if c y)
throw_if-Avoids x true y ne = throw-Avoids x y ne
throw_if-Avoids x false y ne = pure-Avoids x tt
