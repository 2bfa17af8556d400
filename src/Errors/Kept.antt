-- ===== src/Errors/Kept.antt =====
-- What a call keeps of a store, whether it returns or throws.
use ai_content_operating_sys.Base.{◌≡◌, sym, ap, ◌∙◌, refl, subst, inl, inr}
use ai_content_operating_sys.Errors.{ok, Action, pure, ◌>>=◌, and_then, Result-cases}
use ai_content_operating_sys.Errors.Atomic.{Atomic}

-- A call that keeps a property of the store when it returns, and writes nothing when it throws.
pub kept :
    {S A : Type 0} (P : S → Type 0) (m : Action S A) (s : S)
    → Atomic m
    → ((a : A) (t : S) → m s ≡ (ok a, t) → P s → P t)
    → P s
    → P (m s).1
kept P m s atomic returns before = elim (Result-cases (m s)) [
  | inl (a, t, e) ↦ subst P (sym (ap (λ z. z.1) e)) (returns a t e before)
  | inr (x, t, e) ↦ let q = atomic.rollback s t x e in subst P (sym (ap (λ z. z.1) e ∙ q)) before
]

-- A call whose answer is dropped leaves the store that it left.
pub dropped : {S A : Type 0} (m : Action S A) (s : S) → ((m >>= λ x. pure tt) s).1 ≡ (m s).1
unfolding and_then
dropped m s = elim (Result-cases (m s)) [ inl (a, t, e) ↦ rw e refl | inr (x, t, e) ↦ rw e refl ]
