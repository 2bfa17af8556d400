-- ===== src/Database/Reads.antt =====
-- The calls on a table that only read, and those that do not throw a coded exception.
use ai_content_operating_sys.Base.{◌≡◌, ap, refl, Bool, true, arith, Option, none, some}
use ai_content_operating_sys.Errors.{Failure, known, p2025, or_throw}
use ai_content_operating_sys.Errors.Atomic.{
  transaction-Atomic, Atomic, Reads, NeverThrows, or_throw-Reads, bind-Reads,
}
use ai_content_operating_sys.Errors.Avoids.{
  Avoids, NeverThrows-Avoids, bind-Avoids, throw-Avoids, pure-Avoids, transaction-Avoids,
}
use ai_content_operating_sys.Database.Client.{Client, is_coded}
use ai_content_operating_sys.Database.Store.{
  create, Store, Table, find_first, find_first_or_throw, find_many, update_many, update_one,
}
use ai_content_operating_sys.Database.Laws.{update_many_failed, create_failed}

module _ (db : Client) {Row : Type 0} (t : Table Row) where
  pub find_first-Reads : (p : Row → Bool) → Reads (find_first db t p)
  unfolding find_first
  find_first-Reads p = record { same = λ s. refl }

  pub find_first_or_throw-Reads : (p : Row → Bool) → Reads (find_first_or_throw db t p)
  unfolding find_first_or_throw
  find_first_or_throw-Reads p =
      bind-Reads _ _ (find_first-Reads p) (λ o. or_throw-Reads o (known p2025))

  pub find_many-Reads : (p : Row → Bool) → Reads (find_many db t p)
  unfolding find_many
  find_many-Reads p = record { same = λ s. refl }

  pub find_first-NeverThrows : (p : Row → Bool) → NeverThrows (find_first db t p)
  unfolding find_first
  find_first-NeverThrows p = record { returns = λ s. (db.find_first p (t.rows s), refl) }

  pub find_many-NeverThrows : (p : Row → Bool) → NeverThrows (find_many db t p)
  unfolding find_many
  find_many-NeverThrows p = record { returns = λ s. (db.find_many p (t.rows s), refl) }

  module _ (x : Failure) (ours : is_coded x ≡ true) where
    p2025_or_throw-Avoids : (o : Option Row) → Avoids {S = Store} x (or_throw o (known p2025))
    p2025_or_throw-Avoids (some r) = pure-Avoids x r
    p2025_or_throw-Avoids none =
        throw-Avoids x (known p2025) (λ e. let e' = ap is_coded e in absurd (ground arith))

    pub find_first_or_throw-Avoids : (p : Row → Bool) → Avoids x (find_first_or_throw db t p)
    unfolding find_first_or_throw
    find_first_or_throw-Avoids p =
        bind-Avoids x _ _ (NeverThrows-Avoids x _ (find_first-NeverThrows p)) p2025_or_throw-Avoids

    pub update_many-Avoids : (p : Row → Bool) (f : Row → Row) → Avoids x (update_many db t p f)
    update_many-Avoids p f = record {
      never = λ s u h. let (theirs, _) = update_many_failed db t p f h in absurd (ground arith);
    }

    pub update_one-Avoids : (p : Row → Bool) (f : Row → Row) → Avoids x (update_one db t p f)
    unfolding update_one
    update_one-Avoids p f =
        transaction-Avoids x _
          (bind-Avoids x _ _ (update_many-Avoids p f) (λ n. find_first_or_throw-Avoids p))

-- The calls that write one row, or nothing when they throw.
module _ (db : Client) {Row : Type 0} (t : Table Row) where
  pub create-Atomic : (clash : Row → Row → Bool) (r : Row) → Atomic (create db t clash r)
  create-Atomic clash r = record { rollback = λ s u x h. (create_failed db t clash r h) }

  pub update_one-Atomic : (q : Row → Bool) (f : Row → Row) → Atomic (update_one db t q f)
  unfolding update_one
  update_one-Atomic q f = transaction-Atomic _
