-- ===== src/Audit.antt =====
-- apps/api/src/common/audit/audit.service.ts: the audit trail.

use ai_content_operating_sys.Base.{◌≡◌, refl, ap, subst, ◌∙◌, Bool, false, arith, inl, inr}
use ai_content_operating_sys.Errors.{
  Action, ok, pure, catch, and_then, rescue, ◌>>=◌, ◌>>◌, Result-cases, steps, and_then-Steps,
}
use ai_content_operating_sys.Database.Client.{Client}
use ai_content_operating_sys.Database.IdentityRows.{AuditLog}
use ai_content_operating_sys.Database.Store.{Store, audit_log, create}
use ai_content_operating_sys.Database.Laws.{create_done, create_failed}

abbrev no_clash : AuditLog → AuditLog → Bool
no_clash _ _ = false

-- `record`: an error of the database is logged and swallowed.
unfoldable pub record_audit : Client → AuditLog → Action Store (Unit {0})
unfolding and_then rescue
record_audit db entry = catch (create db audit_log no_clash entry >>= λ _. pure tt) (λ _. pure tt)

-- What an audited store shares with the store before.
pub record SameData (s t : Store) : Type 0 where
  pub others : t ≡ record s { audit_logs = t.audit_logs }

-- Recording returns, and changes no table but the audit log.
pub record_audit-SameData :
    (db : Client) (entry : AuditLog) (s : Store)
    → ((record_audit db entry s).0 ≡ ok tt) × SameData s (record_audit db entry s).1
unfolding record_audit
record_audit-SameData db entry s = elim (Result-cases (create db audit_log no_clash entry s)) [
  | inl (r, t, e) ↦
      let (_, grown, _) = create_done db audit_log no_clash entry e in
      rw e (refl, record { others = ground arith })
  | inr (x, t, e) ↦
      let same = create_failed db audit_log no_clash entry e in
      rw e (refl, record { others = ground arith })
]

-- The same, of a call that returned.
pub record_audit_done :
    (db : Client) (entry : AuditLog) {s t : Store} {x : Unit {0}}
    → record_audit db entry s ≡ (ok x, t)
    → SameData s t
record_audit_done db entry {s} {t} h =
    subst (SameData s) (ap (λ z. z.1) h) (record_audit-SameData db entry s).1

pub SameData-trans : {s t u : Store} → SameData s t → SameData t u → SameData s u
SameData-trans {s} {t} {u} p q =
    let change : Store → Store = λ x. record x { audit_logs = u.audit_logs } in
    let e : change t ≡ change s = ap change p.others in record { others = q.others ∙ e }

-- A call that changes no table but the audit log.
pub record Quiet {A : Type 0} (m : Action Store A) : Type 0 where
  pub same : (s : Store) → SameData s (m s).1

pub SameData-refl : (s : Store) → SameData s s
SameData-refl s = record { others = refl }

pub record_audit-Quiet : (db : Client) (entry : AuditLog) → Quiet (record_audit db entry)
record_audit-Quiet db entry = record { same = λ s. (record_audit-SameData db entry s).1 }

pub pure-Quiet : {A : Type 0} (a : A) → Quiet (pure a)
pure-Quiet a = record { same = λ s. record { others = refl } }

pub then_Quiet :
    {B : Type 0} (m : Action Store (Unit {0})) (k : Action Store B)
    → Quiet m
    → Quiet k
    → Quiet (m >> k)
unfolding and_then
then_Quiet m k first rest = record {
  same = λ s. elim (Result-cases (m s)) [
    | inl (a, u, e) ↦
        let h : SameData s u = subst (λ z. SameData s z.1) e (first.same s) in
        rw e (SameData-trans h (rest.same u))
    | inr (x, u, e) ↦ let h : SameData s u = subst (λ z. SameData s z.1) e (first.same s) in rw e h
  ];
}

-- The entries at the end of a call.
pub finished :
    {B : Type 0} (m : Action Store (Unit {0})) (b : B) {s t : Store} {b' : B}
    → Quiet m
    → and_then (λ _. pure b) (m s) ≡ (ok b', t)
    → (b ≡ b') × SameData s t
finished m b {s} {t} quiet h = elim (and_then-Steps _ _ h) [
  | steps _ u e k ↦
      let here : SameData s u = subst (λ z. SameData s z.1) e (quiet.same s) in
      (cc, subst (SameData s) (ap (λ z. z.1) k) here)
]
