-- ===== src/Text/Equality.antt =====
-- The equality of texts.
use ai_content_operating_sys.Base.{◌≡◌, refl, true, [], ◌∷◌, arith, ==_iff, and-true}
use ai_content_operating_sys.Text.{Text, equal}

pub equal_refl : (a : Text) → equal a a ≡ true
unfolding equal
equal_refl [] = refl
equal_refl (c ∷ a) = ground (arith, equal_refl a)

pub equal-true : (a b : Text) → equal a b ≡ true → a ≡ b
unfolding equal
equal-true [] [] h = refl
equal-true [] (c ∷ b) h = absurd (ground arith)
equal-true (c ∷ a) [] h = absurd (ground arith)
equal-true (c ∷ a) (d ∷ b) h =
    let (here, rest) = and-true _ _ h in
    let e = (==_iff c d).0 here in let e' = equal-true a b rest in cc
