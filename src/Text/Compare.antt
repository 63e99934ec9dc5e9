-- ===== src/Text/Compare.antt =====
-- The order of strings, cmp.Compare. UTF-8 keeps the order of the code points.
use rascal.Prelude.{◌≡◌, refl, Bool, true, false, ◌&&◌, ◌||◌, [], ◌∷◌, ltb, ◌==◌, arith}
use rascal.Text.{Text}

unfoldable pub text_lt : Text → Text → Bool
text_lt [] [] = false
text_lt [] (_ ∷ _) = true
text_lt (_ ∷ _) [] = false
text_lt (a ∷ s) (b ∷ t) = ltb a b || (a == b && text_lt s t)

pub lt_asym : (s t : Text) → text_lt s t ≡ true → text_lt t s ≡ false
unfolding text_lt
lt_asym [] [] h = refl
lt_asym [] (_ ∷ _) h = refl
lt_asym (_ ∷ _) [] h = cc
lt_asym (a ∷ s) (b ∷ t) h = ground (arith, lt_asym s t)

pub not_lt_chain : (s t u : Text) → text_lt s t ≡ false → text_lt t u ≡ false → text_lt s u ≡ false
unfolding text_lt
not_lt_chain [] [] u h k = k
not_lt_chain [] (_ ∷ _) u h k = cc
not_lt_chain (_ ∷ _) t [] h k = refl
not_lt_chain (_ ∷ _) [] (_ ∷ _) h k = cc
not_lt_chain (a ∷ s) (b ∷ t) (c ∷ u) h k = ground (arith, not_lt_chain s t u)

-- Texts of which neither comes first are the same.
pub not_lt_eq : (s t : Text) → text_lt s t ≡ false → text_lt t s ≡ false → s ≡ t
unfolding text_lt
not_lt_eq [] [] h k = refl
not_lt_eq [] (_ ∷ _) h k = cc
not_lt_eq (_ ∷ _) [] h k = cc
not_lt_eq (a ∷ s) (b ∷ t) h k = ground (arith, not_lt_eq s t)
