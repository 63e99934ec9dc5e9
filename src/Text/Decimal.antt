-- ===== src/Text/Decimal.antt =====
-- fmt's `%d` for a number that is not negative.
use mathlib.Core.WellFounded.{Acc}
use native.Mathlib.Decide.{dec_lt}
use rascal.Prelude.{
  ℕ, zero, suc, ◌+◌, ◌-◌, ◌*◌, ◌/◌, ◌%◌, ◌≤◌, ◌<◌, ◌≡◌, refl, sym, ap, ◌∙◌, subst, [], ◌∷◌, ◌++◌,
  arith,
}
use rascal.Text.{Text, codes}

below : (k n : ℕ) → n < k → Acc ◌<◌ n
below zero n h = absurd (omega arith)
below (suc k) n h = Acc.intro n λ m lt. below k m (omega arith)

tenth_lt : (n : ℕ) → (n < 10 → ⊥) → n / 10 < n
tenth_lt n h = omega arith

-- One digit, or the last digit behind those of a tenth.
abbrev by_size : (n : ℕ) → Dec (n < 10) → ((n < 10 → ⊥) → Text) → Text
by_size n (yes _) tenth = (48 + n) ∷ []
by_size n (no h) tenth = tenth h ++ (48 + n % 10) ∷ []

digits : (n : ℕ) → Acc ◌<◌ n → Text
digits n (Acc.intro _ smaller) =
    by_size n (dec_lt n 10) (λ h. digits (n / 10) (smaller (n / 10) (tenth_lt n h)))

unfoldable pub decimal : ℕ → Text
unfolding digits below tenth_lt
decimal n = digits n (below (suc n) n (omega arith))

twelve : decimal 120 ≡ codes "120"
unfolding decimal digits below dec_lt
twelve = refl

-- The number that digits spell behind `n`.
abbrev pub value : ℕ → Text → ℕ
value n [] = n
value n (c ∷ s) = value (n * 10 + (c - 48)) s

value-append : (s t : Text) (n : ℕ) → value n (s ++ t) ≡ value (value n s) t
value-append [] t n = refl
value-append (c ∷ s) t n = value-append s t (n * 10 + (c - 48))

value-by_size :
    (n : ℕ) (d : Dec (n < 10)) (tenth : (n < 10 → ⊥) → Text)
    → ((h : n < 10 → ⊥) → value 0 (tenth h) ≡ n / 10)
    → value 0 (by_size n d tenth) ≡ n
value-by_size n (yes h) tenth k = omega arith
value-by_size n (no h) tenth k = value-append (tenth h) ((48 + n % 10) ∷ []) 0 ∙ omega (arith, k h)

value-digits : (n : ℕ) (a : Acc ◌<◌ n) → value 0 (digits n a) ≡ n
unfolding digits
value-digits n (Acc.intro _ smaller) =
    value-by_size n (dec_lt n 10) (λ h. digits (n / 10) (smaller (n / 10) (tenth_lt n h)))
      (λ h. value-digits (n / 10) (smaller (n / 10) (tenth_lt n h)))

value-decimal : (n : ℕ) → value 0 (decimal n) ≡ n
unfolding decimal
value-decimal n = value-digits n (below (suc n) n (omega arith))

-- Different numbers are printed differently.
pub decimal_injective : (m n : ℕ) → decimal m ≡ decimal n → m ≡ n
decimal_injective m n h = sym (value-decimal m) ∙ ap (value 0) h ∙ value-decimal n

abbrev pub IsDecimal : Text → Type 0
IsDecimal [] = Unit
IsDecimal (c ∷ s) = (48 ≤ c) × (c < 58) × IsDecimal s

append-IsDecimal : (s t : Text) → IsDecimal s → IsDecimal t → IsDecimal (s ++ t)
append-IsDecimal [] t _ k = k
append-IsDecimal (c ∷ s) t (a, b, h) k = (a, b, append-IsDecimal s t h k)

by_size-IsDecimal :
    (n : ℕ) (d : Dec (n < 10)) (tenth : (n < 10 → ⊥) → Text)
    → ((h : n < 10 → ⊥) → IsDecimal (tenth h))
    → IsDecimal (by_size n d tenth)
by_size-IsDecimal n (yes h) tenth k = (omega arith, omega arith, tt)
by_size-IsDecimal n (no h) tenth k =
    append-IsDecimal (tenth h) ((48 + n % 10) ∷ []) (k h) (omega arith, omega arith, tt)

digits-IsDecimal : (n : ℕ) (a : Acc ◌<◌ n) → IsDecimal (digits n a)
unfolding digits
digits-IsDecimal n (Acc.intro _ smaller) =
    by_size-IsDecimal n (dec_lt n 10) (λ h. digits (n / 10) (smaller (n / 10) (tenth_lt n h)))
      (λ h. digits-IsDecimal (n / 10) (smaller (n / 10) (tenth_lt n h)))

pub decimal-IsDecimal : (n : ℕ) → IsDecimal (decimal n)
unfolding decimal
decimal-IsDecimal n = digits-IsDecimal n (below (suc n) n (omega arith))

foreign : (sep : ℕ) (b t : Text) → IsDecimal (b ++ sep ∷ t) → 48 ≤ sep
foreign sep [] t (h, _, _) = h
foreign sep (y ∷ b) t (_, _, k) = foreign sep b t k

-- A text and digits behind a separator that is no digit are read back from both together.
pub separated :
    (sep : ℕ) (a b s t : Text)
    → sep < 48
    → IsDecimal s
    → IsDecimal t
    → a ++ sep ∷ s ≡ b ++ sep ∷ t
    → (a ≡ b) × (s ≡ t)
separated sep [] [] s t h d e q = (refl, cc)
separated sep [] (y ∷ b) s t h d e q =
    let tails : s ≡ b ++ sep ∷ t = cc in
    absurd (omega (arith, foreign sep b t (subst IsDecimal tails d)))
separated sep (x ∷ a) [] s t h d e q =
    let tails : t ≡ a ++ sep ∷ s = cc in
    absurd (omega (arith, foreign sep a s (subst IsDecimal tails e)))
separated sep (x ∷ a) (y ∷ b) s t h d e q =
    let heads : x ≡ y = cc in
    let tails : a ++ sep ∷ s ≡ b ++ sep ∷ t = cc in
    let (p, r) = separated sep a b s t h d e tails in (cc, r)
