-- ===== src/Text/Laws.antt =====
-- Laws of text comparison, TrimSpace and ToLower.
use rascal.Prelude.{
  ℕ, ◌≡◌, refl, ap, ◌∙◌, ◌↔◌, Bool, true, false, ◌&&◌, List, [], ◌∷◌, arith, Bool-cases, ◌⊎◌, inl,
  inr, if◌then◌else◌,
}
use rascal.Text.{
  Text, text_eq, is_empty, is_space, lower, switch, to_lower, trim_left, trim_right, trim_space,
}

pub text_eq_refl : (s : Text) → text_eq s s ≡ true
unfolding text_eq
text_eq_refl [] = refl
text_eq_refl (c ∷ s) = ground (arith, text_eq_refl s)

pub text_eq→eq : (s t : Text) → text_eq s t ≡ true → s ≡ t
unfolding text_eq
text_eq→eq [] [] h = refl
text_eq→eq [] (_ ∷ _) h = cc
text_eq→eq (_ ∷ _) [] h = cc
text_eq→eq (a ∷ s) (b ∷ t) h = ground (arith, text_eq→eq s t)

-- The Boolean test decides equality of texts.
pub text_eq_iff : (s t : Text) → (text_eq s t ≡ true) ↔ (s ≡ t)
text_eq_iff s t = (text_eq→eq s t, λ e. rw e (text_eq_refl t))

lower-lower : (c : ℕ) → lower (lower c) ≡ lower c
unfolding lower
lower-lower c = ground arith

pub to_lower-to_lower : (s : Text) → to_lower (to_lower s) ≡ to_lower s
unfolding to_lower
to_lower-to_lower [] = refl
to_lower-to_lower (c ∷ s) = cc (lower-lower c, to_lower-to_lower s)

lower-is_space : (c : ℕ) → is_space (lower c) ≡ is_space c
unfolding lower is_space
lower-is_space c = ground arith

to_lower-trim_left : (s : Text) → to_lower (trim_left s) ≡ trim_left (to_lower s)
unfolding to_lower trim_left
to_lower-trim_left [] = refl
to_lower-trim_left (c ∷ s) = elim (Bool-cases (is_space c)) [
  | inl e ↦ rw (e, lower-is_space c, e) (to_lower-trim_left s)
  | inr e ↦ rw (e, lower-is_space c, e)
]

is_empty-to_lower : (s : Text) → is_empty (to_lower s) ≡ is_empty s
unfolding to_lower
is_empty-to_lower [] = refl
is_empty-to_lower (c ∷ s) = refl

to_lower-trim_right : (s : Text) → to_lower (trim_right s) ≡ trim_right (to_lower s)
unfolding to_lower trim_right
to_lower-trim_right [] = refl
to_lower-trim_right (c ∷ s) =
    rw (← to_lower-trim_right s, lower-is_space c, is_empty-to_lower (trim_right s))
      (push (is_empty (trim_right s) && is_space c) c (trim_right s))
  where
    push :
        (b : Bool) (c : ℕ) (t : Text)
        → to_lower (if b then [] else c ∷ t) ≡ (if b then [] else lower c ∷ to_lower t)
    push true c t = refl
    push false c t = refl

trim_left-trim_left : (s : Text) → trim_left (trim_left s) ≡ trim_left s
unfolding trim_left
trim_left-trim_left [] = refl
trim_left-trim_left (c ∷ s) = ground (arith, trim_left-trim_left s)

trim_right-trim_right : (s : Text) → trim_right (trim_right s) ≡ trim_right s
unfolding trim_right
trim_right-trim_right [] = refl
trim_right-trim_right (c ∷ s) = ground (arith, trim_right-trim_right s)

-- What TrimSpace leaves does not begin with a space.
abbrev StartsDry : Text → Type 0
StartsDry [] = Unit {0}
StartsDry (c ∷ s) = is_space c ≡ false

trim_left-StartsDry : (s : Text) → StartsDry (trim_left s)
unfolding trim_left
trim_left-StartsDry [] = tt
trim_left-StartsDry (c ∷ s) = elim (Bool-cases (is_space c)) [
  | inl e ↦ rw e (trim_left-StartsDry s)
  | inr e ↦ rw e e
]

trim_left_of_StartsDry : (s : Text) → StartsDry s → trim_left s ≡ s
unfolding trim_left
trim_left_of_StartsDry [] h = refl
trim_left_of_StartsDry (c ∷ s) h = rw h

trim_right-StartsDry : (s : Text) → StartsDry s → StartsDry (trim_right s)
unfolding trim_right
trim_right-StartsDry [] h = tt
trim_right-StartsDry (c ∷ s) h = elim (Bool-cases (is_empty (trim_right s))) [
  | inl e ↦ rw (e, h) h
  | inr e ↦ rw e h
]

-- Trimming twice is trimming once.
pub trim_space-trim_space : (s : Text) → trim_space (trim_space s) ≡ trim_space s
unfolding trim_space
trim_space-trim_space s =
    rw
      (trim_left_of_StartsDry (trim_right (trim_left s))
        (trim_right-StartsDry (trim_left s) (trim_left-StartsDry s)))
      (trim_right-trim_right (trim_left s))

-- Lower case and trimming commute.
pub to_lower-trim_space : (s : Text) → to_lower (trim_space s) ≡ trim_space (to_lower s)
unfolding trim_space
to_lower-trim_space s = to_lower-trim_right (trim_left s) ∙ ap trim_right (to_lower-trim_left s)

-- The key is the label of a case with the value `v`.
abbrev pub OneOf : {V : Type 0} → Text → V → List (Text × V) → Type 0
OneOf key v [] = ⊥
OneOf key v ((k, w) ∷ cases) = ((key ≡ k) × (w ≡ v)) ⊎ OneOf key v cases

-- What a switch returns is the value of a case that the key labels, or the default.
pub switch-OneOf :
    {V : Type 0} (key : Text) (cases : List (Text × V)) (d v : V)
    → switch key cases d ≡ v
    → OneOf key v cases ⊎ (d ≡ v)
unfolding switch
switch-OneOf key [] d v h = inr h
switch-OneOf key ((k, w) ∷ cases) d v h = elim (Bool-cases (text_eq key k)) [
  | inl e ↦ inl (inl (text_eq→eq key k e, rw e at h))
  | inr e ↦ skip (switch-OneOf key cases d v (rw e at h))
]
  where
    skip : OneOf key v cases ⊎ (d ≡ v) → OneOf key v ((k, w) ∷ cases) ⊎ (d ≡ v)
    skip (inl o) = inl (inr o)
    skip (inr o) = inr o

-- Texts that differ do so both ways.
pub text_eq_comm : (s t : Text) → text_eq s t ≡ false → text_eq t s ≡ false
text_eq_comm s t h = elim (Bool-cases (text_eq t s)) [
  | inr e ↦ e
  | inl e ↦
      let same = text_eq→eq t s e in
      let back : text_eq s t ≡ true = rw same (text_eq_refl s) in absurd (ground arith)
]

abbrev pub AllCases {ℓ ℓ'} : {V : Type ℓ} → (V → Type ℓ') → List (Text × V) → Type ℓ'
AllCases P [] = Unit
AllCases P ((_, v) ∷ cases) = P v × AllCases P cases

-- What holds of every case and of the default holds of the switch.
pub switch-AllCases {ℓ ℓ'} :
    {V : Type ℓ} (P : V → Type ℓ') (key : Text) (cases : List (Text × V)) (d : V)
    → AllCases P cases
    → P d
    → P (switch key cases d)
unfolding switch
switch-AllCases P key [] d _ h = h
switch-AllCases P key ((k, v) ∷ cases) d (p, ps) h = elim (Bool-cases (text_eq key k)) [
  | inl e ↦ rw e p
  | inr e ↦ rw e (switch-AllCases P key cases d ps h)
]
