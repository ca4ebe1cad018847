-- ===== src/Base/Texts.antt =====
-- Texts as lists of character codes, with their comparison.
use Prim.Native.Nat.{ℕ}
use mathlib.Core.Path.{◌≡◌, refl}
use mathlib.Core.Bool.{Bool, true, false, ◌&&◌}
use mathlib.Core.List.{List, [], ◌∷◌}
use native.Mathlib.Omega.{arith}
use qweqwe.Base.Tests.{◌==◌}

abbrev pub Text : Type 0
Text = List ℕ

abbrev pub text_eq : Text → Text → Bool
text_eq [] [] = true
text_eq (a ∷ xs) (b ∷ ys) = a == b && text_eq xs ys
text_eq _ _ = false

abbrev pub is_empty : Text → Bool
is_empty [] = true
is_empty (a ∷ xs) = false

pub text_eq_same : (a : Text) → text_eq a a ≡ true
text_eq_same [] = refl
text_eq_same (c ∷ cs) = ground (arith, text_eq_same cs)

pub text_eq→≡ : (a b : Text) → text_eq a b ≡ true → a ≡ b
text_eq→≡ [] [] h = refl
text_eq→≡ [] (c ∷ cs) h = ground arith
text_eq→≡ (c ∷ cs) [] h = ground arith
text_eq→≡ (c ∷ cs) (d ∷ ds) h = ground (arith, text_eq→≡ cs ds)
