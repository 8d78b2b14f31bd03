-- ===== src/Common/Lists.antt =====
-- Lists measured by native numbers, and the list of a C hash table in its order of insertion.
use Prim.Native.Nat.{ℕ, zero, suc, ◌+◌}
use mathlib.Core.Path.{◌≡◌}
use mathlib.Core.List.{List, [], ◌∷◌, ◌++◌}
use native.Mathlib.Omega.{arith}
use Prim.Native.Nat.{◌≤◌}
use mathlib.Core.Path.{refl, ap, sym, ◌∙◌}
use mathlib.Core.List.{append_assoc}

module _ {ℓ} {A : Type ℓ} where
  abbrev pub length : List A → ℕ
  length [] = 0
  length (x ∷ xs) = suc (length xs)

  pub length-append : (xs ys : List A) → length (xs ++ ys) ≡ length xs + length ys
  length-append [] ys = omega arith
  length-append (x ∷ xs) ys = omega (arith, length-append xs ys)

  abbrev pub take : ℕ → List A → List A
  take zero xs = []
  take (suc n) [] = []
  take (suc n) (x ∷ xs) = x ∷ take n xs

  abbrev pub drop : ℕ → List A → List A
  drop zero xs = xs
  drop (suc n) [] = []
  drop (suc n) (x ∷ xs) = drop n xs

  abbrev pub concat : List (List A) → List A
  concat [] = []
  concat (xs ∷ xss) = xs ++ concat xss

  pub concat-append : (xss yss : List (List A)) → concat (xss ++ yss) ≡ concat xss ++ concat yss
  concat-append [] yss = refl
  concat-append (xs ∷ xss) yss =
      ap (λ l. xs ++ l) (concat-append xss yss) ∙ sym (append_assoc xs (concat xss) (concat yss))

  pub take-drop : (n : ℕ) (xs : List A) → take n xs ++ drop n xs ≡ xs
  take-drop zero xs = refl
  take-drop (suc n) [] = refl
  take-drop (suc n) (x ∷ xs) = ap (λ l. x ∷ l) (take-drop n xs)

  pub length-drop : (n : ℕ) (xs : List A) → length (drop n xs) ≤ length xs
  length-drop zero xs = omega arith
  length-drop (suc n) [] = omega arith
  length-drop (suc n) (x ∷ xs) = omega (arith, length-drop n xs)

  pub length-drop_less :
      (n : ℕ) (x : A) (xs : List A) → 1 ≤ n → length (drop n (x ∷ xs)) ≤ length xs
  length-drop_less zero x xs h = omega arith
  length-drop_less (suc n) x xs h = length-drop n xs

  pub length-take :
      (n : ℕ) (xs : List A) → (length (take n xs) ≤ n) × (length (take n xs) ≤ length xs)
  length-take zero xs = (omega arith, omega arith)
  length-take (suc n) [] = (omega arith, omega arith)
  length-take (suc n) (x ∷ xs) =
      let rest = length-take n xs in (omega (arith, rest.0), omega (arith, rest.1))

  pub length-take_long : (n : ℕ) (xs : List A) → n ≤ length xs → length (take n xs) ≡ n
  length-take_long zero xs h = refl
  length-take_long (suc n) [] h = omega arith
  length-take_long (suc n) (x ∷ xs) h = ap suc (length-take_long n xs (omega arith))
