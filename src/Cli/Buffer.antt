-- ===== src/Cli/Buffer.antt =====
-- The text that the array and the index of `cliTask` in src/main.cpp stand for.
use esp32_real_time_energy_c.Base.{
  ℕ, zero, suc, ◌≤◌, ◌<◌, ◌≡◌, refl, ap, List, [], ◌∷◌, ◌++◌, arith, length, take, set, All,
}
use esp32_real_time_energy_c.Cli.{c_string}

abbrev pub drop_last : List ℕ → List ℕ
drop_last [] = []
drop_last (c ∷ []) = []
drop_last (c ∷ d ∷ s) = c ∷ drop_last (d ∷ s)

abbrev pub IsText : List ℕ → Type 0
IsText = All (λ c. 0 < c)

pub take-set :
    (xs : List ℕ) (i c : ℕ) → i < length xs → take (suc i) (set xs i c) ≡ take i xs ++ (c ∷ [])
take-set [] i c h = absurd (omega arith)
take-set (x ∷ xs) zero c h = refl
take-set (x ∷ xs) (suc i) c h = ap (λ ys. x ∷ ys) (take-set xs i c (omega arith))

pub take-drop_last :
    (xs : List ℕ) (i : ℕ) → suc i ≤ length xs → drop_last (take (suc i) xs) ≡ take i xs
take-drop_last [] i h = absurd (omega arith)
take-drop_last (x ∷ xs) zero h = refl
take-drop_last (x ∷ []) (suc i) h = absurd (omega arith)
take-drop_last (x ∷ y ∷ xs) (suc i) h = ap (λ ys. x ∷ ys) (take-drop_last (y ∷ xs) i (omega arith))

-- The NUL that the code writes at the index ends the text there.
pub c_string-set :
    (xs : List ℕ) (i : ℕ) → i < length xs → IsText (take i xs) → c_string (set xs i 0) ≡ take i xs
c_string-set [] i h t = absurd (omega arith)
c_string-set (x ∷ xs) zero h t = refl
c_string-set (x ∷ xs) (suc i) h (p, t) = ground (arith, c_string-set xs i (omega arith) t)

pub length-take : (xs : List ℕ) (i : ℕ) → i ≤ length xs → length (take i xs) ≡ i
length-take xs zero h = refl
length-take [] (suc i) h = absurd (omega arith)
length-take (x ∷ xs) (suc i) h = ap suc (length-take xs i (omega arith))

pub drop_last-IsText : (s : List ℕ) → IsText s → IsText (drop_last s)
drop_last-IsText [] h = tt
drop_last-IsText (c ∷ []) h = tt
drop_last-IsText (c ∷ d ∷ s) (p, h) = (p, drop_last-IsText (d ∷ s) h)
