-- ===== src/Common/Lists.antt =====
-- Lists measured by native numbers: length, number of occurrences, removal of one occurrence.
use Prim.Native.Nat.{ℕ, zero, suc, ◌+◌, ◌-◌, ◌≤◌, ◌<◌}
use mathlib.Core.Path.{◌≡◌, refl}
use mathlib.Core.List.{List, [], ◌∷◌}
use mathlib.Core.Bool.{Bool, true, false, ◌&&◌}
use native.Mathlib.Omega.{arith}
use swink.Common.Tests.{◌==◌, if◌then◌else◌}

abbrev pub length {ℓ} : {A : Type ℓ} → List A → ℕ
length [] = 0
length (x ∷ xs) = suc (length xs)

abbrev pub is_nil {ℓ} : {A : Type ℓ} → List A → Bool
is_nil [] = true
is_nil (x ∷ xs) = false

unfoldable pub count : ℕ → List ℕ → ℕ
count e [] = 0
count e (x ∷ xs) = if x == e then suc (count e xs) else count e xs

unfoldable pub erase : ℕ → List ℕ → List ℕ
erase e [] = []
erase e (x ∷ xs) = if x == e then xs else x ∷ erase e xs

pub count-cons :
    (e x : ℕ) (xs : List ℕ) → count e (x ∷ xs) ≡ (if x == e then count e xs + 1 else count e xs)
unfolding count
count-cons e x xs = ground arith

pub count-erase :
    (e x : ℕ) (xs : List ℕ) → count e (erase x xs) ≡ (if x == e then count e xs - 1 else count e xs)
unfolding count erase
count-erase e x [] = ground arith
count-erase e x (y ∷ xs) = ground (arith, count-erase e x xs)

-- What an insertion and a removal that may or may not happen do to the number of occurrences.
pub count-cons_if :
    (b : Bool) (e x : ℕ) (xs : List ℕ)
    → count x xs ≡ 0
    → count e (if b then x ∷ xs else xs) ≡ (if b && x == e then 1 else count e xs)
count-cons_if true e x xs h = ground (arith, count-cons e x xs)
count-cons_if false e x xs h = refl

pub count-erase_if :
    (b : Bool) (e x : ℕ) (xs : List ℕ)
    → (b ≡ true → count x xs ≡ 1)
    → count e (if b then erase x xs else xs) ≡ (if b && x == e then 0 else count e xs)
count-erase_if true e x xs h = ground (arith, count-erase e x xs, h refl)
count-erase_if false e x xs h = refl

pub count_nil : (e : ℕ) (xs : List ℕ) → is_nil xs ≡ true → count e xs ≡ 0
unfolding count
count_nil e [] h = refl
count_nil e (x ∷ xs) h = cc

-- A list that is not empty has a front.
pub front_cases :
    (xs : List ℕ) → is_nil xs ≡ false → (e : ℕ) × (es : List ℕ) × (xs ≡ e ∷ es) × (0 < count e xs)
unfolding count
front_cases [] h = cc
front_cases (x ∷ xs) h = (x, xs, refl, ground arith)

pub length-erase : (x : ℕ) (xs : List ℕ) → 0 < count x xs → suc (length (erase x xs)) ≡ length xs
unfolding count erase
length-erase x [] h = absurd (omega arith)
length-erase x (y ∷ xs) h = ground (arith, length-erase x xs)

-- Lists in which everything occurs equally often are of one length.
pub same_length : (xs ys : List ℕ) → ((e : ℕ) → count e xs ≡ count e ys) → length xs ≡ length ys
same_length [] [] same = refl
same_length [] (y ∷ ys) same =
    absurd (grind (arith, same y, count-cons y y ys, count_nil y [] refl))
same_length (x ∷ xs) ys same =
    let here : 0 < count x ys = ground (arith, same x, count-cons x x xs) in
    let rest : (e : ℕ) → count e xs ≡ count e (erase x ys) =
      λ e. ground (arith, same e, count-cons e x xs, count-erase e x ys) in
    omega (arith, same_length xs (erase x ys) rest, length-erase x ys here)

-- Removal takes one element at most.
pub length-erase_le : (x : ℕ) (xs : List ℕ) → length xs ≤ suc (length (erase x xs))
unfolding erase
length-erase_le x [] = omega arith
length-erase_le x (y ∷ ys) = ground (arith, length-erase_le x ys)

-- Different numbers of a range of `n` are at most `n`.
pub length_le_range :
    (n b : ℕ) (xs : List ℕ)
    → ((e : ℕ) → count e xs ≤ 1)
    → ((e : ℕ) → 0 < count e xs → (b ≤ e) × (e < b + n))
    → length xs ≤ n
length_le_range n b [] once within = omega arith
length_le_range zero b (x ∷ xs) once within = absurd (ground (arith, within x, count-cons x x xs))
length_le_range (suc n) b (x ∷ xs) once within =
    let shorter =
      length_le_range n b (erase (b + n) (x ∷ xs))
        (λ e. ground (arith, once e, count-erase e (b + n) (x ∷ xs)))
        (λ e h. ground (arith, once e, within e, count-erase e (b + n) (x ∷ xs))) in
    omega (arith, length-erase_le (b + n) (x ∷ xs))
