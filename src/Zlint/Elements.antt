-- ===== src/Zlint/Elements.antt =====
-- zlint/test-search-01.cpp and zlint/test-scan-01.cpp: their arrays of strings.
use Prim.Native.String.{String}
use yazpp.Prelude.{
  ℕ, zero, suc, ◌≤◌, ◌<◌, ◌≡◌, refl, ◌⊎◌, inl, inr, List, [], ◌∷◌, Option, none, some,
  if◌then◌else◌, ◌==◌, length, arith,
}

-- An element of an array that ends with a null pointer: `some none` is that one, `none` is outside.
unfoldable pub element : List String → ℕ → Option (Option String)
element [] i = if i == 0 then some none else none
element (x ∷ xs) zero = some (some x)
element (x ∷ xs) (suc i) = element xs i

-- A message that prints an element of an array.
abbrev pub printing {ℓ} : {A : Type ℓ} → Option (Option String) → Option A → Option A
printing none k = none
printing (some e) k = k

pub element-word :
    (xs : List String) (i : ℕ) → i < length xs → (x : String) × (element xs i ≡ some (some x))
unfolding element
element-word [] i lt = ground arith
element-word (x ∷ xs) zero lt = (x, refl)
element-word (x ∷ xs) (suc i) lt = element-word xs i (omega arith)

element-end : (xs : List String) → element xs (length xs) ≡ some none
unfolding element
element-end [] = refl
element-end (x ∷ xs) = element-end xs

-- An index into an array, its end included.
pub element-cases :
    (xs : List String) (i : ℕ)
    → i ≤ length xs
    → ((x : String) × (i < length xs) × (element xs i ≡ some (some x)))
      ⊎ ((i ≡ length xs) × (element xs i ≡ some none))
element-cases xs i le =
    let split : (i < length xs) ⊎ (i ≡ length xs) = ground arith in
    elim split [
      | inl lt ↦ let (x, e) = element-word xs i lt in inl (x, lt, e)
      | inr e ↦ inr (e, rw e (element-end xs))
    ]
