-- ===== src/MarcSample/Format.antt =====
-- src/yaz-marc-sample.cpp: the records against the format that they are in, ISO 2709, and the
-- positions that have one.
use yazpp.Prelude.{
  ℕ, zero, suc, ◌+◌, ◌-◌, ◌*◌, ◌≡◌, refl, Bool, true, false, ◌&&◌, List, [], ◌∷◌, Option, none,
  some, leb, ltb, ◌==◌, length, get_or, take, get_elem?, if◌then◌else◌, arith, inl, inr, Bool-cases,
  ◌%◌, ◌/◌, ◌≤◌, map, keep_if, sym, subst,
}
use yazpp.Prelude.Text.{codes}
use yazpp.MarcSample.{marc_records, get_record}

abbrev drop : ℕ → List ℕ → List ℕ
drop zero r = r
drop (suc n) [] = []
drop (suc n) (c ∷ r) = drop n r

-- The number that decimal digits write.
abbrev digits : ℕ → List ℕ → ℕ
digits n [] = n
digits n (d ∷ ds) = digits (n * 10 + (d - b'0')) ds

abbrev are_digits : List ℕ → Bool
are_digits [] = true
are_digits (d ∷ ds) = leb b'0' d && (leb d b'9' && are_digits ds)

-- A directory: entries of three characters of a tag, four of a length and five of a start, each
-- for a field, after the base, that ends with a field terminator.
abbrev directory : ℕ → ℕ → List ℕ → List ℕ → Bool
directory zero base r d = true
directory (suc n) base r d =
    let size = digits 0 (take 4 (drop 3 d)) in
    let start = digits 0 (take 5 (drop 7 d)) in
    are_digits (take 12 d)
    && (ltb 0 size
        && (get_or r (base + start + size - 1) 0 == 0x1e && directory n base r (drop 12 d)))

-- A record: its length and the base of its fields are where the leader has them, the directory is
-- the rest before the base, and the record terminator is at the end and nowhere else.
abbrev pub is_marc : List ℕ → Bool
is_marc r =
    let base = digits 0 (take 5 (drop 12 r)) in
    (digits 0 (take 5 r) == length r)
    && ((get_or r (length r - 1) 0 == 0x1d)
        && ((length (keep_if (λ c. c == 0x1d) r) == 1)
            && ((get_or r (base - 1) 0 == 0x1e)
                && (((base - 25) % 12 == 0) && directory ((base - 25) / 12) base r (drop 24 r)))))

abbrev same : List ℕ → List ℕ → Bool
same [] [] = true
same [] (y ∷ ys) = false
same (x ∷ xs) [] = false
same (x ∷ xs) (y ∷ ys) = x == y && same xs ys

-- The control number: the first field, without its terminator, if its tag is 001.
abbrev pub control_number : List ℕ → List ℕ
control_number r =
    let base = digits 0 (take 5 (drop 12 r)) in
    let size = digits 0 (take 4 (drop 27 r)) in
    let start = digits 0 (take 5 (drop 31 r)) in
    let field = take (size - 1) (drop (base + start) r) in
    if same (take 3 (drop 24 r)) (codes "001") then field else []

-- The control numbers of the records, in order.
abbrev pub control_numbers : List (List ℕ)
control_numbers = map codes (
    "   11224466 " ∷ "   11224467 " ∷ "   73090924 //r82" ∷ "   73209622 //r823"
    ∷ "   76357895 /MAP/r82" ∷ "   77000348 " ∷ "   77004773 " ∷ "   77005558 "
    ∷ "   77616367 //r84" ∷ "   77637075 //r82" ∷ "   70001070 " ∷ "   72002565 " ∷ "   80082329 "
    ∷ "ACD-3837" ∷ "ACD-3799" ∷ "ACD-3792" ∷ "ACD-3665" ∷ "ACD-2728" ∷ "ACD-2476" ∷ "ACD-2376"
    ∷ "ACD-1949" ∷ "ACD-1947" ∷ "ACD-1938" ∷ [])

-- What a position counted from 1 has in a list.
abbrev pub at_position : List (List ℕ) → ℕ → Option (List ℕ)
at_position ns zero = none
at_position ns (suc i) = get_elem? ns i

-- A record of that control number, where there is one; a null pointer elsewhere.
abbrev pub Sample : Option (List ℕ) → Option (List ℕ) → Type 0
Sample (some n) (some r) = (is_marc r ≡ true) × (control_number r ≡ n)
Sample none none = Unit
Sample _ _ = ⊥

abbrev pub SampleAt : ℕ → Option (List ℕ) → Type 0
SampleAt position o = Sample (at_position control_numbers position) o

same_eq : (xs ys : List ℕ) → same xs ys ≡ true → xs ≡ ys
same_eq [] [] h = refl
same_eq [] (y ∷ ys) h = ground arith
same_eq (x ∷ xs) [] h = ground arith
same_eq (x ∷ xs) (y ∷ ys) h = ground (arith, same_eq xs ys)

abbrev is_sample : List ℕ → List ℕ → Bool
is_sample n r = is_marc r && same (control_number r) n

all_samples : List (List ℕ) → List (List ℕ) → Bool
all_samples [] [] = true
all_samples (n ∷ ns) (r ∷ rs) = is_sample n r && all_samples ns rs
all_samples _ _ = false

marc_records-all : all_samples control_numbers marc_records ≡ true
unfolding all_samples marc_records
marc_records-all = refl

both : (a b : Bool) → (a && b) ≡ true → (a ≡ true) × (b ≡ true)
both a b h = ground arith

get_elem?-Sample :
    (ns rs : List (List ℕ)) (i : ℕ)
    → all_samples ns rs ≡ true
    → Sample (get_elem? ns i) (get_elem? rs i)
unfolding all_samples
get_elem?-Sample [] [] i a = tt
get_elem?-Sample [] (r ∷ rs) i a = ground arith
get_elem?-Sample (n ∷ ns) [] i a = ground arith
get_elem?-Sample (n ∷ ns) (r ∷ rs) zero a =
    let (one, others) = both (is_sample n r) (all_samples ns rs) a in
    let (marc, number) = both (is_marc r) (same (control_number r) n) one in
    (marc, same_eq (control_number r) n number)
get_elem?-Sample (n ∷ ns) (r ∷ rs) (suc i) a =
    get_elem?-Sample ns rs i (both (is_sample n r) (all_samples ns rs) a).1

get_elem?-past : (rs : List (List ℕ)) (i : ℕ) → length rs ≤ i → get_elem? rs i ≡ none
get_elem?-past [] i h = refl
get_elem?-past (r ∷ rs) zero h = absurd (omega arith)
get_elem?-past (r ∷ rs) (suc i) h = get_elem?-past rs i (omega arith)

within :
    (rs : List (List ℕ)) (i : ℕ)
    → (if leb 1 (suc i) && leb (suc i) (length rs) then get_elem? rs (suc i - 1) else none)
      ≡ get_elem? rs i
within rs i =
    let back : suc i - 1 ≡ i = omega arith in
    let first : leb 1 (suc i) ≡ true = ground arith in
    elim (Bool-cases (leb (suc i) (length rs))) [
      | inl inside ↦ rw (back, first, inside) refl
      | inr outside ↦ rw (back, first, outside) (sym (get_elem?-past rs i (ground arith)))
    ]

-- The positions 1 to 23 give a record each, a MARC record by its leader, its directory and its
-- terminators, whose control number is the one that the list of the records' numbers has there; every
-- other position gives a null pointer.
pub get_record-SampleAt : (position : ℕ) → SampleAt position (get_record position)
unfolding get_record
get_record-SampleAt zero = tt
get_record-SampleAt (suc i) =
    subst (Sample (get_elem? control_numbers i)) (sym (within marc_records i))
      (get_elem?-Sample control_numbers marc_records i marc_records-all)
