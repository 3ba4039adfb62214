-- ===== src/ZQuery/Printing.antt =====
-- src/yaz-z-query.cpp: how much `print` writes.
use yazpp.Prelude.{
  ℕ, zero, suc, ◌-◌, ◌^◌, ◌≤◌, ◌≡◌, refl, inl, inr, [], ◌∷◌, ◌++◌, Option, none, some,
  if◌then◌else◌, length, length-append, take, ltb, ◌==◌, arith, Bool-cases,
}
use yazpp.Apdu.{Octets}
use yazpp.ZQuery.{Yaz, ZQuery, c_string, fill, printed, print_decoded, get_z_query, print_query}

length-take : (n : ℕ) (bs : Octets) → length (take n bs) ≤ n
length-take zero bs = omega arith
length-take (suc n) [] = omega arith
length-take (suc n) (b ∷ bs) = let ih = length-take n bs in omega arith

length-c_string : (bs : Octets) → length (c_string bs) ≤ length bs
length-c_string [] = omega arith
length-c_string (b ∷ bs) = let ih = length-c_string bs in ground arith

-- With a string's end as its last byte.
abbrev pub EndsWithZero : Octets → Type 0
EndsWithZero bs = (init : Octets) × (bs ≡ init ++ 0 ∷ [])

abbrev pub Fits : ℕ → Octets → Type 0
Fits size bs = (length bs ≤ size) × EndsWithZero bs

fill-Fits : (text : Octets) (n : ℕ) → Fits (suc n) (fill n text)
fill-Fits text n = elim (Bool-cases (ltb n (length text))) [
  | inl long ↦
      let short = length-take n text in
      rw long (rw (length-append (take n text) (0 ∷ [])) (omega arith), (take n text, refl))
  | inr all ↦
      let short = length-c_string text in
      rw all (rw (length-append (c_string text) (0 ∷ [])) (ground arith), (c_string text, refl))
]

printed-Fits : (text : Octets) (n : ℕ) → Fits (suc n) (printed text (suc n))
unfolding printed
printed-Fits text n =
    let limit : (if suc n == 0 then 2 ^ 64 - 1 else suc n - 1) ≡ n = ground arith in
    rw limit (fill-Fits text n)

-- Into a buffer of at least one byte `print` writes a string that ends with a 0 and fits, whatever
-- the query and its text are.
pub print_query-Fits {ℓ} :
    {Q : Type ℓ} (yaz : Yaz Q) (q : ZQuery) (n : ℕ) → Fits (suc n) (print_query yaz (suc n) q)
unfolding print_query
print_query-Fits {Q = Q} yaz q n = by_query (get_z_query yaz q)
  where
    by_query : (o : Option Q) → Fits (suc n) (print_decoded yaz (suc n) o)
    by_query none = (omega arith, ([], refl))
    by_query (some query) = printed-Fits (yaz.print query) n
