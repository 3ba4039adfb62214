-- ===== src/ZQuery/Reading.antt =====
-- src/yaz-z-query.cpp: what is read from a query that was set, copied or assigned, and when two
-- queries match.
use Prim.Native.String.{String}
use yazpp.Prelude.{
  ℕ, ◌≡◌, ◌↔◌, refl, inl, inr, true, false, [], ◌∷◌, none, some, if◌then◌else◌, length, take, ◌==◌,
  ==_iff, arith, ap, Bool-cases, ◌⊎◌, ◌<◌, zero, suc, Option,
}
use yazpp.Prelude.Int.{ℤ, pos, negsuc}
use mathlib.Core.Option.{some-ne-none}
use yazpp.Apdu.{Octets}
use yazpp.ZQuery.{
  Yaz, ZQuery, new_query, copied, rpn_encoded, parsed_as, copy, assign, same_bytes, match_buffers,
  match_query, set_z_query, set_rpn, get_z_query,
}

take-length : (bs : Octets) → take (length bs) bs ≡ bs
take-length [] = refl
take-length (b ∷ bs) = ap (λ cs. b ∷ cs) (take-length bs)

same_bytes_iff : (xs ys : Octets) → (same_bytes xs ys ≡ true) ↔ (xs ≡ ys)
same_bytes_iff [] [] = ground arith
same_bytes_iff [] (y ∷ ys) = ground arith
same_bytes_iff (x ∷ xs) [] = ground arith
same_bytes_iff (x ∷ xs) (y ∷ ys) = let ih = same_bytes_iff xs ys in ground arith

same-by_length :
    (x y : Octets)
    → ((if length x == length y then same_bytes (take (length x) x) (take (length x) y) else false)
        ≡ true)
      ↔ (x ≡ y)
same-by_length x y = elim (Bool-cases (length x == length y)) [
  | inl same ↦
      let e : length x ≡ length y = (==_iff (length x) (length y)).0 same in
      rw (same, take-length x, e, take-length y) (same_bytes_iff x y)
  | inr differ ↦ rw differ ((λ bad. ground arith), (λ e. ground arith))
]

-- A query that holds an encoding.
abbrev holding : Octets → ZQuery
holding bytes = record { buf = some bytes; len = length bytes }

module _ {ℓ} {Q : Type ℓ} (yaz : Yaz Q) where
  -- A query that was set is read as it was, by itself, by its copy and by a query that it is assigned
  -- to, if YAZ decodes what it encodes.
  pub get_z_query-set :
      (query : Q) (bytes : Octets) (q : ZQuery)
      → yaz.encode query ≡ some bytes
      → yaz.decode bytes ≡ some query
      → (get_z_query yaz (set_z_query yaz query q) ≡ some query)
        × ((c : ZQuery) × (copy (set_z_query yaz query q) ≡ some c)
            × (get_z_query yaz c ≡ some query))
        × (get_z_query yaz (assign (set_z_query yaz query q)) ≡ some query)
  unfolding get_z_query set_z_query copy assign
  get_z_query-set query bytes q e d =
      rw (e, take-length bytes, take-length bytes)
        (d, (holding bytes, refl, rw (take-length bytes) d), d)

  -- After a failure: the string is no query, or YAZ does not encode it. The object reads as none and
  -- is assigned as a new one. It can be copied exactly if it had no length before, since the copy
  -- constructor otherwise reads through a null pointer.
  abbrev pub Unset : String → ZQuery → ZQuery × ℤ → Type ℓ
  Unset rpn before (q, r) =
      (yaz.parse rpn ≡ none
        ⊎ ((query : Q) × (yaz.parse rpn ≡ some query) × (yaz.encode query ≡ none)))
      × (r ≡ negsuc 0)
      × (get_z_query yaz q ≡ none)
      × (assign q ≡ new_query)
      × ((copy q ≡ none) ↔ (0 < before.len))

  -- After a success: the result is the length of the encoding, and the object, its copy and an object
  -- that it is assigned to read as what YAZ decodes from that.
  abbrev pub SetTo : String → ZQuery × ℤ → Type ℓ
  SetTo rpn (q, r) =
      (query : Q) × (bytes : Octets) × (yaz.parse rpn ≡ some query)
      × (yaz.encode query ≡ some bytes)
      × (r ≡ pos (length bytes))
      × (get_z_query yaz q ≡ yaz.decode bytes)
      × ((c : ZQuery) × (copy q ≡ some c) × (get_z_query yaz c ≡ yaz.decode bytes))
      × (get_z_query yaz (assign q) ≡ yaz.decode bytes)

  unset :
      (rpn : String) (q : ZQuery)
      → (yaz.parse rpn ≡ none
          ⊎ ((query : Q) × (yaz.parse rpn ≡ some query) × (yaz.encode query ≡ none)))
      → Unset rpn q (record q { buf = none }, negsuc 0)
  unfolding get_z_query copy assign new_query
  unset rpn q why = (why, refl, refl, refl, by_length q.len)
    where
      by_length : (n : ℕ) → (copied none n ≡ none) ↔ (0 < n)
      by_length zero = ((λ e. absurd (some-ne-none _ e)), λ lt. absurd (omega arith))
      by_length (suc n) = ((λ e. omega arith), λ lt. refl)

  -- Whatever the object was before, `set_rpn` either fails for one of two reasons, and leaves it
  -- without an encoding, or sets it to the query that the string is.
  pub copy-set_rpn :
      (rpn : String) (q : ZQuery) → Unset rpn q (set_rpn yaz rpn q) ⊎ SetTo rpn (set_rpn yaz rpn q)
  unfolding set_rpn
  copy-set_rpn rpn q = by_parser (yaz.parse rpn) refl
    where
      read_back :
          (query : Q) (bytes : Octets)
          → yaz.parse rpn ≡ some query
          → yaz.encode query ≡ some bytes
          → SetTo rpn (holding bytes, pos (length bytes))
      read_back query bytes good kept =
          unfold get_z_query copy assign in
          (
            query,
            bytes,
            good,
            kept,
            refl,
            rw (take-length bytes) refl,
            (holding bytes, rw (take-length bytes) refl, rw (take-length bytes) refl),
            rw (take-length bytes, take-length bytes) refl,
          )

      by_encoder :
          (query : Q) (o : Option Octets)
          → yaz.parse rpn ≡ some query
          → yaz.encode query ≡ o
          → Unset rpn q (rpn_encoded o q) ⊎ SetTo rpn (rpn_encoded o q)
      by_encoder query none good lost = inl (unset rpn q (inr (query, good, lost)))
      by_encoder query (some bytes) good kept = inr (read_back query bytes good kept)

      by_parser :
          (o : Option Q)
          → yaz.parse rpn ≡ o
          → Unset rpn q (parsed_as yaz o q) ⊎ SetTo rpn (parsed_as yaz o q)
      by_parser none bad = inl (unset rpn q (inl bad))
      by_parser (some query) good = by_encoder query (yaz.encode query) good refl

  -- Two queries that were set match exactly if their encodings are the same.
  pub match_query-set_z_query :
      (query query' : Q) (x y : Octets) (q q' : ZQuery)
      → yaz.encode query ≡ some x
      → yaz.encode query' ≡ some y
      → (match_query (set_z_query yaz query q) (set_z_query yaz query' q') ≡ true) ↔ (x ≡ y)
  unfolding match_query match_buffers set_z_query
  match_query-set_z_query query query' x y q q' e e' = rw (e, e') (same-by_length x y)
