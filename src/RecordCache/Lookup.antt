-- ===== src/RecordCache/Lookup.antt =====
-- What the cache of src/yaz-z-cache.cpp finds.
use yazpp.Prelude.{
  ℕ, zero, suc, ◌+◌, ◌-◌, ◌≤◌, ◌<◌, Bool, true, false, ◌&&◌, ◌≡◌, ◌≢◌, Bool-cases, inl, inr,
  ==_refl, ==_iff, refl, sym, ap, ◌∙◌, List, [], ◌∷◌, ◌++◌, Option, none, some, is_some,
  if◌then◌else◌, ltb, leb, ◌==◌, length, length-append, get_elem?, All, arith,
}
use mathlib.Core.Bool.{false≢true}
use mathlib.Core.Option.{some-injective, none-ne-some}
use mathlib.Core.List.{cons≢nil}
use yazpp.RecordCache.{
  Composition, Entry, Cache, same_encoding, same_bytes, has_syntax, add_entries, add, matches, find,
  all_there, fill, lookup,
}

same_bytes_refl : (xs : List ℕ) → same_bytes xs xs ≡ true
same_bytes_refl [] = refl
same_bytes_refl (x ∷ xs) = ground (arith, same_bytes_refl xs)

same_bytes_eq : (xs ys : List ℕ) → same_bytes xs ys ≡ true → xs ≡ ys
same_bytes_eq [] [] h = refl
same_bytes_eq [] (y ∷ ys) h = ground arith
same_bytes_eq (x ∷ xs) [] h = ground arith
same_bytes_eq (x ∷ xs) (y ∷ ys) h = ground (arith, same_bytes_eq xs ys)

-- Equal encodings of at least one byte, or none at all.
same_encoding_eq : (a b : Option (List ℕ)) → same_encoding a b ≡ true → (a ≡ b) × (a ≢ some [])
same_encoding_eq none none h = (refl, λ e. none-ne-some [] e)
same_encoding_eq none (some bs) h = ground arith
same_encoding_eq (some bs) none h = ground arith
same_encoding_eq (some []) (some bs) h = ground arith
same_encoding_eq (some (b ∷ bs)) (some cs) h =
    (ap some (same_bytes_eq (b ∷ bs) cs h), λ e. cons≢nil (some-injective (b ∷ bs) [] e))

same_encoding_self : (a : Option (List ℕ)) → a ≢ some [] → same_encoding a a ≡ true
same_encoding_self none h = refl
same_encoding_self (some []) h = absurd (h refl)
same_encoding_self (some (b ∷ bs)) h = same_bytes_refl (b ∷ bs)

has_syntax_eq : (o : Option (List ℕ)) (oid : List ℕ) → has_syntax o oid ≡ true → o ≡ some oid
has_syntax_eq none oid h = ground arith
has_syntax_eq (some own) oid h = ap some (same_bytes_eq own oid h)

three : (a b c : Bool) → (if a then b && c else false) ≡ true → (a ≡ true) × (b ≡ true) × (c ≡ true)
three true true true h = (refl, refl, refl)
three true true false h = ground arith
three true false c h = ground arith
three false b c h = ground arith

get_elem?-some {ℓ} :
    {A : Type ℓ} (xs : List A) (i : ℕ) → i < length xs → (a : A) × (get_elem? xs i ≡ some a)
get_elem?-some [] i h = absurd (omega arith)
get_elem?-some (x ∷ xs) zero h = (x, refl)
get_elem?-some (x ∷ xs) (suc i) h = get_elem?-some xs i (omega arith)

module _ {ℓ} {R : Type ℓ} (encoded : Option Composition → Option (List ℕ))
    (syntax_of : R → Option (List ℕ)) where
  -- The offsets of records that were added last.
  abbrev among : ℕ → List R → ℕ → Bool
  among start rs o = leb start o && ltb o (start + length rs)

  get_elem?-later :
      (r : R) (rs : List R) (start o : ℕ)
      → start < o
      → get_elem? (r ∷ rs) (o - start) ≡ get_elem? rs (o - (start + 1))
  get_elem?-later r rs start o h = let e : o - start ≡ suc (o - (start + 1)) = omega arith in rw e

  find_head :
      (oid : List ℕ) (comp : Option Composition) (r : R) (start o : ℕ) (es : List (Entry R))
      → same_encoding (encoded comp) (encoded comp) ≡ true
      → syntax_of r ≡ some oid
      → find encoded syntax_of
          (record { offset = start; item = r; comp = comp } ∷ es)
          (some oid)
          o
          comp
        ≡ (if start == o then some r else find encoded syntax_of es (some oid) o comp)
  unfolding find matches
  find_head oid comp r start o es enc syn = ground (arith, same_bytes_refl oid)

  find-add_entries :
      (oid : List ℕ) (comp : Option Composition) (rs : List R) (start o : ℕ) (es : List (Entry R))
      → same_encoding (encoded comp) (encoded comp) ≡ true
      → All (λ r. syntax_of r ≡ some oid) rs
      → find encoded syntax_of (add_entries rs start comp es) (some oid) o comp ≡ (
          if among start rs o
          then get_elem? rs (o - start)
          else find encoded syntax_of es (some oid) o comp)
  unfolding add_entries
  find-add_entries oid comp [] start o es enc syn = ground arith
  find-add_entries oid comp (r ∷ rs) start o es enc syn =
      let first : Entry R = record { offset = start; item = r; comp = comp } in
      ground (
        arith,
        find-add_entries oid comp rs (start + 1) o (first ∷ es) enc syn.1,
        find_head oid comp r start o es enc syn.0,
        get_elem?-later r rs start o,
      )

  -- The second loop finds what the first one has found.
  fill-all_there :
      (es : List (Entry R)) (syntax : Option (List ℕ)) (num start : ℕ) (comp : Option Composition)
      → is_some (fill encoded syntax_of es syntax num start comp)
        ≡ all_there encoded syntax_of es syntax num start comp
  unfolding fill all_there
  fill-all_there es syntax zero start comp = refl
  fill-all_there es syntax (suc num) start comp =
      ground (arith, fill-all_there es syntax num (start + 1) comp)

  -- `lookup` gives what its second loop gives by itself: that loop never gives up after the first
  -- one has found every record.
  pub lookup-fill :
      (start num : ℕ) (syntax : Option (List ℕ)) (comp : Option Composition) (c : Cache R)
      → lookup encoded syntax_of start num syntax comp c
        ≡ fill encoded syntax_of c.entries syntax num start comp
  unfolding lookup
  lookup-fill start num syntax comp c =
      ground (arith, fill-all_there c.entries syntax num start comp)

  -- Some of the records, from the `k`-th on.
  abbrev pub slice : ℕ → ℕ → List R → Option (List R)
  slice zero k rs = some []
  slice (suc num) k rs =
      let rest = slice num (suc k) rs in
      elim (get_elem? rs k) [
        | none ↦ none
        | some r ↦ elim rest [ none ↦ none | some l ↦ some (r ∷ l) ]
      ]

  found_at :
      (oid : List ℕ) (comp : Option Composition) (rs : List R) (start k : ℕ) (es : List (Entry R))
      → same_encoding (encoded comp) (encoded comp) ≡ true
      → All (λ r. syntax_of r ≡ some oid) rs
      → k < length rs
      → find encoded syntax_of (add_entries rs start comp es) (some oid) (start + k) comp
        ≡ get_elem? rs k
  found_at oid comp rs start k es enc syn lt =
      let there : among start rs (start + k) ≡ true = ground arith in
      let back : start + k - start ≡ k = omega arith in
      find-add_entries oid comp rs start (start + k) es enc syn ∙ rw (there, back)

  fill-slice :
      (oid : List ℕ) (comp : Option Composition) (rs : List R) (start k num : ℕ)
      (es : List (Entry R))
      → same_encoding (encoded comp) (encoded comp) ≡ true
      → All (λ r. syntax_of r ≡ some oid) rs
      → k + num ≤ length rs
      → fill encoded syntax_of (add_entries rs start comp es) (some oid) num (start + k) comp
        ≡ slice num k rs
  unfolding fill
  fill-slice oid comp rs start k zero es enc syn le = refl
  fill-slice oid comp rs start k (suc num) es enc syn le =
      let after : start + suc k ≡ start + k + 1 = omega arith in
      ground (
        arith,
        found_at oid comp rs start k es enc syn (omega arith),
        rw after at (fill-slice oid comp rs start (suc k) num es enc syn (omega arith)),
      )

  slice-cons : (num k : ℕ) (r : R) (rs : List R) → slice num (suc k) (r ∷ rs) ≡ slice num k rs
  slice-cons zero k r rs = refl
  slice-cons (suc num) k r rs = ground (arith, slice-cons num (suc k) r rs)

  slice-append : (ws after : List R) → slice (length ws) 0 (ws ++ after) ≡ some ws
  slice-append [] after = refl
  slice-append (w ∷ ws) after = rw (slice-cons (length ws) 0 w (ws ++ after), slice-append ws after)

  slice-middle :
      (before ws after : List R)
      → slice (length ws) (length before) (before ++ (ws ++ after)) ≡ some ws
  slice-middle [] ws after = slice-append ws after
  slice-middle (b ∷ before) ws after =
      slice-cons (length ws) (length before) b (before ++ (ws ++ after))
      ∙ slice-middle before ws after

  -- Right after a response was added, any run of its records is found again, with the syntax and
  -- the composition that they came with; the cache is not over its size, all records of the
  -- response are database records of that syntax, and the composition encodes the same way twice,
  -- to at least one byte or to no buffer.
  pub lookup-add :
      (oid : List ℕ) (comp : Option Composition) (before ws after : List R) (start total : ℕ)
      (c : Cache R)
      → total ≤ c.max_size
      → same_encoding (encoded comp) (encoded comp) ≡ true
      → All (λ r. syntax_of r ≡ some oid) (before ++ (ws ++ after))
      → lookup encoded syntax_of
          (start + length before)
          (length ws)
          (some oid)
          comp
          (add total (before ++ (ws ++ after)) start comp c)
        ≡ some ws
  unfolding add
  lookup-add oid comp before ws after start total c room enc syn =
      let small : ltb c.max_size total ≡ false = ground arith in
      rw small (
        lookup-fill (start + length before) (length ws) (some oid) comp
          (record c { entries = add_entries (before ++ (ws ++ after)) start comp c.entries })
        ∙ fill-slice oid comp (before ++ (ws ++ after)) start (length before) (length ws) c.entries
            enc syn (omega (arith, length-append before (ws ++ after), length-append ws after))
        ∙ slice-middle before ws after)

  fill_cons :
      (es : List (Entry R)) (syntax : Option (List ℕ)) (num start : ℕ) (comp : Option Composition)
      (r : R) (rs : List R)
      → fill encoded syntax_of es syntax (suc num) start comp ≡ some (r ∷ rs)
      → (find encoded syntax_of es syntax start comp ≡ some r)
        × (fill encoded syntax_of es syntax num (start + 1) comp ≡ some rs)
  unfolding fill
  fill_cons es syntax num start comp r rs e = ground arith

  fill_sound :
      (es : List (Entry R)) (syntax : Option (List ℕ)) (num start : ℕ) (comp : Option Composition)
      (rs : List R)
      → fill encoded syntax_of es syntax num start comp ≡ some rs
      → (length rs ≡ num)
        × ((k : ℕ) → k < num → find encoded syntax_of es syntax (start + k) comp ≡ get_elem? rs k)
  fill_sound es syntax zero start comp [] e = (refl, λ k lt. absurd (omega arith))
  fill_sound es syntax zero start comp (r ∷ rs) e = absurd (unfold fill in cc)
  fill_sound es syntax (suc num) start comp [] e = absurd (unfold fill in ground arith)
  fill_sound es syntax (suc num) start comp (r ∷ rs) e =
      let (first, rest) = fill_cons es syntax num start comp r rs e in
      let ih = fill_sound es syntax num (start + 1) comp rs rest in
      (ap suc ih.0, λ k lt. at_place k lt first (λ j lt'. ih.1 j lt'))
    where
      at_place :
          (k : ℕ)
          → k < suc num
          → find encoded syntax_of es syntax start comp ≡ some r
          → ((j : ℕ)
              → j < num
              → find encoded syntax_of es syntax (start + 1 + j) comp ≡ get_elem? rs j)
          → find encoded syntax_of es syntax (start + k) comp ≡ get_elem? (r ∷ rs) k
      at_place zero lt first later = let same : start + 0 ≡ start = omega arith in rw same first
      at_place (suc j) lt first later =
          let same : start + suc j ≡ start + 1 + j = omega arith in rw same (later j (omega arith))

  -- An entry that a place, a syntax and a composition ask for: it has that offset, its record has
  -- that syntax, and its composition encodes the same way, to at least one byte or to no buffer.
  abbrev pub Wanted : Option (List ℕ) → ℕ → Option Composition → Entry R → Type 0
  Wanted syntax offset comp e =
      (oid : List ℕ) × (syntax ≡ some oid)
      × (e.offset ≡ offset)
      × (syntax_of e.item ≡ some oid)
      × (encoded comp ≡ encoded e.comp)
      × (encoded comp ≢ some [])

  -- The first entry of that kind.
  abbrev pub First : Option (List ℕ) → ℕ → Option Composition → List (Entry R) → R → Type ℓ
  First syntax offset comp es r =
      (before : List (Entry R)) × (e : Entry R) × (after : List (Entry R)) × (es
        ≡ before ++ e ∷ after)
      × (e.item ≡ r)
      × Wanted syntax offset comp e
      × All (λ e'. ¬ Wanted syntax offset comp e') before

  Wanted-matches :
      (e : Entry R) (syntax : Option (List ℕ)) (offset : ℕ) (comp : Option Composition)
      → Wanted syntax offset comp e
      → matches encoded syntax_of e syntax offset comp ≡ true
  unfolding matches
  Wanted-matches e syntax offset comp (oid, asked, at_offset, own, same, full) =
      rw (asked, at_offset, own, sym same, same_encoding_self (encoded comp) full, ==_refl offset)
        (same_bytes_refl oid)

  matches-Wanted :
      (e : Entry R) (syntax : Option (List ℕ)) (offset : ℕ) (comp : Option Composition)
      → matches encoded syntax_of e syntax offset comp ≡ true
      → Wanted syntax offset comp e
  unfolding matches
  matches-Wanted e none offset comp h = ground arith
  matches-Wanted e (some oid) offset comp h =
      let (enc, at_offset, own) =
        three (same_encoding (encoded comp) (encoded e.comp)) (e.offset == offset)
          (has_syntax (syntax_of e.item) oid) h in
      let (same, full) = same_encoding_eq (encoded comp) (encoded e.comp) enc in
      (
        oid,
        refl,
        (==_iff e.offset offset).0 at_offset,
        has_syntax_eq (syntax_of e.item) oid own,
        same,
        full,
      )

  find-First :
      (es : List (Entry R)) (syntax : Option (List ℕ)) (offset : ℕ) (comp : Option Composition)
      (r : R)
      → find encoded syntax_of es syntax offset comp ≡ some r
      → First syntax offset comp es r
  unfolding find
  find-First [] syntax offset comp r h = ground arith
  find-First (e ∷ es) syntax offset comp r h =
      elim (Bool-cases (matches encoded syntax_of e syntax offset comp)) [
        | inl yes_e ↦ (
          [],
          e,
          es,
          refl,
          some-injective e.item r (rw yes_e at h),
          matches-Wanted e syntax offset comp yes_e,
          tt,
        )
        | inr no_e ↦
            let (before, e', after, split, same, wanted, none_before) =
              find-First es syntax offset comp r (rw no_e at h) in
            (
              e ∷ before,
              e',
              after,
              ap (◌∷◌ e) split,
              same,
              wanted,
              ((λ w. false≢true (sym no_e ∙ Wanted-matches e syntax offset comp w)), none_before),
            )
      ]

  -- A `lookup` that succeeds gives as many records as were asked for, and the one at each place is
  -- that of the first entry with the offset of that place, the syntax, and a composition that
  -- encodes the same way.
  pub lookup_sound :
      (start num : ℕ) (syntax : Option (List ℕ)) (comp : Option Composition) (c : Cache R)
      (rs : List R) (k : ℕ)
      → lookup encoded syntax_of start num syntax comp c ≡ some rs
      → k < num
      → (length rs ≡ num)
        × ((r : R) × (get_elem? rs k ≡ some r) × First syntax (start + k) comp c.entries r)
  lookup_sound start num syntax comp c rs k e below =
      let (as_many, each) =
        fill_sound c.entries syntax num start comp rs
          (sym (lookup-fill start num syntax comp c) ∙ e) in
      let (r, there) = get_elem?-some rs k (omega (arith, as_many)) in
      (as_many, (r, there, find-First c.entries syntax (start + k) comp r (each k below ∙ there)))
