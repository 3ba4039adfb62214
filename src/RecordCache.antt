-- ===== src/RecordCache.antt =====
-- src/yaz-z-cache.cpp: a client's cache of the records of one search. Records are of any type, with
-- the object identifier of their syntax; what ODR and NMEM answer is an argument. Offsets do not
-- wrap, and a database record in the cache has its `direct_reference`.
pub mod Lookup
use yazpp.Prelude.{
  ℕ, zero, suc, ◌+◌, Bool, true, false, not, ◌&&◌, List, [], ◌∷◌, Option, none, some, is_some,
  if◌then◌else◌, ltb, ◌==◌,
}
use yazpp.Prelude.Int.{ℤ, pos, negsuc, ◌==ℤ◌, ltb_ℤ, leb_ℤ}

-- `memcmp` of two buffers of one length, and `oid_oidcmp`: equal lists of numbers.
abbrev pub same_bytes : List ℕ → List ℕ → Bool
same_bytes [] [] = true
same_bytes [] (y ∷ ys) = false
same_bytes (x ∷ xs) [] = false
same_bytes (x ∷ xs) (y ∷ ys) = x == y && same_bytes xs ys

-- A `Z_RecordComposition`: an element set name, which may be null, or a composition of another
-- kind; both are known by a number.
pub data Composition : Type 0 where
  simple : Option ℕ → Composition
  complex : ℕ → Composition

-- The fields of a `Z_SearchRequest` and a `Z_PresentRequest` that the cache reads.
pub record SearchRequest : Type 0 where
  pub small_set_upper_bound : ℤ
  pub small_set_names : Option ℕ
  pub medium_set_names : Option ℕ

pub record PresentRequest : Type 0 where
  pub composition : Option Composition

pub record Entry {ℓ} (R : Type ℓ) : Type ℓ where
  pub offset : ℕ
  pub item : R
  pub comp : Option Composition

pub record Cache {ℓ} (R : Type ℓ) : Type ℓ where
  pub entries : List (Entry R)
  pub search_request : Option SearchRequest
  pub present_request : Option PresentRequest
  pub max_size : ℕ

-- Both compositions encode to the same bytes, or both to nothing.
abbrev pub same_encoding : Option (List ℕ) → Option (List ℕ) → Bool
same_encoding none none = true
same_encoding none (some bs) = false
same_encoding (some bs) none = false
same_encoding (some []) (some bs) = false
same_encoding (some (b ∷ bs)) (some cs) = same_bytes (b ∷ bs) cs

-- The syntax of a record, if it is a database record, against the one asked for.
abbrev pub has_syntax : Option (List ℕ) → List ℕ → Bool
has_syntax none oid = false
has_syntax (some own) oid = same_bytes own oid

module _ {ℓ} {R : Type ℓ} where
  unfoldable pub new : Cache R
  new = record { entries = []; search_request = none; present_request = none; max_size = 200000 }

  unfoldable pub set_max_size : ℕ → Cache R → Cache R
  set_max_size sz c = record c { max_size = sz }

  unfoldable pub clear : Cache R → Cache R
  clear c = record c { entries = []; search_request = none; present_request = none }

  -- `copied` is the request after it was encoded and decoded, `none` if that failed.
  unfoldable pub copy_search_request : Option SearchRequest → Cache R → Cache R
  copy_search_request copied c = record c { search_request = copied; present_request = none }

  unfoldable pub copy_present_request : Option PresentRequest → Cache R → Cache R
  copy_present_request copied c = record c { search_request = none; present_request = copied }

  -- The loop of `add`: the entry of a later record stands before those of the earlier ones.
  unfoldable pub add_entries : List R → ℕ → Option Composition → List (Entry R) → List (Entry R)
  add_entries [] start comp entries = entries
  add_entries (r ∷ rs) start comp entries =
      add_entries rs (start + 1) comp (record { offset = start; item = r; comp = comp } ∷ entries)

  -- `add` with a composition; `total` is what `nmem_total` gives.
  unfoldable pub add : ℕ → List R → ℕ → Option Composition → Cache R → Cache R
  add total rs start comp c =
      if ltb c.max_size total then c else record c { entries = add_entries rs start comp c.entries }

  -- The composition that the request before a response stands for.
  unfoldable pub response_composition : ℤ → Cache R → Option Composition
  response_composition hits c =
      let by_search : Option Composition = elim c.search_request [
        | none ↦ none
        | some s ↦ some (
            simple (
              if leb_ℤ hits s.small_set_upper_bound then s.small_set_names else s.medium_set_names))
      ] in
      let searched = if ltb_ℤ (pos 0) hits then by_search else none in
      elim c.present_request [
        | none ↦ searched
        | some p ↦ if hits ==ℤ negsuc 0 then p.composition else searched
      ]

  -- `add` with the number of hits, or -1 for a present response.
  unfoldable pub add_response : ℕ → List R → ℕ → ℤ → Cache R → Cache R
  add_response total rs start hits c = add total rs start (response_composition hits c) c

  -- The encoder of ODR, with `none` for no buffer; and the syntax of a record, with `none` for
  -- one that is no database record.
  module _ (encoded : Option Composition → Option (List ℕ)) (syntax_of : R → Option (List ℕ)) where
    unfoldable pub matches : Entry R → Option (List ℕ) → ℕ → Option Composition → Bool
    matches e syntax offset comp =
        let by_syntax : Bool = elim syntax [
          | none ↦ false
          | some oid ↦ e.offset == offset && has_syntax (syntax_of e.item) oid
        ] in
        if same_encoding (encoded comp) (encoded e.comp) then by_syntax else false

    -- The first entry that matches.
    unfoldable pub find : List (Entry R) → Option (List ℕ) → ℕ → Option Composition → Option R
    find [] syntax offset comp = none
    find (e ∷ es) syntax offset comp =
        if matches e syntax offset comp then some e.item else find es syntax offset comp

    -- The first loop of `lookup`: every record is there.
    unfoldable pub all_there : List (Entry R) → Option (List ℕ) → ℕ → ℕ → Option Composition → Bool
    all_there es syntax zero start comp = true
    all_there es syntax (suc num) start comp =
        is_some (find es syntax start comp) && all_there es syntax num (start + 1) comp

    -- The second loop, which fills the list and gives up at a record that is not there.
    unfoldable pub fill :
        List (Entry R) → Option (List ℕ) → ℕ → ℕ → Option Composition → Option (List R)
    fill es syntax zero start comp = some []
    fill es syntax (suc num) start comp =
        let rest = fill es syntax num (start + 1) comp in
        elim (find es syntax start comp) [
          | none ↦ none
          | some r ↦ elim rest [ none ↦ none | some rs ↦ some (r ∷ rs) ]
        ]

    unfoldable pub lookup : ℕ → ℕ → Option (List ℕ) → Option Composition → Cache R → Option (List R)
    lookup start num syntax comp c =
        if all_there c.entries syntax num start comp
        then fill c.entries syntax num start comp
        else none
