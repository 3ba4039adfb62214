-- ===== src/IrAssoc/Names.antt =====
-- The database names that yaz-ir-assoc.cpp takes from a string.
use mathlib.Core.List.{append-nil, append_assoc}
use yazpp.Prelude.{
  ℕ, ◌+◌, ◌≤◌, true, false, ◌≡◌, ◌≢◌, refl, sym, ap, ◌∙◌, List, [], ◌∷◌, ◌++◌, none, some, length,
  length-append, All, All-append, arith, Bool-cases, inl, inr,
}
use yazpp.Apdu.{Octets}
use yazpp.IrAssoc.{
  Session, is_separator, end_name, scan_names, split_names, set_database_names, client,
}

abbrev pub NoSeparator : Octets → Octets → Type 0
NoSeparator sep = All (λ c. is_separator sep c ≡ false)

-- A database name: it has a byte, and no separator.
abbrev pub Name : Octets → Octets → Type 0
Name sep word = (word ≢ []) × NoSeparator sep word

-- The names with a byte between each and the next.
abbrev pub join_names : ℕ → List Octets → Octets
join_names c [] = []
join_names c (w ∷ []) = w
join_names c (w ∷ v ∷ ws) = w ++ c ∷ join_names c (v ∷ ws)

scan_names-append :
    (sep w word rest : Octets)
    → NoSeparator sep w
    → scan_names sep word (w ++ rest) ≡ scan_names sep (word ++ w) rest
unfolding scan_names
scan_names-append sep [] word rest h = rw (append-nil word) refl
scan_names-append sep (c ∷ w) word rest h =
    rw h.0
      (scan_names-append sep w (word ++ c ∷ []) rest h.1 ∙ rw (append_assoc word (c ∷ []) w) refl)

end_name-cons : (w : Octets) (rest : List Octets) → w ≢ [] → end_name w rest ≡ w ∷ rest
end_name-cons [] rest h = absurd (h refl)
end_name-cons (c ∷ w) rest h = refl

-- Names that are joined by a separator are taken apart again, in their order.
pub split_names-join_names :
    (sep : Octets) (c : ℕ) (names : List Octets)
    → is_separator sep c ≡ true
    → All (Name sep) names
    → split_names sep (join_names c names) ≡ names
unfolding split_names scan_names
split_names-join_names sep c [] s h = refl
split_names-join_names sep c (w ∷ []) s h =
    ap (scan_names sep []) (sym (append-nil w))
    ∙ scan_names-append sep w [] [] h.0.1
    ∙ end_name-cons w [] h.0.0
split_names-join_names sep c (w ∷ v ∷ ws) s h =
    let ih = split_names-join_names sep c (v ∷ ws) s h.1 in
    scan_names-append sep w [] (c ∷ join_names c (v ∷ ws)) h.0.1
    ∙ rw (s, ih) (end_name-cons w (v ∷ ws) h.0.0)

end_name-le :
    (word : Octets) (rest : List Octets) → length (end_name word rest) ≤ length word + length rest
end_name-le [] rest = omega arith
end_name-le (c ∷ word) rest = omega arith

scan_names-le :
    (sep word rest : Octets) → length (scan_names sep word rest) ≤ length word + length rest
unfolding scan_names
scan_names-le sep word [] = omega (arith, end_name-le word [])
scan_names-le sep word (c ∷ rest) = ground (
  arith,
  length-append word (c ∷ []),
  scan_names-le sep (word ++ c ∷ []) rest,
  scan_names-le sep [] rest,
  end_name-le word (scan_names sep [] rest),
)

-- There are never more names than bytes, which is what the array of them has room for.
pub split_names-le : (sep dblist : Octets) → length (split_names sep dblist) ≤ length dblist
unfolding split_names
split_names-le sep dblist = omega (arith, scan_names-le sep [] dblist)

end_name-Name :
    (sep word : Octets) (rest : List Octets)
    → NoSeparator sep word
    → All (Name sep) rest
    → All (Name sep) (end_name word rest)
end_name-Name sep [] rest h r = r
end_name-Name sep (c ∷ word) rest h r = (((λ e. cc), h), r)

scan_names-Name :
    (sep word rest : Octets) → NoSeparator sep word → All (Name sep) (scan_names sep word rest)
unfolding scan_names
scan_names-Name sep word [] h = end_name-Name sep word [] h tt
scan_names-Name sep word (c ∷ rest) h = elim (Bool-cases (is_separator sep c)) [
  | inl e ↦ rw e (end_name-Name sep word _ h (scan_names-Name sep [] rest tt))
  | inr e ↦ rw e (
      scan_names-Name sep (word ++ c ∷ []) rest
        (All-append (λ x. is_separator sep x ≡ false) word (c ∷ []) h (e, tt)))
]

-- Whatever the string holds, each name that is taken from it has a byte and no separator.
pub split_names-Name : (sep dblist : Octets) → All (Name sep) (split_names sep dblist)
unfolding split_names
split_names-Name sep dblist = scan_names-Name sep [] dblist tt

-- A client that is given an address with database names, joined by `+`, searches in these, and
-- connects to the proxy if there is one, to the address otherwise.
pub client-names :
    (names : List Octets) (addr part : Octets) (s : Session)
    → part ≡ join_names 43 names
    → part ≢ []
    → All (Name (43 ∷ 32 ∷ [])) names
    → ((client (some part) addr s).0.database_names ≡ names)
      × ((client (some part) addr s).1 ≡ elim s.proxy [ none ↦ addr | some p ↦ p ])
unfolding client set_database_names
client-names names addr [] s e ne h = absurd (ne refl)
client-names names addr (b ∷ part) s e ne h = (
  ap (split_names (43 ∷ 32 ∷ [])) e ∙ split_names-join_names (43 ∷ 32 ∷ []) 43 names refl h,
  refl,
)
