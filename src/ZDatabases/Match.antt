-- ===== src/ZDatabases/Match.antt =====
-- When the lists of src/yaz-z-databases.cpp match.
use yazpp.Prelude.{
  true, ◌≡◌, ◌↔◌, refl, ap, sym, subst, inl, inr, Bool-cases, List, [], ◌∷◌, Option, length, arith,
  suc,
}
use yazpp.Apdu.{Octets}
use yazpp.ZDatabases.{
  Databases, set_names, copy_names, same_string, same_names, match_names, match_databases,
}

-- `m_list` has `m_num` names.
abbrev pub Sized : Databases → Type 0
Sized d = d.num ≡ length d.list

same_string-eq : (a b : Octets) → same_string a b ≡ true → a ≡ b
same_string-eq [] [] h = refl
same_string-eq [] (y ∷ ys) h = cc
same_string-eq (x ∷ xs) [] h = cc
same_string-eq (x ∷ xs) (y ∷ ys) h = ground (arith, same_string-eq xs ys)

same_string_refl : (a : Octets) → same_string a a ≡ true
same_string_refl [] = refl
same_string_refl (x ∷ xs) = ground (arith, same_string_refl xs)

same_names-eq : (xs ys : List Octets) → length xs ≡ length ys → same_names xs ys ≡ true → xs ≡ ys
unfolding same_names
same_names-eq [] [] e h = refl
same_names-eq [] (b ∷ ys) e h = absurd (omega arith)
same_names-eq (a ∷ xs) [] e h = absurd (omega arith)
same_names-eq (a ∷ xs) (b ∷ ys) e h = ground (arith, same_string-eq a b, same_names-eq xs ys)

same_names_refl : (xs : List Octets) → same_names xs xs ≡ true
unfolding same_names
same_names_refl [] = refl
same_names_refl (a ∷ xs) = ground (arith, same_string_refl a, same_names_refl xs)

length-copy_names : (dbs : List (Option Octets)) → length (copy_names dbs) ≡ length dbs
length-copy_names [] = refl
length-copy_names (db ∷ dbs) = ap suc (length-copy_names dbs)

-- Two lists whose numbers are the lengths of theirs match exactly if they hold the same names in
-- the same order.
pub match_databases_iff :
    (a b : Databases) → Sized a → Sized b → (match_databases a b ≡ true) ↔ (a.list ≡ b.list)
unfolding match_databases match_names
match_databases_iff a b sa sb = (
  (λ h. sym (
      same_names-eq b.list a.list (ground arith)
        (elim (Bool-cases (same_names b.list a.list)) [ inl e ↦ e | inr e ↦ ground arith ]))),
  (λ e. ground (arith, same_names_refl b.list, subst (λ l. length l ≡ b.num) (sym e) (sym sb))),
)

-- The names of a list that was just set match those that it was set from, with the default name
-- for null pointers.
pub match_names-set_names :
    (dbs : List (Option Octets)) → match_names (length dbs) (copy_names dbs) (set_names dbs) ≡ true
unfolding match_names set_names
match_names-set_names dbs = ground (arith, same_names_refl (copy_names dbs))
