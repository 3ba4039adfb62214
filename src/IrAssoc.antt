-- ===== src/IrAssoc.antt =====
-- src/yaz-ir-assoc.cpp: what a client session keeps. Strings are the lists of their bytes before
-- the one that ends them, `none` for a null pointer.
pub mod Names
pub mod Requests
pub mod Carried
use yazpp.Prelude.{
  ℕ, Bool, true, false, ◌||◌, List, [], ◌∷◌, ◌++◌, Option, none, some, if◌then◌else◌, ◌==◌,
}
use yazpp.Prelude.Int.{ℤ, pos}
use yazpp.Apdu.{Octets}

pub record Session : Type 0 where
  pub database_names : List Octets
  pub record_syntax : Option Octets
  pub element_set_names : Option Octets
  pub last_received : ℤ
  pub host : Option Octets
  pub proxy : Option Octets
  pub cookie : Option Octets

-- The constructor; the name is "Default".
unfoldable pub new_session : Session
new_session = record {
  database_names = (68 ∷ 101 ∷ 102 ∷ 97 ∷ 117 ∷ 108 ∷ 116 ∷ []) ∷ [];
  record_syntax = none;
  element_set_names = none;
  last_received = pos 0;
  host = none;
  proxy = none;
  cookie = none;
}

-- `strchr(sep, c)` for a byte that is not 0.
abbrev pub is_separator : Octets → ℕ → Bool
is_separator [] c = false
is_separator (s ∷ sep) c = s == c || is_separator sep c

-- A name that ends here: none if it has no bytes.
abbrev pub end_name : Octets → List Octets → List Octets
end_name [] rest = rest
end_name (c ∷ word) rest = (c ∷ word) ∷ rest

-- The loop of `set_databaseNames(dblist, sep)`, with the `len` bytes before `cp`.
unfoldable pub scan_names : Octets → Octets → Octets → List Octets
scan_names sep word [] = end_name word []
scan_names sep word (c ∷ rest) =
    let longer = scan_names sep (word ++ c ∷ []) rest in
    let later = scan_names sep [] rest in if is_separator sep c then end_name word later else longer

unfoldable pub split_names : Octets → Octets → List Octets
split_names sep dblist = scan_names sep [] dblist

unfoldable pub set_database_names : List Octets → Session → Session
set_database_names names s = record s { database_names = names }

-- A null pointer and the empty string both say that there is none.
abbrev pub unless_empty : Option Octets → Option Octets
unless_empty none = none
unless_empty (some []) = none
unless_empty (some (c ∷ cs)) = some (c ∷ cs)

unfoldable pub set_preferred_record_syntax : Option Octets → Session → Session
set_preferred_record_syntax syntax s = record s { record_syntax = unless_empty syntax }

unfoldable pub get_preferred_record_syntax : Session → Octets
get_preferred_record_syntax s = elim s.record_syntax [ none ↦ [] | some syntax ↦ syntax ]

unfoldable pub set_element_set_name : Option Octets → Session → Session
set_element_set_name name s = record s { element_set_names = unless_empty name }

unfoldable pub set_proxy : Option Octets → Session → Session
set_proxy str s = record s { proxy = str }

unfoldable pub set_cookie : Option Octets → Session → Session
set_cookie str s = record s { cookie = str }

unfoldable pub set_last_received : ℤ → Session → Session
set_last_received n s = record s { last_received = n }

-- `client`, with the address that `Z_Assoc::client` is given. `dbpart` is what `cs_get_host_args`
-- finds; the names are separated by `+` and spaces.
unfoldable pub client : Option Octets → Octets → Session → Session × Octets
client dbpart addr s =
    let called = record s { host = some addr } in
    let named : Session = elim (unless_empty dbpart) [
      | none ↦ called
      | some part ↦ set_database_names (split_names (43 ∷ 32 ∷ []) part) called
    ] in
    (named, elim s.proxy [ none ↦ addr | some p ↦ p ])
