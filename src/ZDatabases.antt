-- ===== src/ZDatabases.antt =====
-- src/yaz-z-databases.cpp: a list of database names. A string is the list of its bytes before the
-- one that ends it, `none` for a null pointer.
pub mod Match
use yazpp.Prelude.{ℕ, Bool, true, false, ◌&&◌, List, [], ◌∷◌, Option, none, some, ◌==◌, length}
use yazpp.Apdu.{Octets}

-- `m_num` and `m_list`, of that length.
pub record Databases : Type 0 where
  pub num : ℕ
  pub list : List Octets

unfoldable pub new : Databases
new = record { num = 0; list = [] }

-- A copy of a name; "Default" for a null pointer.
abbrev pub name_or_default : Option Octets → Octets
name_or_default none = 68 ∷ 101 ∷ 102 ∷ 97 ∷ 117 ∷ 108 ∷ 116 ∷ []
name_or_default (some db) = db

abbrev pub copy_names : List (Option Octets) → List Octets
copy_names [] = []
copy_names (db ∷ dbs) = name_or_default db ∷ copy_names dbs

-- `set`; `num` is the length of the list it is given.
unfoldable pub set_names : List (Option Octets) → Databases
set_names dbs = record { num = length dbs; list = copy_names dbs }

unfoldable pub get_names : Databases → ℕ × List Octets
get_names d = (d.num, d.list)

-- `!strcmp(a, b)`.
abbrev pub same_string : Octets → Octets → Bool
same_string [] [] = true
same_string [] (y ∷ ys) = false
same_string (x ∷ xs) [] = false
same_string (x ∷ xs) (y ∷ ys) = x == y && same_string xs ys

-- The loop of `match`, over the names of two lists as long as each other.
unfoldable pub same_names : List Octets → List Octets → Bool
same_names [] ys = true
same_names (a ∷ xs) [] = true
same_names (a ∷ xs) (b ∷ ys) = same_string a b && same_names xs ys

unfoldable pub match_names : ℕ → List Octets → Databases → Bool
match_names num dbs d = num == d.num && same_names d.list dbs

-- `match` with another list.
unfoldable pub match_databases : Databases → Databases → Bool
match_databases other d = match_names other.num other.list d
