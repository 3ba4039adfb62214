-- ===== src/MyClient/Typing.antt =====
-- src/yaz-my-client.cpp: a line that is typed, and the command that it names. The line comes from
-- `readline`. Bytes of a string are not 0.
use yazpp.Prelude.{
  ℕ, zero, suc, ◌+◌, ◌-◌, ◌*◌, Bool, true, false, not, ◌&&◌, ◌||◌, List, [], ◌∷◌, Option, none,
  some, if◌then◌else◌, leb, ◌==◌, take,
}
use mathlib.Core.List.{reverse}
use yazpp.Prelude.Int.{ℤ, pos, negsuc}
use yazpp.Prelude.Text.{codes}
use yazpp.Apdu.{Octets}

-- `strchr("\t \n", c)`, and `isspace` of `sscanf`.
abbrev pub is_blank : ℕ → Bool
is_blank c = c == 9 || (c == 32 || c == 10)

abbrev pub is_space : ℕ → Bool
is_space c = c == 32 || (leb 9 c && leb c 13)

abbrev pub is_semicolon : ℕ → Bool
is_semicolon c = c == b';'

-- The bytes after the first ones that pass a test.
abbrev pub skip : (ℕ → Bool) → Octets → Octets
skip p [] = []
skip p (c ∷ cs) = let rest = skip p cs in if p c then rest else c ∷ cs

-- The bytes before the first that passes a test, and those from it on.
abbrev pub until : (ℕ → Bool) → Octets → Octets × Octets
until p [] = ([], [])
until p (c ∷ cs) =
    let (before, rest) = until p cs in if p c then ([], c ∷ cs) else (c ∷ before, rest)

abbrev pub or_last : Octets → Octets → Octets
or_last [] last = last
or_last (c ∷ cs) last = c ∷ cs

-- `getCommand`: 1023 bytes of the line are kept, those at its ends that are blank are removed, and
-- a line that has no others stands for the last command. The result is the new last command.
unfoldable pub get_command : Octets → Octets → Octets
get_command line last =
    or_last (skip is_blank (reverse (skip is_blank (reverse (take 1023 line))))) last

-- `sscanf(commandLine, "%s %[^;]", cmdStr, cmdArgs)`: `none` where it finds no word.
abbrev pub named : Octets × Octets → Option (Octets × Octets)
named ([], rest) = none
named (c ∷ word, rest) = some (c ∷ word, (until is_semicolon (skip is_space rest)).0)

unfoldable pub split_command : Octets → Option (Octets × Octets)
split_command line = named (until is_space (skip is_space line))

pub data Command : Type 0 where
  open_host connect_host quit close_session find show cookie init format proxy : Command

-- `cmd[]`.
abbrev pub table : List (Octets × Command)
table =
    (codes "open", open_host)
    ∷ (codes "connect", connect_host)
    ∷ (codes "quit", quit)
    ∷ (codes "close", close_session)
    ∷ (codes "find", find)
    ∷ (codes "show", show)
    ∷ (codes "cookie", cookie)
    ∷ (codes "init", init)
    ∷ (codes "format", format)
    ∷ (codes "proxy", proxy)
    ∷ []

-- `!strncmp(name, word, strlen(word))`.
abbrev pub begins : Octets → Octets → Bool
begins [] name = true
begins (c ∷ word) [] = false
begins (c ∷ word) (d ∷ name) = c == d && begins word name

-- The loop over the table.
unfoldable pub find_command : Octets → List (Octets × Command) → Option Command
find_command word [] = none
find_command word ((name, c) ∷ rest) =
    let later = find_command word rest in if begins word name then some c else later

-- One number of `sscanf(args, "%d %d", …)` and the rest; `none` where there is none.
abbrev pub is_digit : ℕ → Bool
is_digit c = leb b'0' c && leb c b'9'

abbrev number_of : ℕ → Octets → ℕ
number_of n [] = n
number_of n (d ∷ ds) = number_of (n * 10 + (d - b'0')) ds

abbrev negative : ℕ → ℤ
negative zero = pos 0
negative (suc n) = negsuc n

abbrev digits_after : (ℕ → ℤ) → Octets × Octets → Option (ℤ × Octets)
digits_after sign ([], rest) = none
digits_after sign (d ∷ ds, rest) = some (sign (number_of 0 (d ∷ ds)), rest)

abbrev is_no_digit : ℕ → Bool
is_no_digit c = not (is_digit c)

abbrev signed : Octets → Option (ℤ × Octets)
signed [] = none
signed (c ∷ cs) =
    if c == b'-'
    then digits_after negative (until is_no_digit cs)
    else digits_after pos (until is_no_digit (if c == b'+' then cs else c ∷ cs))

unfoldable pub scan_number : Octets → Option (ℤ × Octets)
scan_number s = signed (skip is_space s)

-- `start` and `number` of `cmd_show`, which keep what they are where nothing is read. A number that
-- an `int` does not hold is not looked at.
unfoldable pub scan_range : ℤ → ℤ → Octets → ℤ × ℤ
unfolding scan_number
scan_range start number args = elim (scan_number args) [
  | none ↦ (start, number)
  | some (s, rest) ↦ elim (scan_number rest) [ none ↦ (s, number) | some (n, rest') ↦ (s, n) ]
]
