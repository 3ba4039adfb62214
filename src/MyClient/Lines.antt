-- ===== src/MyClient/Lines.antt =====
-- src/yaz-my-client.cpp: what is kept of a line that is typed, and the buffers that take it apart.
use mathlib.Core.List.{reverse, reverse-append, reverse-reverse, append_assoc}
use yazpp.Prelude.{
  ℕ, zero, suc, ◌+◌, ◌≡◌, ◌≤◌, ◌<◌, refl, sym, ap, ◌∙◌, subst, ◌⊎◌, inl, inr, Bool, true, false,
  List, [], ◌∷◌, ◌++◌, Option, none, some, length, length-reverse, take, All, All-append, arith,
  Bool-cases,
}
use yazpp.Apdu.{Octets}
use yazpp.MyClient.Typing.{
  is_blank, is_space, is_semicolon, skip, until, or_last, get_command, split_command, named,
}

length-skip : (p : ℕ → Bool) (xs : Octets) → length (skip p xs) ≤ length xs
length-skip p [] = omega arith
length-skip p (x ∷ xs) = ground (arith, length-skip p xs)

length-until :
    (p : ℕ → Bool) (xs : Octets) → length (until p xs).0 + length (until p xs).1 ≡ length xs
length-until p [] = refl
length-until p (x ∷ xs) = ground (arith, length-until p xs)

length-take : (n : ℕ) (xs : Octets) → length (take n xs) ≤ n
length-take zero xs = omega arith
length-take (suc n) [] = omega arith
length-take (suc n) (x ∷ xs) = omega (arith, length-take n xs)

-- What `sscanf` stores, each with a 0 after it, fits in the two buffers of 1024 bytes.
abbrev pub Fits : Option (Octets × Octets) → Type 0
Fits none = Unit
Fits (some (word, args)) = (length word < 1024) × (length args < 1024)

split_command-Fits : (line : Octets) → length line < 1024 → Fits (split_command line)
unfolding split_command
split_command-Fits line h =
    fits (until is_space (skip is_space line))
      (omega (arith, length-until is_space (skip is_space line), length-skip is_space line))
  where
    fits : (r : Octets × Octets) → length r.0 + length r.1 < 1024 → Fits (named r)
    fits ([], rest) h = tt
    fits (c ∷ word, rest) h = (
      omega arith,
      omega (arith, length-until is_semicolon (skip is_space rest), length-skip is_space rest),
    )

or_last-le :
    (xs last : Octets) → length xs < 1024 → length last < 1024 → length (or_last xs last) < 1024
or_last-le [] last h k = k
or_last-le (x ∷ xs) last h k = h

get_command-le : (line last : Octets) → length last < 1024 → length (get_command line last) < 1024
unfolding get_command
get_command-le line last h =
    let t = take 1023 line in
    let s = skip is_blank (reverse t) in
    or_last-le (skip is_blank (reverse s)) last
      (omega (
        arith,
        length-skip is_blank (reverse s),
        length-reverse s,
        length-skip is_blank (reverse t),
        length-reverse t,
        length-take 1023 line,
      ))
      h

-- The commands that lines stand for.
abbrev pub commands : List Octets → Octets → List Octets
commands [] last = []
commands (line ∷ lines) last = let cmd = get_command line last in cmd ∷ commands lines cmd

-- Whatever lines are typed, the word and the arguments of every command fit in the buffers that
-- take them, if the command before the first line is shorter than they are.
pub commands-Fits :
    (lines : List Octets) (last : Octets)
    → length last < 1024
    → All (λ cmd. Fits (split_command cmd)) (commands lines last)
commands-Fits [] last h = tt
commands-Fits (line ∷ lines) last h =
    let k = get_command-le line last h in
    (split_command-Fits (get_command line last) k, commands-Fits lines (get_command line last) k)

-- What `skip` removes, and where it stops.
abbrev pub Passes : (ℕ → Bool) → Octets → Type 0
Passes p = All (λ c. p c ≡ true)

abbrev StopsAt : (ℕ → Bool) → Octets → Type 0
StopsAt p [] = Unit
StopsAt p (c ∷ cs) = p c ≡ false

skip-split : (p : ℕ → Bool) (xs : Octets) → (pre : Octets) × (xs ≡ pre ++ skip p xs) × Passes p pre
skip-split p [] = ([], refl, tt)
skip-split p (x ∷ xs) =
    let (pre, e, all) = skip-split p xs in
    elim (Bool-cases (p x)) [
      | inl yes_p ↦ (x ∷ pre, rw yes_p (ap (◌∷◌ x) e), (yes_p, all))
      | inr no_p ↦ ([], rw no_p refl, tt)
    ]

skip-StopsAt : (p : ℕ → Bool) (xs : Octets) → StopsAt p (skip p xs)
skip-StopsAt p [] = tt
skip-StopsAt p (x ∷ xs) = ground (arith, skip-StopsAt p xs)

StopsAt-append : (p : ℕ → Bool) (xs ys : Octets) → StopsAt p (xs ++ ys) → StopsAt p xs
StopsAt-append p [] ys h = tt
StopsAt-append p (x ∷ xs) ys h = h

Passes-reverse : (p : ℕ → Bool) (xs : Octets) → Passes p xs → Passes p (reverse xs)
Passes-reverse p [] h = tt
Passes-reverse p (x ∷ xs) h =
    rw (reverse-append (x ∷ []) xs)
      (All-append (λ c. p c ≡ true) (reverse xs) (x ∷ []) (Passes-reverse p xs h.1) (h.0, tt))

-- What is kept of a line: a part with only blanks before and after it, that is not empty and neither
-- begins nor ends with a blank.
abbrev pub Kept : Octets → Octets → Type 0
Kept line cmd =
    (before : Octets) × (after : Octets) × (line ≡ before ++ (cmd ++ after))
    × (0 < length cmd)
    × Passes is_blank before
    × Passes is_blank after
    × StopsAt is_blank cmd
    × StopsAt is_blank (reverse cmd)

reversed : (xs pre rest : Octets) → reverse xs ≡ pre ++ rest → xs ≡ reverse rest ++ reverse pre
reversed xs pre rest e = sym (reverse-reverse xs) ∙ ap reverse e ∙ reverse-append pre rest

trimmed :
    (t last v pre1 pre2 : Octets)
    → t ≡ (pre2 ++ v) ++ reverse pre1
    → Passes is_blank pre1
    → Passes is_blank pre2
    → StopsAt is_blank v
    → StopsAt is_blank (reverse v)
    → (Passes is_blank t × (or_last v last ≡ last)) ⊎ (Kept t (or_last v last))
trimmed t last [] pre1 pre2 e h1 h2 s s' = inl (
  subst (Passes is_blank) (sym e) (
      All-append (λ c. is_blank c ≡ true) (pre2 ++ []) (reverse pre1)
        (All-append (λ c. is_blank c ≡ true) pre2 [] h2 tt) (Passes-reverse is_blank pre1 h1)),
  refl,
)
trimmed t last (c ∷ v) pre1 pre2 e h1 h2 s s' = inr (
  pre2,
  reverse pre1,
  e ∙ append_assoc pre2 (c ∷ v) (reverse pre1),
  omega arith,
  h2,
  Passes-reverse is_blank pre1 h1,
  s,
  s',
)

-- A line of which the first 1023 bytes are blank stands for the last command; of any other, these
-- bytes without the blanks at their two ends, which are not empty, are the command.
pub get_command-Kept :
    (line last : Octets)
    → (Passes is_blank (take 1023 line) × (get_command line last ≡ last))
      ⊎ Kept (take 1023 line) (get_command line last)
unfolding get_command
get_command-Kept line last =
    let t = take 1023 line in
    let s = skip is_blank (reverse t) in
    let (pre1, e1, h1) = skip-split is_blank (reverse t) in
    let (pre2, e2, h2) = skip-split is_blank (reverse s) in
    let v = skip is_blank (reverse s) in
    trimmed t last v pre1 pre2 (reversed t pre1 s e1 ∙ ap (λ u. u ++ reverse pre1) e2) h1 h2
      (skip-StopsAt is_blank (reverse s))
      (StopsAt-append is_blank (reverse v) (reverse pre2)
        (subst (StopsAt is_blank) (reversed s pre2 v e2) (skip-StopsAt is_blank (reverse t))))
