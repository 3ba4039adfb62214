-- ===== src/Zlint/Callbacks.antt =====
-- zlint/zlint.cpp: the callbacks of an association in turn, and what keeps their order.
use yazpp.Prelude.{ℕ, suc, ◌+◌, ◌≡◌, refl, ap, List, [], ◌∷◌, ◌++◌, map, Option, none, some, arith}
use yazpp.Prelude.Int.{ℤ}
use yazpp.Zlint.{Gdu, Request, Done}
use yazpp.Zlint.Driver.{
  TestClass, Entry, Zlint, Action, connects, closes, sends_request, updated, connect_notify,
  fail_notify, timeout_notify, recv_gdu,
}

-- The callbacks of an association.
pub data Event : Type 0 where
  connection : ℤ → ℤ → Event
  failure timeout : Event
  arrival : Gdu → Event

unfoldable pub callback : Event → Zlint → Option (Zlint × List Action)
callback (connection r r') z = some (connect_notify r r' z)
callback failure z = some (fail_notify z)
callback timeout z = some (timeout_notify z)
callback (arrival g) z = recv_gdu g z

-- All callbacks in turn; a read of what is not there ends the run without a result.
abbrev pub after : Option (Zlint × List Action) → List Action → Option (Zlint × List Action)
after none acts = none
after (some (z, more)) acts = some (z, acts ++ more)

-- All callbacks in turn; a read of what is not there ends the run without a result.
abbrev pub first_then :
    (Zlint → Option (Zlint × List Action))
    → Option (Zlint × List Action)
    → Option (Zlint × List Action)
first_then go none = none
first_then go (some (z, acts)) = after (go z) acts

unfoldable pub run : List Event → Zlint → Option (Zlint × List Action)
run [] z = some (z, [])
run (ev ∷ evs) z = first_then (run evs) (callback ev z)

abbrev pub classes : List Entry → List TestClass
classes es = map (λ e. e.test) es

-- How often the association is closed, and whether there is a current test.
abbrev pub closed_times : List Action → ℕ
closed_times [] = 0
closed_times (closes ∷ acts) = suc (closed_times acts)
closed_times (connects host ∷ acts) = closed_times acts
closed_times (sends_request r ∷ acts) = closed_times acts

abbrev pub to_do : List Entry → ℕ
to_do [] = 0
to_do (e ∷ es) = 1

-- From the lists `passed` and `rest` on: tests are only added to those that have passed, all tests
-- stay in their order, and the association is closed when the last one passes, and only then.
abbrev pub InOrder : List Entry → List Entry → Zlint × List Action → Type 1
InOrder passed rest (z, acts) =
    ((more : List Entry) × (z.passed ≡ passed ++ more))
    × (classes (z.passed ++ z.rest) ≡ classes (passed ++ rest))
    × (closed_times acts + to_do z.rest ≡ to_do rest)

pub closed_times-append :
    (xs ys : List Action) → closed_times (xs ++ ys) ≡ closed_times xs + closed_times ys
closed_times-append [] ys = omega arith
closed_times-append (closes ∷ xs) ys = let ih = closed_times-append xs ys in omega arith
closed_times-append (connects host ∷ xs) ys = closed_times-append xs ys
closed_times-append (sends_request r ∷ xs) ys = closed_times-append xs ys

pub closed_times-sends : (rs : List Request) → closed_times (map sends_request rs) ≡ 0
closed_times-sends [] = refl
closed_times-sends (r ∷ rs) = closed_times-sends rs

pub classes-ran :
    (passed es : List Entry) (e : Entry) (d : Done e.test.Members)
    → classes (passed ++ updated e d ∷ es) ≡ classes (passed ++ e ∷ es)
classes-ran [] es e d = refl
classes-ran (p ∷ passed) es e d = ap (λ cs. p.test ∷ cs) (classes-ran passed es e d)

pub classes-moved :
    (passed es : List Entry) (e : Entry)
    → classes ((passed ++ e ∷ []) ++ es) ≡ classes (passed ++ e ∷ es)
classes-moved [] es e = refl
classes-moved (p ∷ passed) es e = ap (λ cs. p.test ∷ cs) (classes-moved passed es e)
