-- ===== src/Zlint/Driver.antt =====
-- zlint/zlint.h and zlint/zlint.cpp: `Zlint`, which runs its tests one after the other, each over
-- a connection of its own. The calls of `client` and `close`, and what is sent, are actions.
use yazpp.Prelude.{ℕ, List, [], ◌∷◌, ◌++◌, map, Option, none, some}
use yazpp.Prelude.Int.{ℤ}
use yazpp.Apdu.{Octets}
use yazpp.Zlint.{Code, finished, continues, reopens, Checks, new_checks, Gdu, Request, Done}

-- `Zlint_test`: the members of a class and its functions. `init` takes the results of the two
-- calls of `send_Z_PDU` that it makes at most, and `recv_gdu` the database of `getDatabase`.
pub record TestClass : Type 1 where
  pub Members : Type 0
  pub init : ℤ → ℤ → Members → Checks → Done Members
  pub recv_gdu : Octets → Gdu → Members → Checks → Option (Done Members)
  pub recv_fail : ℕ → Members → Checks → Done Members

-- `Zlint_t`.
pub record Entry : Type 1 where
  pub test : TestClass
  pub members : test.Members
  pub checks : Checks

abbrev pub new_entry : (test : TestClass) → test.Members → Entry
new_entry test members = record { test = test; members = members; checks = new_checks }

-- The list of tests is `passed`, then `rest`, whose first one is the current test.
pub record Zlint : Type 1 where
  pub passed : List Entry
  pub rest : List Entry
  pub host : Option Octets
  pub database : Octets

-- `connects` is a call of `client` and one of `timeout` with 30 seconds.
pub data Action : Type 0 where
  connects : Option Octets → Action
  closes : Action
  sends_request : Request → Action

unfoldable pub new_zlint : Zlint
new_zlint = record { passed = []; rest = []; host = none; database = [] }

-- Once all have passed, the current test is a null pointer, and becomes the first one again.
abbrev pub added : Entry → List Entry → List Entry → Zlint → Zlint
added e before [] z = record z { passed = []; rest = before ++ e ∷ [] }
added e before (f ∷ fs) z = record z { rest = (f ∷ fs) ++ e ∷ [] }

unfoldable pub add_test : Entry → Zlint → Zlint
add_test e z = added e z.passed z.rest z

abbrev pub default_base : Octets
default_base = b'D' ∷ b'e' ∷ b'f' ∷ b'a' ∷ b'u' ∷ b'l' ∷ b't' ∷ []

-- `basep` after `cs_get_host_args`.
abbrev pub base_of : Option Octets → Octets
base_of none = default_base
base_of (some []) = default_base
base_of (some (c ∷ cs)) = c ∷ cs

unfoldable pub set_host : Octets → Option Octets → Zlint → Zlint × List Action
set_host cp basep z =
    (record z { host = some cp; database = base_of basep }, connects (some cp) ∷ [])

abbrev pub next_test : List Entry → Zlint → Zlint
next_test [] z = z
next_test (e ∷ es) z = record z { passed = z.passed ++ e ∷ []; rest = es }

abbrev pub go_or_close : List Entry → Option Octets → Action
go_or_close [] host = closes
go_or_close (e ∷ es) host = connects host

-- `close_goto_next`.
unfoldable pub close_goto_next : Zlint → Zlint × List Action
close_goto_next z = let z' = next_test z.rest z in (z', go_or_close z'.rest z'.host ∷ [])

-- After the actions `acts`.
abbrev pub then_next : List Action → Zlint → Zlint × List Action
then_next acts z = let (z', more) = close_goto_next z in (z', acts ++ more)

abbrev pub then_connect : List Action → Zlint → Zlint × List Action
then_connect acts z = (z, acts ++ connects z.host ∷ [])

abbrev pub updated : (e : Entry) → Done e.test.Members → Entry
updated e d = record { test = e.test; members = d.state; checks = d.checks }

-- The current test has run its code, with `d`.
abbrev pub ran : (e : Entry) → Done e.test.Members → List Entry → Zlint → Zlint
ran e d es z = record z { rest = updated e d ∷ es }

-- What the three callbacks do with the code of the test.
abbrev pub on_connect : Code → List Action → Zlint → Zlint × List Action
on_connect finished acts z = then_next acts z
on_connect continues acts z = (z, acts)
on_connect reopens acts z = (z, acts)

abbrev pub on_recv : Code → List Action → Zlint → Zlint × List Action
on_recv finished acts z = then_next acts z
on_recv continues acts z = (z, acts)
on_recv reopens acts z = then_connect acts z

abbrev pub on_fail : Code → List Action → Zlint → Zlint × List Action
on_fail finished acts z = then_next acts z
on_fail continues acts z = then_connect acts z
on_fail reopens acts z = then_connect acts z

abbrev pub connected : ℤ → ℤ → List Entry → Zlint → Zlint × List Action
connected r r' [] z = (z, [])
connected r r' (e ∷ es) z =
    let d = e.test.init r r' e.members e.checks in
    on_connect d.code (map sends_request d.sent) (ran e d es z)

unfoldable pub connect_notify : ℤ → ℤ → Zlint → Zlint × List Action
connect_notify r r' z = connected r r' z.rest z

abbrev pub failed : ℕ → List Entry → Zlint → Zlint × List Action
failed reason [] z = (z, [])
failed reason (e ∷ es) z =
    let d = e.test.recv_fail reason e.members e.checks in
    on_fail d.code (map sends_request d.sent) (ran e d es z)

unfoldable pub fail_notify : Zlint → Zlint × List Action
fail_notify z = failed 1 z.rest z

unfoldable pub timeout_notify : Zlint → Zlint × List Action
timeout_notify z = failed 2 z.rest z

-- `none` where the test reads what it must not.
abbrev pub received_by :
    (e : Entry) → Option (Done e.test.Members) → List Entry → Zlint → Option (Zlint × List Action)
received_by e none es z = none
received_by e (some d) es z = some (on_recv d.code (map sends_request d.sent) (ran e d es z))

abbrev pub received : Gdu → List Entry → Zlint → Option (Zlint × List Action)
received g [] z = some (z, [])
received g (e ∷ es) z = received_by e (e.test.recv_gdu z.database g e.members e.checks) es z

unfoldable pub recv_gdu : Gdu → Zlint → Option (Zlint × List Action)
recv_gdu g z = received g z.rest z
