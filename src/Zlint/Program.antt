-- ===== src/Zlint/Program.antt =====
-- zlint/main.cpp, and the constructors of the tests: the program's tests, in their order.
use yazpp.Prelude.{ℕ, List, [], ◌∷◌, Option, Bool, ◌≡◌, refl}
use yazpp.Prelude.Int.{ℤ}
use yazpp.Apdu.{Octets}
use yazpp.Zlint.{InitRequest, Checks, Gdu, Done}
use yazpp.Zlint.Init.{
  Numbers, init_01, init_02, init_03, init_04, init_05, init_06, init_07, init_08,
}
use yazpp.Zlint.Answers.{
  recv_01, recv_02, recv_03, recv_04, recv_05, recv_06, recv_07, recv_08, recv_fail_08,
  recv_fail_simple,
}
use yazpp.Zlint.Search.{Yaz, SearchTest, new_search_test, init_search, recv_search_01}
use yazpp.Zlint.Scan.{init_scan, recv_scan_01, recv_fail_scan}
use yazpp.Zlint.Driver.{TestClass, Entry, Zlint, Action, new_entry, new_zlint, set_host, add_test}

-- A class without members.
pub data NoMembers : Type 0 where
  no_members : NoMembers

-- A class of `Zlint_test_simple` that sends one request and has no members.
abbrev pub simple :
    (ℤ → NoMembers → Checks → Done NoMembers)
    → (Gdu → NoMembers → Checks → Option (Done NoMembers))
    → TestClass
simple init recv = record {
  Members = NoMembers;
  init = λ r r'. init r;
  recv_gdu = λ database. recv;
  recv_fail = λ reason. recv_fail_simple;
}

module _ (num : Numbers) (yaz : Yaz) (room : Option Bool) (fresh : InitRequest) where
  abbrev pub test_05 : TestClass
  test_05 = record {
    Members = ℕ;
    init = init_05 num fresh;
    recv_gdu = λ database. recv_05;
    recv_fail = λ reason. recv_fail_simple;
  }

  abbrev pub test_08 : TestClass
  test_08 = record {
    Members = ℕ;
    init = λ r r'. init_08 num fresh r;
    recv_gdu = λ database. recv_08;
    recv_fail = λ reason. recv_fail_08;
  }

  abbrev pub search_01 : TestClass
  search_01 = record {
    Members = SearchTest;
    init = λ r r'. init_search num fresh r;
    recv_gdu = recv_search_01 yaz;
    recv_fail = λ reason. recv_fail_simple;
  }

  abbrev pub scan_01 : TestClass
  scan_01 = record {
    Members = ℕ;
    init = λ r r'. init_scan num fresh r;
    recv_gdu = recv_scan_01 num;
    recv_fail = λ reason. recv_fail_scan;
  }

  unfoldable pub program_tests : List Entry
  program_tests =
      new_entry (simple (init_01 num fresh) recv_01) no_members
      ∷ new_entry (simple (init_02 num fresh) recv_02) no_members
      ∷ new_entry (simple (init_03 num fresh) recv_03) no_members
      ∷ new_entry (simple (init_04 num fresh) recv_04) no_members
      ∷ new_entry test_05 0
      ∷ new_entry (simple (init_06 num fresh) recv_06) no_members
      ∷ new_entry (simple (init_07 num room fresh) (recv_07 num)) no_members
      ∷ new_entry test_08 0
      ∷ new_entry search_01 new_search_test
      ∷ new_entry scan_01 0
      ∷ []

  abbrev pub add_tests : List Entry → Zlint → Zlint
  add_tests [] z = z
  add_tests (e ∷ es) z = add_tests es (add_test e z)

  -- `main`, up to the loop of events; `host` is the argument or "localhost:9999", and `basep` what
  -- `cs_get_host_args` makes of it.
  unfoldable pub start : Octets → Option Octets → Zlint × List Action
  start host basep =
      let (z, acts) = set_host host basep new_zlint in (add_tests program_tests z, acts)

  -- The tests are run from the first one on.
  start-rest : (host : Octets) (basep : Option Octets) → (start host basep).0.rest ≡ program_tests
  unfolding start add_test set_host new_zlint program_tests
  start-rest host basep = refl
