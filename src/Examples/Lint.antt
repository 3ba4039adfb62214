-- ===== src/Examples/Lint.antt =====
-- Inputs for zlint.
use yazpp.Prelude.{ℕ, ◌≡◌, refl, true, false, ◌&&◌, if◌then◌else◌, List, [], ◌∷◌, none, some, ◌==◌}
use yazpp.Prelude.Int.{pos}
use yazpp.Zlint.{
  init_response_get_version, version_from, new_checks, msg_check_for, InitRequest, InitResponse,
  accepts, init_response, search_response, present_response, sort_response, scan_response, Gdu,
  z3950, Request, asks_init, asks_search, asks_present, asks_sort, asks_scan,
}
use yazpp.Zlint.Init.{Numbers, refid_1, init_01}
use yazpp.Zlint.Answers.{has_refid, recv_01, recv_02, recv_03, recv_04, recv_fail_simple}
use yazpp.Zlint.Versions.{leading}
use yazpp.Zlint.Verdicts.{verdict, passes_if, between, recv_init-verdict}
use yazpp.Zlint.Search.{Yaz, new_search_test, recv_search_01}
use yazpp.Zlint.Talk.{Ends, talk}
use yazpp.Zlint.Endings.{answers_described, talk-recv_search_01}
use yazpp.Zlint.InitEndings.{serves}
use yazpp.Zlint.Session.{connecting, session}
use yazpp.Zlint.Program.{start}
use yazpp.Zlint.Completion.{Closed}
use yazpp.Zlint.Whole.{all_tests, session-start}
use yazpp.Zlint.Driver.{
  TestClass, Zlint, Action, recv_gdu, connect_notify, close_goto_next, new_zlint, new_entry,
  add_test,
}
use yazpp.Zlint.Callbacks.{Event, connection, arrival, callback, run, InOrder}
use yazpp.Zlint.Order.{run-InOrder}

abbrev num : Numbers
num = record {
  version_1 = 0;
  version_2 = 1;
  version_3 = 2;
  scan = 7;
  sort = 8;
  concurrent_operations = 13;
  named_result_sets = 14;
  negotiation_model = 17;
}

abbrev fresh : InitRequest
fresh = record {
  protocol_version = 1 ∷ 0 ∷ [];
  options = [];
  reference_id = none;
  maximum_record_size = 1048576;
  preferred_message_size = 1048576;
  charset_proposal = false;
}

-- A target of version 3 that has scan.
abbrev welcome : InitResponse
welcome = record {
  protocol_version = 2 ∷ 1 ∷ 0 ∷ [];
  options = some (7 ∷ []);
  result = some (pos 1);
  reference_id = some refid_1;
  maximum_record_size = pos 1048576;
  preferred_message_size = pos 1048576;
  charset_record = none;
}

-- It finds 3 records for each query, and has one in each syntax.
abbrev target : ℕ → Request → Gdu
target n (asks_init req) = z3950 (init_response welcome)
target n (asks_search database q) = z3950 (search_response none (some (pos 3)))
target n (asks_present syntax) = z3950 (present_response none)
target n (asks_sort spec) = z3950 (sort_response true)
target n (asks_scan database q) =
    z3950 (scan_response (some (record { diagnostics = false; terms = 5 })))

target-answers : (n : ℕ) (r : Request) → answers_described r (target n r) ≡ true
target-answers n (asks_init req) = refl
target-answers n (asks_search database q) = refl
target-answers n (asks_present syntax) = refl
target-answers n (asks_sort spec) = refl
target-answers n (asks_scan database q) = refl

target-serves : (n : ℕ) (r : Request) → serves r (target n r) ≡ true
unfolding init_response_get_version version_from
target-serves n (asks_init req) = refl
target-serves n (asks_search database q) = refl
target-serves n (asks_present syntax) = refl
target-serves n (asks_sort spec) = refl
target-serves n (asks_scan database q) = refl

abbrev yaz : Yaz
yaz = record { parses = λ q. true; is_syntax = λ e oid. true }

talk-recv_search_01_example :
    Ends (talk (recv_search_01 yaz []) target 27 (asks_init fresh) new_search_test new_checks)
talk-recv_search_01_example = talk-recv_search_01 yaz [] target target-answers fresh new_checks

session-start_example :
    Closed
      (all_tests num yaz none fresh target)
      (session target 300 connecting (start num yaz none fresh [] none).0)
session-start_example = session-start num yaz none fresh target target-serves [] none

recv_init-verdict_example :
    (verdict {S = ℕ} (recv_01 (z3950 (init_response welcome)) 0 (msg_check_for new_checks))
      ≡ passes_if (between 2 3 (leading 12 0 (2 ∷ 1 ∷ 0 ∷ [])) && accepts (some (pos 1))))
    × (verdict {S = ℕ} (recv_02 (z3950 (init_response welcome)) 0 (msg_check_for new_checks))
        ≡ passes_if (leading 12 0 (2 ∷ 1 ∷ 0 ∷ []) == 2))
    × (verdict {S = ℕ} (recv_03 (z3950 (init_response welcome)) 0 (msg_check_for new_checks))
        ≡ (if between 2 5 (leading 12 0 (2 ∷ 1 ∷ 0 ∷ [])) then passes_if true else none))
    × (verdict {S = ℕ} (recv_04 (z3950 (init_response welcome)) 0 (msg_check_for new_checks))
        ≡ passes_if (has_refid refid_1 (some refid_1)))
recv_init-verdict_example = recv_init-verdict {S = ℕ} welcome 0 new_checks

-- The first test, twice.
abbrev first_test : TestClass
first_test = record {
  Members = ℕ;
  init = λ r r'. init_01 num fresh r;
  recv_gdu = λ database. recv_01;
  recv_fail = λ reason. recv_fail_simple;
}

abbrev two_tests : Zlint
two_tests = add_test (new_entry first_test 0) (add_test (new_entry first_test 0) new_zlint)

abbrev callbacks : List Event
callbacks =
    connection (pos 0) (pos 0)
    ∷ arrival (z3950 (init_response welcome))
    ∷ connection (pos 0) (pos 0)
    ∷ arrival (z3950 (init_response welcome))
    ∷ []

-- What the run gives, if it gives something.
abbrev outcome : Zlint × List Action
outcome = elim (run callbacks two_tests) [ none ↦ (two_tests, []) | some out ↦ out ]

run-InOrder_example : InOrder two_tests.passed two_tests.rest outcome
unfolding run callback recv_gdu connect_notify add_test new_zlint init_01 recv_01 close_goto_next
run-InOrder_example = run-InOrder callbacks two_tests outcome refl
