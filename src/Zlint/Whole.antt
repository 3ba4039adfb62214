-- ===== src/Zlint/Whole.antt =====
-- zlint/main.cpp: the whole program, over a target that answers each request with a response of
-- its kind.
use yazpp.Prelude.{
  ℕ, ◌≡◌, refl, inl, inr, Option-cases, Bool-cases, Bool, true, false, List, [], Option, none, some,
  arith,
}
use yazpp.Prelude.Int.{pos}
use yazpp.Apdu.{Octets}
use yazpp.Zlint.{
  Checks, mask_get, msg_check_ok, InitRequest, InitResponse, init_response, Gdu, z3950, Request,
}
use yazpp.Zlint.Init.{Numbers, init_01, init_02, init_03, init_04, init_06, init_07}
use yazpp.Zlint.Answers.{recv_01, recv_02, recv_03, recv_04, recv_06, recv_07, accepted_charset}
use yazpp.Zlint.Search.{Yaz}
use yazpp.Zlint.Callbacks.{classes}
use yazpp.Zlint.Driver.{TestClass, set_host, add_test, new_zlint, base_of}
use yazpp.Zlint.Session.{connecting, session}
use yazpp.Zlint.Program.{NoMembers, program_tests, start}
use yazpp.Zlint.InitEndings.{
  serves, names_charset, Complete, Opens, sends_one, gives_up, Concludes, concludes, simple-Ready,
}
use yazpp.Zlint.MemberEndings.{test_05-Ready, test_08-Ready, search_01-Ready, scan_01-Ready}
use yazpp.Zlint.Completion.{Closed, session-Closed}

module _ (num : Numbers) (room : Option Bool) (fresh : InitRequest) where
  init_07-Opens :
      (o : Option Bool) (s : NoMembers) (c : Checks) → Opens (init_07 num o fresh (pos 0) s c)
  unfolding init_07
  init_07-Opens none s c = gives_up s _
  init_07-Opens (some false) s c = sends_one _ s _
  init_07-Opens (some true) s c = sends_one _ s _

recv_06-Concludes :
    (res : InitResponse) (s : NoMembers) (c : Checks)
    → Complete res
    → Concludes (recv_06 (z3950 (init_response res)) s c)
unfolding recv_06
recv_06-Concludes res s c h = elim (Option-cases res.options) [
  | inl missing ↦ rw missing (concludes s _)
  | inr (bits, given) ↦ rw given (concludes s _)
]

accepted-Concludes :
    (o : Option Bool) (s : NoMembers) (c : Checks)
    → names_charset o ≡ true
    → Concludes (accepted_charset o s c)
accepted-Concludes none s c h = concludes s _
accepted-Concludes (some true) s c h = concludes s _
accepted-Concludes (some false) s c h = ground arith

recv_07-Concludes :
    (num : Numbers) (res : InitResponse) (s : NoMembers) (c : Checks)
    → Complete res
    → Concludes (recv_07 num (z3950 (init_response res)) s c)
unfolding recv_07
recv_07-Concludes num res s c h = elim (Option-cases res.options) [
  | inl missing ↦ ground (arith, missing, h.0)
  | inr (bits, given) ↦ elim (Bool-cases (mask_get bits num.negotiation_model)) [
    | inl supported ↦ rw (given, supported) (accepted-Concludes res.charset_record s c h.2)
    | inr unsupported ↦ rw (given, unsupported) (concludes s _)
  ]
]

recv_03-Concludes :
    (res : InitResponse) (s : NoMembers) (c : Checks)
    → Complete res
    → Concludes (recv_03 (z3950 (init_response res)) s c)
unfolding recv_03
recv_03-Concludes res s c h = ground (arith, h.1, concludes s (msg_check_ok c))

module _ (num : Numbers) (yaz : Yaz) (room : Option Bool) (fresh : InitRequest)
    (target : ℕ → Request → Gdu) where
  -- All tests of the program.
  abbrev pub all_tests : List TestClass
  all_tests = classes (program_tests num yaz room fresh)

  -- The program comes to its end, if the connections are made and what is sent goes out, and if the
  -- target answers each request with a response of that kind, an init response with its options and
  -- a version of 2 to 5 and a name in its record of a character set, a scan response with its entries, and a present response whose first record
  -- has its syntax if it is a database record; whatever else the responses say, after at most 300
  -- callbacks the association is closed, and all of its tests have been run, in their order.
  pub session-start :
      ((n : ℕ) (r : Request) → serves r (target n r) ≡ true)
      → (host : Octets) (basep : Option Octets)
      → Closed all_tests (session target 300 connecting (start num yaz room fresh host basep).0)
  unfolding start program_tests set_host add_test new_zlint init_01 init_02 init_03 init_04 init_06
      recv_01 recv_02 recv_03 recv_04
  session-start fair host basep =
      let db = base_of basep in
      let one = simple-Ready target fair db in
      let (w, inv, few) =
        one (init_01 num fresh) recv_01 (λ s c. sends_one _ s _) (λ res s c h. concludes s _) in
      session-Closed target db 300 connecting [] (some host) _ _ w all_tests refl inv
        ((
          one (init_02 num fresh) recv_02 (λ s c. sends_one _ s _) (λ res s c h. concludes s _),
          (
            one (init_03 num fresh) recv_03 (λ s c. sends_one _ s _) recv_03-Concludes,
            (
              one (init_04 num fresh) recv_04 (λ s c. sends_one _ s _) (λ res s c h. concludes s _),
              (
                test_05-Ready target fair db num yaz room fresh,
                (
                  one (init_06 num fresh) recv_06 (λ s c. sends_one _ s _) recv_06-Concludes,
                  (
                    one (init_07 num room fresh) (recv_07 num) (init_07-Opens num room fresh room)
                        (recv_07-Concludes num),
                    (
                      test_08-Ready target fair db num yaz room fresh,
                      (
                        search_01-Ready target fair db num yaz room fresh,
                        (scan_01-Ready target fair db num yaz room fresh, tt),
                      ),
                    ),
                  ),
                ),
              ),
            ),
          ),
        ))
        (omega (arith, few))
