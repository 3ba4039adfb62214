-- ===== src/Zlint/Completion.antt =====
-- zlint: the end of a session whose tests all come to their ends.
use mathlib.Core.List.{append-nil, append_assoc}
use yazpp.Prelude.{
  ℕ, zero, suc, ◌+◌, ◌*◌, ◌≡◌, ◌<◌, ◌⊎◌, refl, sym, ap, subst, ◌∙◌, List, [], ◌∷◌, ◌++◌, map,
  Option, none, some, length, All, arith,
}
use yazpp.Apdu.{Octets}
use yazpp.Zlint.{Code, finished, continues, reopens, Checks, Gdu, Request, Done}
use yazpp.Zlint.Driver.{
  TestClass, Entry, Zlint, Action, connects, closes, sends_request, close_goto_next, connect_notify,
  timeout_notify, recv_gdu, ran, updated, on_connect, on_fail, on_recv, received_by,
}
use yazpp.Zlint.Callbacks.{classes, classes-ran, classes-moved}
use yazpp.Zlint.Session.{
  Phase, connecting, talking, open_requests, phase_after, Session, closed, reaction, resumed,
  went_on, session, react, next_phase, Progress, stops, proceeds, EndsWell,
}

phase_after-sends :
    (out rs : List Request) (acts : List Action)
    → phase_after out (map sends_request rs ++ acts) ≡ phase_after (out ++ rs) acts
phase_after-sends out [] acts = ap (λ l. phase_after l acts) (sym (append-nil out))
phase_after-sends out (r ∷ rs) acts =
    phase_after-sends (out ++ r ∷ []) rs acts
    ∙ ap (λ l. phase_after l acts) (append_assoc out (r ∷ []) rs)

phase_after-sent :
    (out rs : List Request) → phase_after out (map sends_request rs) ≡ some (talking (out ++ rs))
phase_after-sent out rs =
    ap (phase_after out) (sym (append-nil (map sends_request rs))) ∙ phase_after-sends out rs []

-- The association was closed, no test is left, and those that have passed are these.
abbrev pub Closed : List TestClass → Session → Type 1
Closed tests o = (z : Zlint) × (o ≡ closed z) × (z.rest ≡ []) × (classes z.passed ≡ tests)

module _ (target : ℕ → Request → Gdu) (database : Octets) where
  -- A test that ends well from a new connection, after fewer than 30 steps.
  abbrev pub Ready : Entry → Type 1
  Ready e =
      (w : EndsWell target database e.test) × w.Inv connecting e.members
      × (w.left connecting e.members < 30)

  -- A state with a current test.
  abbrev pub at : List Entry → Option Octets → Entry → List Entry → Zlint
  at passed host e es = record { passed = passed; rest = e ∷ es; host = host; database = database }

  -- What the driver does with what the test did in a phase.
  abbrev reacted :
      Phase
      → (e : Entry) → Option (Done e.test.Members)
      → List Entry
      → Zlint
      → Option (Zlint × List Action)
  reacted ph e none es z = none
  reacted connecting e (some d) es z =
      some (on_connect d.code (map sends_request d.sent) (ran e d es z))
  reacted (talking []) e (some d) es z =
      some (on_fail d.code (map sends_request d.sent) (ran e d es z))
  reacted (talking (r ∷ rs)) e (some d) es z =
      some (on_recv d.code (map sends_request d.sent) (ran e d es z))

  reaction-reacted :
      (n : ℕ) (ph : Phase) (passed : List Entry) (host : Option Octets) (e : Entry)
      (es : List Entry)
      → reaction target n ph (at passed host e es)
        ≡ reacted ph e
            (react target e.test database n ph e.members e.checks)
            es
            (at passed host e es)
  unfolding connect_notify timeout_notify recv_gdu
  reaction-reacted n connecting passed host e es = refl
  reaction-reacted n (talking []) passed host e es = refl
  reaction-reacted n (talking (r ∷ rs)) passed host e es =
      by_result (e.test.recv_gdu database (target n r) e.members e.checks)
    where
      by_result :
          (o : Option (Done e.test.Members))
          → received_by e o es (at passed host e es)
            ≡ reacted (talking (r ∷ rs)) e o es (at passed host e es)
      by_result none = refl
      by_result (some d) = refl

  module _ (next : Phase → Zlint → Session) (passed : List Entry) (host : Option Octets) (e : Entry)
      (s : e.test.Members) (c : Checks) (rs : List Request) (es : List Entry) where
    abbrev done_with : Code → Done e.test.Members
    done_with code = record { code = code; state = s; checks = c; sent = rs }

    abbrev left_at : Entry
    left_at = record { test = e.test; members = s; checks = c }

    reconnects :
        (out : List Request)
        → resumed next
            (phase_after out (map sends_request rs ++ connects host ∷ []))
            (at passed host left_at es)
          ≡ next connecting (at passed host left_at es)
    reconnects out = rw (phase_after-sends out rs (connects host ∷ []))

    talks_on :
        (out : List Request)
        → resumed next (phase_after out (map sends_request rs)) (at passed host left_at es)
          ≡ next (talking (out ++ rs)) (at passed host left_at es)
    talks_on out = rw (phase_after-sent out rs)

    went_on-next :
        (ph : Phase) (code : Code)
        → (code ≡ continues) ⊎ (code ≡ reopens)
        → went_on next
            (open_requests ph)
            (reacted ph e (some (done_with code)) es (at passed host e es))
          ≡ next (next_phase ph code rs) (at passed host left_at es)
    went_on-next ph finished h = ground arith
    went_on-next connecting continues h = talks_on []
    went_on-next connecting reopens h = talks_on []
    went_on-next (talking []) continues h = reconnects []
    went_on-next (talking []) reopens h = reconnects []
    went_on-next (talking (q ∷ qs)) continues h = talks_on qs
    went_on-next (talking (q ∷ qs)) reopens h = reconnects qs

  -- What follows a test that has finished.
  abbrev followed : (Phase → Zlint → Session) → List Entry → Option Octets → List Entry → Session
  followed next passed host [] =
      closed (record { passed = passed; rest = []; host = host; database = database })
  followed next passed host (f ∷ fs) = next connecting (at passed host f fs)

  went_on-followed :
      (next : Phase → Zlint → Session) (passed : List Entry) (host : Option Octets) (e : Entry)
      (s : e.test.Members) (c : Checks) (rs : List Request) (es : List Entry) (ph : Phase)
      → went_on next (open_requests ph) (
          reacted ph e
            (some (record { code = finished; state = s; checks = c; sent = rs }))
            es
            (at passed host e es))
        ≡ followed next (passed ++ record { test = e.test; members = s; checks = c } ∷ []) host es
  unfolding close_goto_next
  went_on-followed next passed host e s c rs [] connecting =
      rw (phase_after-sends [] rs (closes ∷ []))
  went_on-followed next passed host e s c rs [] (talking []) =
      rw (phase_after-sends [] rs (closes ∷ []))
  went_on-followed next passed host e s c rs [] (talking (q ∷ qs)) =
      rw (phase_after-sends qs rs (closes ∷ []))
  went_on-followed next passed host e s c rs (f ∷ fs) connecting =
      rw (phase_after-sends [] rs (connects host ∷ []))
  went_on-followed next passed host e s c rs (f ∷ fs) (talking []) =
      rw (phase_after-sends [] rs (connects host ∷ []))
  went_on-followed next passed host e s c rs (f ∷ fs) (talking (q ∷ qs)) =
      rw (phase_after-sends qs rs (connects host ∷ []))

  -- What is to be shown of `n` callbacks from a phase of the current test on.
  abbrev pub Completes : ℕ → Type 1
  Completes n =
      (ph : Phase) (passed : List Entry) (host : Option Octets) (e : Entry) (es : List Entry)
      (w : EndsWell target database e.test) (tests : List TestClass)
      → classes (passed ++ e ∷ es) ≡ tests
      → w.Inv ph e.members
      → All Ready es
      → w.left ph e.members + 30 * length es < n
      → Closed tests (session target n ph (at passed host e es))

  followed-Closed :
      (n : ℕ) (passed : List Entry) (host : Option Octets) (es : List Entry)
      (tests : List TestClass)
      → classes (passed ++ es) ≡ tests
      → Completes n
      → All Ready es
      → 30 * length es < n + 1
      → Closed tests (followed (session target n) passed host es)
  followed-Closed n passed host [] tests same ih ready lt =
      (_, refl, refl, ap classes (sym (append-nil passed)) ∙ same)
  followed-Closed n passed host (f ∷ fs) tests same ih ((w, inv, few), ready) lt =
      ih connecting passed host f fs w tests same inv ready (omega (arith, few))

  step-Closed :
      (n : ℕ) (ph : Phase) (passed : List Entry) (host : Option Octets) (e : Entry)
      (es : List Entry) (w : EndsWell target database e.test) (o : Option (Done e.test.Members))
      (tests : List TestClass)
      → classes (passed ++ e ∷ es) ≡ tests
      → Progress w.Inv w.left ph (w.left ph e.members) o
      → Completes n
      → All Ready es
      → w.left ph e.members + 30 * length es < n + 1
      → Closed tests
          (went_on (session target n) (open_requests ph) (reacted ph e o es (at passed host e es)))
  step-Closed n ph passed host e es w _ tests same (stops s c rs) ih ready lt =
      let d : Done e.test.Members = record { code = finished; state = s; checks = c; sent = rs } in
      subst (Closed tests) (sym (went_on-followed (session target n) passed host e s c rs es ph)) (
        followed-Closed n (passed ++ updated e d ∷ []) host es tests
          (classes-moved passed es (updated e d) ∙ classes-ran passed es e d ∙ same) ih ready
          (omega arith))
  step-Closed n ph passed host e es w _ tests same (proceeds code s c rs h inv less) ih ready lt =
      let d : Done e.test.Members = record { code = code; state = s; checks = c; sent = rs } in
      subst (Closed tests) (sym (went_on-next (session target n) passed host e s c rs es ph code h))
        (ih (next_phase ph code rs) passed host (updated e d) es w tests
          (classes-ran passed es e d ∙ same) inv ready (omega (arith, less)))

  pub session-Closed : (n : ℕ) → Completes n
  unfolding session
  session-Closed zero ph passed host e es w tests same inv ready lt = ground arith
  session-Closed (suc n) ph passed host e es w tests same inv ready lt =
      rw (reaction-reacted n ph passed host e es) (
        step-Closed n ph passed host e es w _ tests same (w.step n ph e.members e.checks inv)
          (session-Closed n) ready (omega arith))
