-- ===== src/Zlint/Order.antt =====
-- zlint/zlint.cpp: the order of the tests over any sequence of callbacks.
use yazpp.Prelude.{
  ℕ, ◌+◌, ◌≡◌, refl, sym, ap, subst, ◌∙◌, List, [], ◌∷◌, ◌++◌, map, Option, none, some, arith,
}
use mathlib.Core.List.{append-nil, append_assoc}
use mathlib.Core.Option.{some-injective}
use yazpp.Prelude.Int.{ℤ}
use yazpp.Zlint.{Code, finished, continues, reopens, Gdu, Done}
use yazpp.Zlint.Driver.{
  Entry, Zlint, Action, connects, sends_request, close_goto_next, go_or_close, then_next,
  then_connect, updated, ran, on_connect, on_recv, on_fail, connected, failed, received_by,
  received, connect_notify, fail_notify, timeout_notify, recv_gdu,
}
use yazpp.Zlint.Callbacks.{
  Event, connection, failure, timeout, arrival, callback, after, first_then, run, closed_times,
  to_do, InOrder, closed_times-append, closed_times-sends, classes-ran, classes-moved,
}

module _ (e : Entry) (d : Done e.test.Members) (es : List Entry) (z : Zlint) where
  abbrev sent : List Action
  sent = map sends_request d.sent

  stays : InOrder z.passed (e ∷ es) (ran e d es z, sent)
  stays = (
    ([], sym (append-nil z.passed)),
    classes-ran z.passed es e d,
    ap (λ n. n + 1) (closed_times-sends d.sent),
  )

  then_connect-InOrder : InOrder z.passed (e ∷ es) (then_connect sent (ran e d es z))
  then_connect-InOrder = (
    ([], sym (append-nil z.passed)),
    classes-ran z.passed es e d,
    rw (closed_times-append sent (connects z.host ∷ []), closed_times-sends d.sent) (omega arith),
  )

  last_one : (rest : List Entry) → 0 + closed_times (go_or_close rest z.host ∷ []) + to_do rest ≡ 1
  last_one [] = refl
  last_one (f ∷ fs) = refl

  then_next-InOrder : InOrder z.passed (e ∷ es) (then_next sent (ran e d es z))
  unfolding close_goto_next
  then_next-InOrder = (
    (updated e d ∷ [], refl),
    classes-moved z.passed es (updated e d) ∙ classes-ran z.passed es e d,
    rw (closed_times-append sent (go_or_close es z.host ∷ []), closed_times-sends d.sent)
        (last_one es),
  )

module _ (z : Zlint) where
  idle : z.rest ≡ [] → InOrder z.passed [] (z, [])
  idle e = (([], sym (append-nil z.passed)), rw e, rw e)

  connected-InOrder :
      (r r' : ℤ) (rest : List Entry) → z.rest ≡ rest → InOrder z.passed rest (connected r r' rest z)
  connected-InOrder r r' [] e = idle e
  connected-InOrder r r' (f ∷ fs) e = by_code d.code
    where
      d : Done f.test.Members
      d = f.test.init r r' f.members f.checks

      by_code :
          (code : Code) → InOrder z.passed (f ∷ fs) (on_connect code (sent f d fs z) (ran f d fs z))
      by_code finished = then_next-InOrder f d fs z
      by_code continues = stays f d fs z
      by_code reopens = stays f d fs z

  failed-InOrder :
      (reason : ℕ) (rest : List Entry)
      → z.rest ≡ rest
      → InOrder z.passed rest (failed reason rest z)
  failed-InOrder reason [] e = idle e
  failed-InOrder reason (f ∷ fs) e = by_code d.code
    where
      d : Done f.test.Members
      d = f.test.recv_fail reason f.members f.checks

      by_code :
          (code : Code) → InOrder z.passed (f ∷ fs) (on_fail code (sent f d fs z) (ran f d fs z))
      by_code finished = then_next-InOrder f d fs z
      by_code continues = then_connect-InOrder f d fs z
      by_code reopens = then_connect-InOrder f d fs z

  received-InOrder :
      (g : Gdu) (rest : List Entry) (out : Zlint × List Action)
      → z.rest ≡ rest
      → received g rest z ≡ some out
      → InOrder z.passed rest out
  received-InOrder g [] out e h = subst (λ o. InOrder z.passed [] o) (some-injective _ _ h) (idle e)
  received-InOrder g (f ∷ fs) out e h =
      by_result (f.test.recv_gdu z.database g f.members f.checks) h
    where
      by_code :
          (d : Done f.test.Members) (code : Code)
          → InOrder z.passed (f ∷ fs) (on_recv code (sent f d fs z) (ran f d fs z))
      by_code d finished = then_next-InOrder f d fs z
      by_code d continues = stays f d fs z
      by_code d reopens = then_connect-InOrder f d fs z

      by_result :
          (o : Option (Done f.test.Members))
          → received_by f o fs z ≡ some out
          → InOrder z.passed (f ∷ fs) out
      by_result none h' = ground arith
      by_result (some d) h' =
          subst (λ o. InOrder z.passed (f ∷ fs) o) (some-injective _ _ h') (by_code d d.code)

  callback-InOrder :
      (ev : Event) (out : Zlint × List Action)
      → callback ev z ≡ some out
      → InOrder z.passed z.rest out
  unfolding callback connect_notify fail_notify timeout_notify recv_gdu
  callback-InOrder (connection r r') out h =
      subst (λ o. InOrder z.passed z.rest o) (some-injective _ _ h)
        (connected-InOrder r r' z.rest refl)
  callback-InOrder failure out h =
      subst (λ o. InOrder z.passed z.rest o) (some-injective _ _ h) (failed-InOrder 1 z.rest refl)
  callback-InOrder timeout out h =
      subst (λ o. InOrder z.passed z.rest o) (some-injective _ _ h) (failed-InOrder 2 z.rest refl)
  callback-InOrder (arrival g) out h = received-InOrder g z.rest out refl h

-- The two parts of a run.
after-InOrder :
    (passed rest : List Entry) (z : Zlint) (acts : List Action) (o : Option (Zlint × List Action))
    (out : Zlint × List Action)
    → InOrder passed rest (z, acts)
    → after o acts ≡ some out
    → ((later : Zlint × List Action) → o ≡ some later → InOrder z.passed z.rest later)
    → InOrder passed rest out
after-InOrder passed rest z acts none out first h k = ground arith
after-InOrder passed rest z acts (some (z', more)) out ((es, e), same, counted) h k =
    let ((es', e'), same', counted') = k (z', more) refl in
    subst (λ o. InOrder passed rest o) (some-injective _ _ h)
      (
        (es ++ es', e' ∙ ap (λ ps. ps ++ es') e ∙ append_assoc passed es es'),
        same' ∙ same,
        rw (closed_times-append acts more) (omega (arith, counted, counted')),
      )

-- Whatever callbacks arrive, in any order, as long as no test reads what is not there: the tests keep
-- their order, those that are over stay so, and the association is closed once if the last test
-- comes to its end, and not at all if tests are left or there were none.
pub run-InOrder :
    (evs : List Event) (z : Zlint) (out : Zlint × List Action)
    → run evs z ≡ some out
    → InOrder z.passed z.rest out
unfolding run
run-InOrder [] z out h =
    subst (λ o. InOrder z.passed z.rest o) (some-injective _ _ h)
      (([], sym (append-nil z.passed)), refl, omega arith)
run-InOrder (ev ∷ evs) z out h = by_callback (callback ev z) refl h (run-InOrder evs)
  where
    by_callback :
        (o : Option (Zlint × List Action))
        → callback ev z ≡ o
        → first_then (run evs) o ≡ some out
        → ((z' : Zlint) (later : Zlint × List Action)
            → run evs z' ≡ some later
            → InOrder z'.passed z'.rest later)
        → InOrder z.passed z.rest out
    by_callback none e h' k = ground arith
    by_callback (some (z', acts)) e h' k =
        after-InOrder z.passed z.rest z' acts (run evs z') out (callback-InOrder z ev (z', acts) e)
          h' (k z')
