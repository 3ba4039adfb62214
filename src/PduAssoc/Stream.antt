-- ===== src/PduAssoc/Stream.antt =====
-- src/yaz-pdu-assoc.cpp: the stream of packages over several calls.
use mathlib.Core.List.{append_assoc, append-nil}
use yazpp.Prelude.{
  false, ◌≡◌, refl, sym, subst, ap, ◌∙◌, inl, inr, List, [], ◌∷◌, ◌++◌, is_some, arith, Bool-cases,
}
use yazpp.Prelude.Int.{ℤ}
use yazpp.PduAssoc.State.{Packet, Assoc, Call, shutdown, fail}
use yazpp.PduAssoc.Output.{Answer, flush_empty, flush_first, flush_sent, flush_pdu, send_pdu}
use yazpp.PduAssoc.Sending.{
  completed, completed-append, Kept, Kept-all, flush_pdu-Kept, accepted, send_pdu-Kept,
}

-- What may happen on the writing side: a `send_PDU` call, or a socket that can be written.
pub data Output : Type 0 where
  sends : Packet → Answer → Output
  writable : Answer → Output

unfoldable pub output_step : Output → Assoc → Assoc × List Call × ℤ
output_step (sends buf answer) a = send_pdu answer buf a
output_step (writable answer) a = flush_pdu answer a

abbrev pub output_accepted : Output → Assoc → List Packet
output_accepted (sends buf answer) a = accepted buf a
output_accepted (writable answer) a = []

-- The association after some steps, the calls, and the packages that were accepted.
unfoldable pub run_output : List Output → Assoc → Assoc × List Call × List Packet
run_output [] a = (a, [], [])
run_output (o ∷ os) a =
    let (b, calls, r) = output_step o a in
    let (c, more, taken) = run_output os b in (c, calls ++ more, output_accepted o a ++ taken)

step-Kept :
    (o : Output) (a : Assoc)
    → Kept (a.queue_out ++ output_accepted o a) (output_step o a).0 (output_step o a).1
unfolding output_step
step-Kept (sends buf answer) a = send_pdu-Kept answer buf a a.queue_out a.cs refl refl
step-Kept (writable answer) a = rw append-nil (flush_pdu-Kept answer a.queue_out a refl)

flush_stays_shut :
    (answer : Answer) (a : Assoc) → is_some a.cs ≡ false → is_some (flush_pdu answer a).0.cs ≡ false
unfolding flush_pdu flush_empty flush_first flush_sent fail shutdown
flush_stays_shut answer a h = ground arith

-- A connection that is gone does not come back.
output_stays_shut :
    (o : Output) (a : Assoc) → is_some a.cs ≡ false → is_some (output_step o a).0.cs ≡ false
unfolding output_step send_pdu
output_stays_shut (sends buf answer) a h = ground arith
output_stays_shut (writable answer) a h = flush_stays_shut answer a h

run_stays_shut :
    (os : List Output) (a : Assoc)
    → is_some a.cs ≡ false
    → (is_some (run_output os a).0.cs ≡ false) × ((run_output os a).2 ≡ [])
unfolding run_output
run_stays_shut [] a h = (h, refl)
run_stays_shut (sends buf answer ∷ os) a h =
    let rest = run_stays_shut os _ (output_stays_shut (sends buf answer) a h) in
    (rest.0, rw h rest.1)
run_stays_shut (writable answer ∷ os) a h =
    run_stays_shut os _ (output_stays_shut (writable answer) a h)

regroup_open :
    (before taken bq cq d f x y : List Packet)
    → x ++ (bq ++ f) ≡ before
    → y ++ (cq ++ d) ≡ bq ++ taken
    → f ≡ []
    → (x ++ y) ++ (cq ++ (d ++ f)) ≡ before ++ taken
regroup_open before taken bq cq d f x y e g h =
    rw (h, append-nil, append_assoc, g, ← e, h, append-nil, append_assoc)

regroup_shut :
    (before taken bq cq d f x y : List Packet)
    → x ++ (bq ++ f) ≡ before
    → y ++ (cq ++ d) ≡ bq ++ taken
    → taken ≡ []
    → (x ++ y) ++ (cq ++ (d ++ f)) ≡ before ++ taken
regroup_shut before taken bq cq d f x y e g h =
    regrouped
    ∙ ap (λ l. x ++ (l ++ f)) (g ∙ ap (λ l. bq ++ l) h ∙ append-nil bq)
    ∙ e
    ∙ sym (append-nil before)
    ∙ ap (λ l. before ++ l) (sym h)
  where
    regrouped : (x ++ y) ++ (cq ++ (d ++ f)) ≡ x ++ ((y ++ (cq ++ d)) ++ f)
    regrouped = simp append_assoc

-- Steps one after the other.
join-Kept :
    (before taken : List Packet) (b c : Assoc) (xs ys : List Call)
    → Kept before b xs
    → (is_some b.cs ≡ false → (is_some c.cs ≡ false) × (taken ≡ []))
    → Kept (b.queue_out ++ taken) c ys
    → Kept (before ++ taken) c (xs ++ ys)
join-Kept before taken b c xs ys first stays second = record {
  dropped = second.dropped ++ first.dropped;
  balance = rw (completed-append xs ys) (elim (Bool-cases (is_some b.cs)) [
    | inl up ↦
        regroup_open before taken b.queue_out c.queue_out second.dropped first.dropped
          (completed xs) (completed ys) first.balance second.balance (first.open_keeps up)
    | inr shut ↦
        regroup_shut before taken b.queue_out c.queue_out second.dropped first.dropped
          (completed xs) (completed ys) first.balance second.balance (stays shut).1
  ]);
  open_keeps = λ up. elim (Bool-cases (is_some b.cs)) [
    | inl live ↦ rw (second.open_keeps up, first.open_keeps live)
    | inr shut ↦ ground (arith, stays shut)
  ];
}

-- Whatever is sent, and however the sockets answer: the packages that were written whole, those
-- that are queued, and those that a lost connection dropped are the packages that were queued at
-- the start and accepted since, in that order. While the connection is there none is dropped.
pub run_output-Kept :
    (os : List Output) (a : Assoc)
    → let (b, calls, taken) = run_output os a in Kept (a.queue_out ++ taken) b calls
unfolding run_output
run_output-Kept [] a = rw append-nil (Kept-all _ _ _ refl)
run_output-Kept (o ∷ os) a =
    let (b, calls, r) = output_step o a in
    let (c, more, taken) = run_output os b in
    subst (λ l. Kept l c (calls ++ more)) (append_assoc a.queue_out (output_accepted o a) taken)
      (join-Kept (a.queue_out ++ output_accepted o a) taken b c calls more (step-Kept o a)
        (run_stays_shut os b) (run_output-Kept os b))
