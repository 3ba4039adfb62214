-- ===== src/Zlint/MemberEndings.antt =====
-- zlint: the ends of the tests that have members, over a target that answers each request with a
-- response of its kind.
use yazpp.Prelude.{
  ℕ, zero, suc, ◌+◌, ◌*◌, ◌-◌, ◌≤◌, ◌≡◌, ◌<◌, inl, inr, refl, Bool, true, false, ◌&&◌, [], ◌∷◌,
  Option, ltb, ◌==◌, length, arith, Bool-cases,
}
use yazpp.Apdu.{Octets}
use yazpp.Zlint.{
  continues, reopens, Checks, InitRequest, InitResponse, init_response, accepts, Gdu, z3950,
  Request, asks_init, Done,
}
use yazpp.Zlint.Init.{Numbers, init_05, init_08, refid_1}
use yazpp.Zlint.Answers.{recv_05, recv_08, has_refid}
use yazpp.Zlint.Search.{Yaz, SearchTest, new_search_test, init_search}
use yazpp.Zlint.Scan.{try_scan, init_scan}
use yazpp.Zlint.Talk.{Proceeds, stop, go_on}
use yazpp.Zlint.Endings.{Fits, AwaitsSearch, left_search, recv_search_01-Proceeds}
use yazpp.Zlint.ScanEnding.{AwaitsScan, left_scan, recv_scan_01-Proceeds}
use yazpp.Zlint.Driver.{new_entry}
use yazpp.Zlint.Completion.{Ready}
use yazpp.Zlint.Session.{Phase, connecting, talking, react, Progress, stops, proceeds, EndsWell}
use yazpp.Zlint.Program.{test_05, test_08, search_01, scan_01}
use yazpp.Zlint.InitEndings.{serves, serves-suits, serves-described, init-serves}

-- Two requests are open, then one.
abbrev AwaitsTwo : Phase → ℕ → Type 0
AwaitsTwo connecting got = got ≡ 0
AwaitsTwo (talking (asks_init req ∷ [])) got = got ≡ 1
AwaitsTwo (talking (asks_init req ∷ asks_init req' ∷ [])) got = got ≡ 0
AwaitsTwo _ got = false ≡ true

abbrev left_two : Phase → ℕ → ℕ
left_two connecting got = 2
left_two (talking (r ∷ r' ∷ rs)) got = 1
left_two _ got = 0

recv_05-first :
    (res : InitResponse) (req req' : InitRequest) (got : ℕ) (c : Checks)
    → got ≡ 0
    → Progress AwaitsTwo left_two
        (talking (asks_init req ∷ asks_init req' ∷ []))
        1
        (recv_05 (z3950 (init_response res)) got c)
unfolding recv_05
recv_05-first res req req' zero c e =
    elim (Bool-cases (has_refid refid_1 res.reference_id && accepts res.result)) [
      | inl good ↦ rw good (proceeds continues 1 c [] (inl refl) refl (omega arith))
      | inr bad ↦ rw bad (stops _ _ [])
    ]
recv_05-first res req req' (suc got) c e = ground arith

recv_05-second :
    (res : InitResponse) (ph : Phase) (got : ℕ) (c : Checks)
    → got ≡ 1
    → Progress AwaitsTwo left_two ph 0 (recv_05 (z3950 (init_response res)) got c)
unfolding recv_05
recv_05-second res ph zero c e = ground arith
recv_05-second res ph (suc got) c e =
    let more : (suc got == 0) ≡ false = ground arith in rw more (stops _ _ [])

-- Three rounds.
abbrev AwaitsRound : Phase → ℕ → Type 0
AwaitsRound connecting round = round ≤ 2
AwaitsRound (talking (asks_init req ∷ [])) round = round ≤ 2
AwaitsRound _ round = false ≡ true

abbrev left_rounds : Phase → ℕ → ℕ
left_rounds connecting round = 5 - 2 * round
left_rounds (talking rs) round = 4 - 2 * round

recv_08-Progress :
    (res : InitResponse) (req : InitRequest) (round : ℕ) (c : Checks)
    → round ≤ 2
    → Progress AwaitsRound left_rounds
        (talking (asks_init req ∷ []))
        (4 - 2 * round)
        (recv_08 (z3950 (init_response res)) round c)
unfolding recv_08
recv_08-Progress res req round c le = elim (Bool-cases (ltb round 2)) [
  | inl more ↦ rw more (proceeds reopens (round + 1) _ [] (inr refl) (ground arith) (ground arith))
  | inr last ↦ rw last (stops _ _ [])
]

-- A test that has one open request at a time.
module _ {S : Type 0} (Awaits : Request → S → Type 0) (left : Request → S → ℕ) (Starts : S → Type 0)
    (first : ℕ) where
  abbrev AwaitsEach : Phase → S → Type 0
  AwaitsEach connecting s = Starts s
  AwaitsEach (talking (r ∷ [])) s = Awaits r s
  AwaitsEach _ s = false ≡ true

  abbrev left_each : Phase → S → ℕ
  left_each connecting s = first
  left_each (talking (r ∷ [])) s = left r s
  left_each _ s = 0

  Proceeds-Progress :
      (r : Request) (bound : ℕ) (o : Option (Done S))
      → Proceeds Awaits left bound o
      → Progress AwaitsEach left_each (talking (r ∷ [])) bound o
  Proceeds-Progress r bound _ (stop s c) = stops s c []
  Proceeds-Progress r bound _ (go_on r' s c a lt) = proceeds continues s c (r' ∷ []) (inl refl) a lt

module _ (target : ℕ → Request → Gdu) (fair : (n : ℕ) (r : Request) → serves r (target n r) ≡ true)
    (database : Octets) (num : Numbers) (yaz : Yaz) (room : Option Bool) (fresh : InitRequest) where
  test_05-EndsWell : EndsWell target database (test_05 num yaz room fresh)
  unfolding init_05
  test_05-EndsWell = record { Inv = AwaitsTwo; left = left_two; step = step }
    where
      step :
          (n : ℕ) (ph : Phase) (got : ℕ) (c : Checks)
          → AwaitsTwo ph got
          → Progress AwaitsTwo left_two ph
              (left_two ph got)
              (react target (test_05 num yaz room fresh) database n ph got c)
      step n connecting got c inv = proceeds continues got _ _ (inl refl) inv (omega arith)
      step n (talking (asks_init req ∷ [])) got c inv =
          let (res, e, full) =
            init-serves req (target n (asks_init req)) (fair n (asks_init req)) in
          rw e (recv_05-second res _ got c inv)
      step n (talking (asks_init req ∷ asks_init req' ∷ [])) got c inv =
          let (res, e, full) =
            init-serves req (target n (asks_init req)) (fair n (asks_init req)) in
          rw e (recv_05-first res req req' got c inv)
      step n (talking rs) got c inv = ground arith

  test_08-EndsWell : EndsWell target database (test_08 num yaz room fresh)
  unfolding init_08
  test_08-EndsWell = record { Inv = AwaitsRound; left = left_rounds; step = step }
    where
      step :
          (n : ℕ) (ph : Phase) (round : ℕ) (c : Checks)
          → AwaitsRound ph round
          → Progress AwaitsRound left_rounds ph
              (left_rounds ph round)
              (react target (test_08 num yaz room fresh) database n ph round c)
      step n connecting round c inv = proceeds continues round _ _ (inl refl) inv (omega arith)
      step n (talking (asks_init req ∷ [])) round c inv =
          let (res, e, full) =
            init-serves req (target n (asks_init req)) (fair n (asks_init req)) in
          rw e (recv_08-Progress res req round c inv)
      step n (talking rs) round c inv = ground arith

  search_01-EndsWell : EndsWell target database (search_01 num yaz room fresh)
  unfolding init_search
  search_01-EndsWell = record {
    Inv = AwaitsEach AwaitsSearch left_search Fits 27;
    left = left_each AwaitsSearch left_search Fits 27;
    step = step;
  }
    where
      step :
          (n : ℕ) (ph : Phase) (s : SearchTest) (c : Checks)
          → AwaitsEach AwaitsSearch left_search Fits 27 ph s
          → Progress
              (AwaitsEach AwaitsSearch left_search Fits 27)
              (left_each AwaitsSearch left_search Fits 27)
              ph
              (left_each AwaitsSearch left_search Fits 27 ph s)
              (react target (search_01 num yaz room fresh) database n ph s c)
      step n connecting s c inv = proceeds continues s _ _ (inl refl) inv (omega arith)
      step n (talking (r ∷ [])) s c inv =
          Proceeds-Progress AwaitsSearch left_search Fits 27 r (left_search r s) _ (
            recv_search_01-Proceeds yaz database (target n r) r s c
              (serves-described r (target n r) (fair n r)) inv)
      step n (talking rs) s c inv = ground arith

  -- A scan that has not gone through the array.
  abbrev ScanStarts : ℕ → Type 0
  ScanStarts scan_no = scan_no < length try_scan

  scan_01-EndsWell : EndsWell target database (scan_01 num yaz room fresh)
  unfolding init_scan
  scan_01-EndsWell = record {
    Inv = AwaitsEach AwaitsScan left_scan ScanStarts 4;
    left = left_each AwaitsScan left_scan ScanStarts 4;
    step = step;
  }
    where
      step :
          (n : ℕ) (ph : Phase) (s : ℕ) (c : Checks)
          → AwaitsEach AwaitsScan left_scan ScanStarts 4 ph s
          → Progress
              (AwaitsEach AwaitsScan left_scan ScanStarts 4)
              (left_each AwaitsScan left_scan ScanStarts 4)
              ph
              (left_each AwaitsScan left_scan ScanStarts 4 ph s)
              (react target (scan_01 num yaz room fresh) database n ph s c)
      step n connecting s c inv = proceeds continues s _ _ (inl refl) inv (omega arith)
      step n (talking (r ∷ [])) s c inv =
          Proceeds-Progress AwaitsScan left_scan ScanStarts 4 r (left_scan r s) _ (
            recv_scan_01-Proceeds num database (target n r) r s c
              (serves-suits r (target n r) (fair n r)) inv)
      step n (talking rs) s c inv = ground arith

  pub test_05-Ready : Ready target database (new_entry (test_05 num yaz room fresh) 0)
  unfolding test_05-EndsWell
  test_05-Ready = (test_05-EndsWell, refl, omega arith)

  pub test_08-Ready : Ready target database (new_entry (test_08 num yaz room fresh) 0)
  unfolding test_08-EndsWell
  test_08-Ready = (test_08-EndsWell, omega arith, omega arith)

  pub search_01-Ready :
      Ready target database (new_entry (search_01 num yaz room fresh) new_search_test)
  unfolding search_01-EndsWell new_search_test
  search_01-Ready = (search_01-EndsWell, (omega arith, omega arith, omega arith), omega arith)

  pub scan_01-Ready : Ready target database (new_entry (scan_01 num yaz room fresh) 0)
  unfolding scan_01-EndsWell try_scan
  scan_01-Ready = (scan_01-EndsWell, omega arith, omega arith)
