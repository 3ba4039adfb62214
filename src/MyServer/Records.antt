-- ===== src/MyServer/Records.antt =====
-- src/yaz-my-server.cpp: the hits of a search and the records of a present request.
use yazpp.Prelude.{
  ℕ, zero, suc, ◌+◌, ◌-◌, ◌*◌, ◌/◌, ◌%◌, ◌≡◌, ◌≤◌, ◌<◌, refl, ap, sym, true, false, inl, inr, List,
  [], ◌∷◌, ◌++◌, Option, none, some, if◌then◌else◌, ltb, length, All, All-append, arith, Bool-cases,
}
use yazpp.Prelude.Int.{ℤ, pos, to_int}
use yazpp.Apdu.{Octets, Apdu, present_response, transfer_reference_id}
use yazpp.MarcSample.{get_record}
use yazpp.MarcSample.Format.{
  is_marc, control_number, control_numbers, at_position, Sample, get_record-SampleAt,
}
use yazpp.Server.{Message}
use yazpp.Retrieval.{Payload, database, surrogate, Packed, success, Sizes, or_diagnostic}
use yazpp.Retrieval.Packing.{fitting, pack_records-fitting}
use yazpp.Retrieval.Piggyback.{SearchResponse, PresentRequest, PresentResponse, fetch_via_present}
use yazpp.Retrieval.Requests.{presents, presented, recv, response_apdu}
use yazpp.MyServer.{
  read_digits, is_digit, atoi, general_term, sr_search, record_at, sr_record, Content, backend,
}

-- The decimal digits of a number below 10 ^ (fuel + 1).
abbrev pub decimal : ℕ → ℕ → Octets
decimal zero n = (b'0' + n % 10) ∷ []
decimal (suc fuel) n =
    let before = decimal fuel (n / 10) in
    if ltb n 10 then (b'0' + n) ∷ [] else before ++ (b'0' + n % 10) ∷ []

abbrev Digit : ℕ → Type 0
Digit c = is_digit c ≡ true

read_digits-append :
    (n d : ℕ) (ds : Octets)
    → All Digit ds
    → Digit d
    → read_digits n (ds ++ d ∷ []) ≡ read_digits n ds * 10 + (d - b'0')
unfolding read_digits
read_digits-append n d [] a h = ground arith
read_digits-append n d (c ∷ ds) a h =
    ground (arith, read_digits-append (n * 10 + (c - b'0')) d ds a.1 h)

-- What a sample position gives, for the control number that it has: the MARC record of that number,
-- or the diagnostic 13 where there is none.
abbrev pub PayloadFor : Option (List ℕ) → Payload Octets → Type 0
PayloadFor (some n) (database r) = (is_marc r ≡ true) × (control_number r ≡ n)
PayloadFor none (surrogate n) = n ≡ 13
PayloadFor _ _ = ⊥

abbrev pub PayloadAt : ℕ → Payload Octets → Type 0
PayloadAt position p = PayloadFor (at_position control_numbers position) p

record_at-PayloadFor :
    (n o : Option (List ℕ)) → Sample n o → PayloadFor n (or_diagnostic (record_at o))
unfolding record_at
record_at-PayloadFor (some n) none h = h
record_at-PayloadFor (some n) (some r) h = h
record_at-PayloadFor none none h = refl
record_at-PayloadFor none (some r) h = h

-- The records from a position on.
abbrev pub Sampled : ℕ → List (Payload Octets) → Type 0
Sampled position [] = Unit
Sampled position (p ∷ ps) = PayloadAt position p × Sampled (position + 1) ps

abbrev Holding : ℕ → ℕ → Packed Octets → Type 0
Holding start n r =
    (l : List (Payload Octets)) × (r.records ≡ some l)
    × Sampled start l
    × (length l ≡ n)
    × (r.status ≡ success)

fitting-Holding :
    (limit : ℕ) (total : ℕ → ℕ) (left start next : ℕ)
    → ((position : ℕ) → total position ≤ limit)
    → Holding start left (fitting limit (sr_record total) left start next)
unfolding sr_record
fitting-Holding limit total zero start next fits = ([], refl, tt, refl, refl)
fitting-Holding limit total (suc left) start next fits =
    let (l, e, held, n, ok) = fitting-Holding limit total left (start + 1) (start + 1) fits in
    let small : ltb limit (total start) ≡ false = ground (arith, fits start) in
    rw small (
      or_diagnostic (record_at (get_record start)) ∷ l,
      rw e refl,
      (
        record_at-PayloadFor (at_position control_numbers start) (get_record start)
            (get_record-SampleAt start),
        held,
      ),
      ap suc n,
      ok,
    )

-- A present request is answered with the records of the sample at the positions asked for, each the
-- MARC record with the control number of its position, and with the diagnostic 13 at a position that
-- has none; as many as were asked for, and with success. The response had no records before, and what `odr_total` gives never passes
-- the preferred message size.
pub recv_present :
    (c : Content) (msg : Message) (from : Apdu) (limit k : ℕ) (maximum : ℤ) (req : PresentRequest)
    → to_int req.number_requested ≡ pos k
    → c.fresh_present.records ≡ none
    → ((position : ℕ) → c.total position ≤ limit)
    → let sizes : Sizes = record { preferred = pos limit; maximum = maximum } in
      (res : PresentResponse Octets) × (l : List (Payload Octets)) × (recv sizes
          (backend c msg)
          from
          (presents req)
        ≡ some (transfer_reference_id from (response_apdu present_response), presented res))
      × (res.records ≡ some (some l))
      × Sampled req.start_point l
      × (length l ≡ k)
      × (res.number_returned ≡ k)
      × (res.present_status ≡ success)
unfolding recv backend fetch_via_present
recv_present c msg from limit k maximum req asked empty fits =
    let sizes : Sizes = record { preferred = pos limit; maximum = maximum } in
    let packed = pack_records-fitting limit maximum (pos k) (sr_record c.total) req.start_point in
    let (l, e, held, n, ok) = fitting-Holding limit c.total k req.start_point 0 fits in
    (
      fetch_via_present sizes (λ names position. sr_record c.total position) req c.fresh_present,
      l,
      rw empty refl,
      rw (asked, packed, e) refl,
      held,
      n,
      rw (asked, packed, e) n,
      rw (asked, packed) ok,
    )

abbrev power : ℕ → ℕ
power zero = 10
power (suc fuel) = 10 * power fuel

decimal-Digit : (fuel n : ℕ) → All Digit (decimal fuel n)
decimal-Digit zero n = (ground arith, tt)
decimal-Digit (suc fuel) n = elim (Bool-cases (ltb n 10)) [
  | inl small ↦ rw small (ground arith, tt)
  | inr large ↦
      rw large (
        All-append Digit (decimal fuel (n / 10)) _ (decimal-Digit fuel (n / 10)) (ground arith, tt))
]

read_decimal : (fuel n : ℕ) → n < power fuel → read_digits 0 (decimal fuel n) ≡ n
read_decimal zero n h = unfold read_digits in ground arith
read_decimal (suc fuel) n h = elim (Bool-cases (ltb n 10)) [
  | inl small ↦ rw small (unfold read_digits in ground arith)
  | inr large ↦
      let digit : Digit (b'0' + n % 10) = ground arith in
      let before = read_decimal fuel (n / 10) (omega arith) in
      rw large (
        omega (
          arith,
          read_digits-append 0 (b'0' + n % 10) (decimal fuel (n / 10)) (decimal-Digit fuel (n / 10))
              digit,
          before,
        ))
]

atoi-digits :
    (ds : Octets) (n : ℕ)
    → All Digit ds
    → read_digits 0 ds ≡ n
    → n < 2147483648
    → atoi ds ≡ some (pos n)
unfolding atoi
atoi-digits [] n a e h = unfold read_digits in rw (sym e) refl
atoi-digits (c ∷ ds) n a e h = ground (arith, a.0)

-- A search for a term of the decimal digits of a number that an `int` holds has that many hits, and
-- changes nothing else of the response.
pub sr_search-hits {ℓ} :
    {A : Type ℓ} (n : ℕ) (res : SearchResponse A)
    → n < 2147483648
    → sr_search (general_term (decimal 9 n)) res ≡ some (record res { result_count = pos n })
unfolding sr_search
sr_search-hits n res h =
    counted (decimal 9 n)
      (atoi-digits (decimal 9 n) n (decimal-Digit 9 n) (read_decimal 9 n (omega arith)) h)
  where
    counted :
        (ds : Octets)
        → atoi ds ≡ some (pos n)
        → sr_search (general_term ds) res ≡ some (record res { result_count = pos n })
    counted ds e = rw (e, sr_search) refl
