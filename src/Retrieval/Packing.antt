-- ===== src/Retrieval/Packing.antt =====
-- The loop of `pack_records` in src/yaz-z-server-sr.cpp.
use yazpp.Prelude.{
  ℕ, zero, suc, ◌+◌, ◌≤◌, ◌≡◌, ◌≢◌, refl, ap, ◌↔◌, inl, inr, List, [], ◌∷◌, Option, none, some,
  if◌then◌else◌, ltb, ◌==◌, length, arith, Bool-cases,
}
use yazpp.Prelude.Int.{ℤ, pos, pos_part, ◌+ℤ◌, ◌-ℤ◌}
use yazpp.Retrieval.{
  Payload, Fetched, Packed, PresentStatus, success, partial_2, failure, Sizes, stop, kept, judge,
  or_diagnostic, put_first, pack_round, pack_loop, pack_records,
}

-- With nothing dumped before, a record's own length comes out as 0.
judge_first :
    (n total : ℕ) (maximum toget : ℤ)
    → judge
        (record { preferred = pos n; maximum = maximum })
        toget
        (pos total -ℤ pos 0)
        (pos total -ℤ (pos total -ℤ pos 0))
      ≡ (if ltb n total then stop else kept)
unfolding judge ◌-ℤ◌ ◌+ℤ◌
judge_first n total maximum toget = ground arith

module _ {ℓ} {A : Type ℓ} where
  -- The records from `recno` on, until there are enough or their total passes the preferred size;
  -- none where the database fails.
  abbrev pub fitting : ℕ → (ℕ → Fetched A) → ℕ → ℕ → ℕ → Packed A
  fitting limit sr_record zero recno next = record {
    records = some [];
    next = next;
    status = success;
  }
  fitting limit sr_record (suc left) recno next =
      let rest = fitting limit sr_record left (recno + 1) (recno + 1) in
      elim (sr_record recno).payload [
        | none ↦ record { records = none; next = next; status = failure }
        | some p ↦
            if ltb limit (sr_record recno).total
            then record { records = some []; next = next; status = partial_2 }
            else put_first (or_diagnostic p) rest
      ]

  pack_round-fitting :
      (limit : ℕ) (maximum toget : ℤ) (recno total next : ℕ) (p : Payload A)
      (continue : ℤ → ℕ → Packed A)
      → pack_round
          (record { preferred = pos limit; maximum = maximum })
          toget
          recno
          total
          (pos 0)
          next
          p
          continue
        ≡ (if ltb limit total
            then record { records = some []; next = next; status = partial_2 }
            else put_first (or_diagnostic p) (continue (pos 0) (recno + 1)))
  unfolding pack_round
  pack_round-fitting limit maximum toget recno total next p continue =
      ground (arith, judge_first limit total maximum toget)

  -- A round of the loop, by what the handler left.
  by_payload :
      (limit : ℕ) (maximum toget : ℤ) (sr_record : ℕ → Fetched A) (left recno next : ℕ)
      (o : Option (Payload A))
      → (sr_record recno).payload ≡ o
      → ((n m : ℕ)
          → pack_loop
              (record { preferred = pos limit; maximum = maximum })
              sr_record
              toget
              left
              n
              (pos 0)
              m
            ≡ fitting limit sr_record left n m)
      → pack_loop
          (record { preferred = pos limit; maximum = maximum })
          sr_record
          toget
          (suc left)
          recno
          (pos 0)
          next
        ≡ fitting limit sr_record (suc left) recno next
  unfolding pack_loop
  by_payload limit maximum toget sr_record left recno next none e ih = ground (arith, e)
  by_payload limit maximum toget sr_record left recno next (some p) e ih =
      let sizes : Sizes = record { preferred = pos limit; maximum = maximum } in
      ground (
        arith,
        e,
        pack_round-fitting limit maximum toget recno (sr_record recno).total next p
            (λ dumped next'. pack_loop sizes sr_record toget left (recno + 1) dumped next'),
        ih (recno + 1) (recno + 1),
      )

  pack_loop-fitting :
      (limit : ℕ) (maximum toget : ℤ) (sr_record : ℕ → Fetched A) (left recno next : ℕ)
      → pack_loop
          (record { preferred = pos limit; maximum = maximum })
          sr_record
          toget
          left
          recno
          (pos 0)
          next
        ≡ fitting limit sr_record left recno next
  pack_loop-fitting limit maximum toget sr_record zero recno next = unfold pack_loop in refl
  pack_loop-fitting limit maximum toget sr_record (suc left) recno next =
      by_payload limit maximum toget sr_record left recno next (sr_record recno).payload refl
        (pack_loop-fitting limit maximum toget sr_record left)

  pub pack_records-fitting :
      (limit : ℕ) (maximum xnum : ℤ) (sr_record : ℕ → Fetched A) (start : ℕ)
      → pack_records (record { preferred = pos limit; maximum = maximum }) sr_record start xnum
        ≡ fitting limit sr_record (pos_part xnum) start 0
  unfolding pack_records
  pack_records-fitting limit maximum xnum sr_record start =
      pack_loop-fitting limit maximum xnum sr_record (pos_part xnum) start 0

  -- A response of at most `left` records from `recno` on: it reports success exactly if it holds
  -- that many, failure exactly if it is a diagnostic, and the number after its last record.
  abbrev pub Promised : ℕ → ℕ → ℕ → Option (List (Payload A)) → ℕ → PresentStatus → Type 0
  Promised left recno next none reported status = status ≡ failure
  Promised left recno next (some l) reported status =
      (length l ≤ left)
      × (status ≢ failure)
      × ((status ≡ success) ↔ (length l ≡ left))
      × (reported ≡ (if length l == 0 then next else recno + length l))

  put_first-Promised :
      (left recno next : ℕ) (p : Payload A) (o : Option (List (Payload A))) (reported : ℕ)
      (status : PresentStatus)
      → Promised left (recno + 1) (recno + 1) o reported status
      → Promised
          (suc left)
          recno
          next
          (elim o [ none ↦ none | some l ↦ some (p ∷ l) ])
          reported
          status
  put_first-Promised left recno next p none reported status h = h
  put_first-Promised left recno next p (some l) reported status h = (
    omega (arith, h.0),
    h.1,
    ((λ e. ap suc (h.2.0 e)), (λ e. h.2.1 (omega arith))),
    ground (arith, h.3),
  )

  fitting-Promised :
      (limit : ℕ) (sr_record : ℕ → Fetched A) (left recno next : ℕ)
      → let r = fitting limit sr_record left recno next in
        Promised left recno next r.records r.next r.status
  fitting-Promised limit sr_record zero recno next =
      (omega arith, (λ e. cc), ((λ e. refl), (λ e. refl)), refl)
  fitting-Promised limit sr_record (suc left) recno next =
      round (sr_record recno).payload
        (fitting-Promised limit sr_record left (recno + 1) (recno + 1))
    where
      rest : Packed A
      rest = fitting limit sr_record left (recno + 1) (recno + 1)

      step : Option (Payload A) → Packed A
      step o = elim o [
        | none ↦ record { records = none; next = next; status = failure }
        | some p ↦
            if ltb limit (sr_record recno).total
            then record { records = some []; next = next; status = partial_2 }
            else put_first (or_diagnostic p) rest
      ]

      round :
          (o : Option (Payload A))
          → Promised left (recno + 1) (recno + 1) rest.records rest.next rest.status
          → Promised (suc left) recno next (step o).records (step o).next (step o).status
      round none h = refl
      round (some p) h = elim (Bool-cases (ltb limit (sr_record recno).total)) [
        | inl over ↦
            rw over
              (omega arith, (λ e. cc), ((λ e. absurd (cc)), (λ e. absurd (omega arith))), refl)
        | inr fits ↦ rw fits (
            put_first-Promised left recno next (or_diagnostic p) rest.records rest.next rest.status
              h)
      ]

  -- For a preferred message size that is not negative, the response to a request for `xnum`
  -- records from `start` on holds at most that many; it reports success exactly if it holds as
  -- many, failure exactly if it is a diagnostic, and the number after its last record.
  pub pack_records-Promised :
      (limit : ℕ) (maximum xnum : ℤ) (sr_record : ℕ → Fetched A) (start : ℕ)
      → let sizes : Sizes = record { preferred = pos limit; maximum = maximum } in
        let r = pack_records sizes sr_record start xnum in
        Promised (pos_part xnum) start 0 r.records r.next r.status
  pack_records-Promised limit maximum xnum sr_record start =
      rw (pack_records-fitting limit maximum xnum sr_record start)
        (fitting-Promised limit sr_record (pos_part xnum) start 0)
