-- ===== src/Zlint/Talk.antt =====
-- zlint/zlint.cpp: a test and a target that answers its requests one after the other, as long as
-- the test continues.
use yazpp.Prelude.{
  ℕ, zero, suc, ◌<◌, ◌≡◌, refl, Bool, true, false, List, [], ◌∷◌, Option, none, some, arith,
}
use yazpp.Zlint.{
  Code, finished, continues, reopens, Checks, init_response, search_response, present_response,
  sort_response, scan_response, Gdu, z3950, Request, asks_init, asks_search, asks_present,
  asks_sort, asks_scan, Done,
}

-- Whether a package is a response of the kind that a request asks for.
abbrev pub answers : Request → Gdu → Bool
answers (asks_init req) (z3950 (init_response res)) = true
answers (asks_search database q) (z3950 (search_response records count)) = true
answers (asks_present syntax) (z3950 (present_response records)) = true
answers (asks_sort spec) (z3950 (sort_response diagnostics)) = true
answers (asks_scan database q) (z3950 (scan_response entries)) = true
answers _ _ = false

-- How it goes: the test read what it must not, it still waits for a response, or it is over.
pub data Talk {ℓ} (S : Type ℓ) : Type ℓ where
  crashed waits : Talk S
  over : Code → S → Checks → Talk S

-- The request that is to be answered next.
abbrev pub last_sent : Request → List Request → Request
last_sent r [] = r
last_sent r (r' ∷ rs) = last_sent r' rs

module _ {ℓ} {S : Type ℓ} where
  -- What becomes of a talk, by the code; `next` is how it goes on if it does.
  abbrev pub by_code : Code → S → Checks → Talk S → Talk S
  by_code continues s c next = next
  by_code finished s c next = over finished s c
  by_code reopens s c next = over reopens s c

  abbrev pub goes : Option (Done S) → Talk S → Talk S
  goes none next = crashed
  goes (some d) next = by_code d.code d.state d.checks next

  abbrev pub asked_next : Request → Option (Done S) → Request
  asked_next r none = r
  asked_next r (some d) = last_sent r d.sent

  abbrev pub next_state : S → Option (Done S) → S
  next_state s none = s
  next_state s (some d) = d.state

  abbrev pub next_checks : Checks → Option (Done S) → Checks
  next_checks c none = c
  next_checks c (some d) = d.checks

module _ {ℓ} {S : Type ℓ} (recv : Gdu → S → Checks → Option (Done S))
    (target : ℕ → Request → Gdu) where
  -- `n` responses at most; the target's answer may depend on how many there are to go.
  unfoldable pub talk : ℕ → Request → S → Checks → Talk S
  talk zero r s c = waits
  talk (suc n) r s c =
      let o = recv (target n r) s c in
      let rest = talk n (asked_next r o) (next_state s o) (next_checks c o) in goes o rest

-- A test goes on as it should: it finishes, or it sends one request, in a state from which there
-- is less to do than `bound`.
pub data Proceeds {ℓ ℓ'} {S : Type ℓ} (Awaits : Request → S → Type ℓ') (left : Request → S → ℕ)
    (bound : ℕ) : Option (Done S) → Type (ℓ ⊔ ℓ') where
  stop :
      (s : S) (c : Checks)
      → Proceeds Awaits left bound
          (some (record { code = finished; state = s; checks = c; sent = [] }))
  go_on :
      (r : Request) (s : S) (c : Checks)
      → Awaits r s
      → left r s < bound
      → Proceeds Awaits left bound
          (some (record { code = continues; state = s; checks = c; sent = r ∷ [] }))

abbrev pub Ends {ℓ} : {S : Type ℓ} → Talk S → Type ℓ
Ends {S = S} t = (s : S) × (c : Checks) × (t ≡ over finished s c)

goes-Ends {ℓ ℓ'} :
    {S : Type ℓ} (Awaits : Request → S → Type ℓ') (left : Request → S → ℕ) (bound : ℕ)
    (next : Request → S → Checks → Talk S) (o : Option (Done S)) (r : Request) (s : S) (c : Checks)
    → Proceeds Awaits left bound o
    → ((r' : Request) (s' : S) (c' : Checks)
        → Awaits r' s'
        → left r' s' < bound
        → Ends (next r' s' c'))
    → Ends (goes o (next (asked_next r o) (next_state s o) (next_checks c o)))
goes-Ends Awaits left bound next _ r s c (stop s' c') k = (s', c', refl)
goes-Ends Awaits left bound next _ r s c (go_on r' s' c' a lt) k = k r' s' c' a lt

module _ {ℓ ℓ'} {S : Type ℓ} (recv : Gdu → S → Checks → Option (Done S))
    (target : ℕ → Request → Gdu) (suits : Request → Gdu → Bool) (Awaits : Request → S → Type ℓ')
    (left : Request → S → ℕ) where
  -- Every response that suits the request is a step on the way to the end.
  abbrev pub Steps : Type (ℓ ⊔ ℓ')
  Steps =
      (g : Gdu) (r : Request) (s : S) (c : Checks)
      → suits r g ≡ true
      → Awaits r s
      → Proceeds Awaits left (left r s) (recv g s c)

  pub talk-Ends :
      Steps
      → ((n : ℕ) (r : Request) → suits r (target n r) ≡ true)
      → (n : ℕ) (r : Request) (s : S) (c : Checks) → Awaits r s
      → left r s < n
      → Ends (talk recv target n r s c)
  unfolding talk
  talk-Ends steps fair zero r s c a lt = ground arith
  talk-Ends steps fair (suc n) r s c a lt =
      goes-Ends Awaits left (left r s) (talk recv target n) (recv (target n r) s c) r s c
        (steps (target n r) r s c (fair n r) a)
        (λ r' s' c' a' lt'. talk-Ends steps fair n r' s' c' a' (omega arith))
