-- ===== src/Zlint/InitEndings.antt =====
-- zlint: the ends of the tests of init, over a target that answers each request with a response
-- of its kind.
use yazpp.Prelude.{
  ℕ, ◌≡◌, inl, refl, Bool, true, false, not, ◌&&◌, ◌||◌, ltb, [], ◌∷◌, Option, none, some, is_some,
  arith,
}
use yazpp.Prelude.Int.{ℤ, pos}
use yazpp.Apdu.{Octets}
use yazpp.Zlint.{
  finished, continues, Checks, init_response_get_version, InitRequest, InitResponse, init_response,
  Gdu, z3950, Request, asks_init, Done,
}
use yazpp.Zlint.Init.{ends}
use yazpp.Zlint.Endings.{described, answers_described}
use yazpp.Zlint.ScanEnding.{suits}
use yazpp.Zlint.Driver.{new_entry}
use yazpp.Zlint.Completion.{Ready}
use yazpp.Zlint.Session.{Phase, connecting, talking, react, Progress, stops, proceeds, EndsWell}
use yazpp.Zlint.Program.{NoMembers, no_members, simple}

and-both : {a b : Bool} → (a && b) ≡ true → (a ≡ true) × (b ≡ true)
and-both {a = a} {b = b} h = ground arith

-- The version of an init response is one of 2 to 5.
abbrev pub in_versions : InitResponse → Bool
in_versions res =
    let ver = init_response_get_version res.protocol_version in not (ltb ver 2 || ltb 5 ver)

-- A record of its character set, if there is one, names the set.
abbrev pub names_charset : Option Bool → Bool
names_charset none = true
names_charset (some named) = named

abbrev pub versioned : Gdu → Bool
versioned (z3950 (init_response res)) = in_versions res && names_charset res.charset_record
versioned _ = true

-- A response of the right kind with all that the tests read.
abbrev pub serves : Request → Gdu → Bool
serves r g = suits r g && (described g && versioned g)

-- An init response that has its options, such a version and no record without a set.
abbrev pub Complete : InitResponse → Type 0
Complete res =
    (is_some res.options ≡ true)
    × (in_versions res ≡ true)
    × (names_charset res.charset_record ≡ true)

-- What answers an init request.
pub init-serves :
    (req : InitRequest) (g : Gdu)
    → serves (asks_init req) g ≡ true
    → (res : InitResponse) × (g ≡ z3950 (init_response res)) × Complete res
init-serves req (z3950 (init_response res)) h =
    let (given, rest) = and-both h in
    let (in_order, named) = and-both rest in (res, refl, (given, in_order, named))
init-serves req g h = ground arith

pub serves-suits : (r : Request) (g : Gdu) → serves r g ≡ true → suits r g ≡ true
serves-suits r g h = (and-both h).0

pub serves-described : (r : Request) (g : Gdu) → serves r g ≡ true → answers_described r g ≡ true
serves-described r g h = ground arith

-- A new connection, or an init request that is not answered yet.
abbrev AwaitsOne : Phase → NoMembers → Type 0
AwaitsOne connecting s = true ≡ true
AwaitsOne (talking (asks_init req ∷ [])) s = true ≡ true
AwaitsOne _ s = false ≡ true

abbrev left_one : Phase → NoMembers → ℕ
left_one connecting s = 1
left_one (talking rs) s = 0

-- What `init` of a test without members does: it sends one request, or finishes.
pub data Opens : Done NoMembers → Type 0 where
  sends_one :
      (req : InitRequest) (s : NoMembers) (c : Checks)
      → Opens (record { code = continues; state = s; checks = c; sent = asks_init req ∷ [] })
  gives_up :
      (s : NoMembers) (c : Checks)
      → Opens (record { code = finished; state = s; checks = c; sent = [] })

-- Its answer ends it.
pub data Concludes : Option (Done NoMembers) → Type 0 where
  concludes : (s : NoMembers) (c : Checks) → Concludes (some (ends s c))

module _ (target : ℕ → Request → Gdu) (fair : (n : ℕ) (r : Request) → serves r (target n r) ≡ true)
    (database : Octets) where
  Opens-Progress :
      (d : Done NoMembers) → Opens d → Progress AwaitsOne left_one connecting 1 (some d)
  Opens-Progress _ (sends_one req s c) =
      proceeds continues s c (asks_init req ∷ []) (inl refl) refl (omega arith)
  Opens-Progress _ (gives_up s c) = stops s c []

  Concludes-Progress :
      (ph : Phase) (o : Option (Done NoMembers)) → Concludes o → Progress AwaitsOne left_one ph 0 o
  Concludes-Progress ph _ (concludes s c) = stops s c []

  simple-EndsWell :
      (init : ℤ → NoMembers → Checks → Done NoMembers)
      (recv : Gdu → NoMembers → Checks → Option (Done NoMembers))
      → ((s : NoMembers) (c : Checks) → Opens (init (pos 0) s c))
      → ((res : InitResponse) (s : NoMembers) (c : Checks)
          → Complete res
          → Concludes (recv (z3950 (init_response res)) s c))
      → EndsWell target database (simple init recv)
  simple-EndsWell init recv opens answers = record { Inv = AwaitsOne; left = left_one; step = step }
    where
      step :
          (n : ℕ) (ph : Phase) (s : NoMembers) (c : Checks)
          → AwaitsOne ph s
          → Progress AwaitsOne left_one ph
              (left_one ph s)
              (react target (simple init recv) database n ph s c)
      step n connecting s c inv = Opens-Progress (init (pos 0) s c) (opens s c)
      step n (talking (asks_init req ∷ [])) s c inv =
          let (res, e, full) =
            init-serves req (target n (asks_init req)) (fair n (asks_init req)) in
          rw e (Concludes-Progress _ _ (answers res s c full))
      step n (talking rs) s c inv = ground arith

  pub simple-Ready :
      (init : ℤ → NoMembers → Checks → Done NoMembers)
      (recv : Gdu → NoMembers → Checks → Option (Done NoMembers))
      → ((s : NoMembers) (c : Checks) → Opens (init (pos 0) s c))
      → ((res : InitResponse) (s : NoMembers) (c : Checks)
          → Complete res
          → Concludes (recv (z3950 (init_response res)) s c))
      → Ready target database (new_entry (simple init recv) no_members)
  unfolding simple-EndsWell
  simple-Ready init recv opens answers =
      (simple-EndsWell init recv opens answers, refl, omega arith)
