-- ===== src/Zoom/Exits.antt =====
-- zoom/zconn.cpp and zoom/zclient.cpp: a connection, and the whole run of the sample client.
use yazpp.Prelude.{
  ℕ, ◌≡◌, refl, sym, subst, ◌⊎◌, Bool, true, false, inl, inr, List, [], ◌∷◌, Option, none, some,
  Bool-cases, Option-cases, ◌≤◌, arith,
}
use yazpp.Prelude.Int.{ℤ, pos, ◌==ℤ◌}
use yazpp.Apdu.{Octets}
use yazpp.MyServer.{atoi}
use yazpp.Zoom.Calls.{
  system, bib1, bad_query, text, Object, connection, options, Event, Outcome, returned, threw,
  undefined, NoValue, Action, Api, ◌>>◌, closing,
}
use yazpp.Zoom.{connect, new_connection, set_connection_option}
use yazpp.Zoom.Client.{set_up, search_in, session, caught, main}
use yazpp.Zoom.Lifetimes.{
  Alive, Scoped, Scoped-append, Ends, Run, Kept, >>=-Run, >>=-Kept, closing-Kept,
}
use yazpp.Zoom.Released.{Null, search_in-Kept}

module _ {W : Type 0} (api : Api W) where
  -- What is made for a connection, and whether it is opened.
  abbrev options_made : W → ℕ
  options_made w = (api.options_create w).0

  abbrev connection_made : W → ℕ
  connection_made w = (api.connection_create (options_made w) (api.options_create w).1).0

  abbrev connected : Octets → ℤ → W → W
  connected host port w =
      let (c, w2) = api.connection_create (options_made w) (api.options_create w).1 in
      api.connection_connect c host port w2

  abbrev error_made : Octets → ℤ → W → ℤ × Option Octets
  error_made host port w = api.connection_error (connection_made w) (connected host port w)

  abbrev pub opened : Octets → ℤ → W → Bool
  opened host port w = (error_made host port w).0 ==ℤ pos 0

  -- The objects that are never destroyed.
  abbrev left : Bool → W → List Object
  left true w = options (options_made w) ∷ []
  left false w = connection (connection_made w) ∷ options (options_made w) ∷ []

  abbrev Opened : Octets → ℤ → W → ℕ → List Object → Type 0
  Opened host port w c t =
      (t ≡ connection c ∷ options (options_made w) ∷ []) × (opened host port w ≡ true)

  new_connection-Opened :
      (host : Octets) (port : ℤ) (w : W)
      → Run
          (Null api)
          (Opened host port w)
          (λ t. t ≡ left (opened host port w) w)
          []
          (new_connection api host port w)
  unfolding new_connection connect
  new_connection-Opened host port w = elim (Bool-cases (opened host port w)) [
    | inl ok ↦ rw ok (
      connection (connection_made w) ∷ options (options_made w) ∷ [],
      (inl refl, (inl refl, refl)),
      (refl, ok),
    )
    | inr failed ↦ elim (Option-cases (error_made host port w).1) [
      | inl e ↦
          rw (failed, e)
            (
              left false w,
              (inl refl, (inl refl, refl)),
              inl (connection_made w, connected host port w, e),
            )
      | inr (info, e) ↦ rw (failed, e) (left false w, (inl refl, (inl refl, refl)), (refl, tt))
    ]
  ]

  inside-Kept :
      (c : ℕ) (dbname pqn : Octets) (s : List Object) (w : W)
      → Alive (connection c) s
      → Kept (Null api) (λ d. s) s s ((set_up api c dbname >> search_in api c pqn) w)
  unfolding set_connection_option
  inside-Kept c dbname pqn s w hc =
      >>=-Kept (Null api) (λ d. s) (λ d. s) s s (set_up api c dbname) (λ d. search_in api c pqn) w
        (s, (hc, (hc, refl)), refl) λ d w'. search_in-Kept api c pqn s w' hc

  session-Kept :
      (host : Octets) (port : ℤ) (dbname pqn : Octets) (w : W)
      → Kept
          (Null api)
          (λ d. left (opened host port w) w)
          (left (opened host port w) w)
          []
          (session api host port dbname pqn w)
  unfolding session
  session-Kept host port dbname pqn w =
      let now = left (opened host port w) w in
      let rest : List Object = options (options_made w) ∷ [] in
      >>=-Run (Null api) (Opened host port w) (λ d t. t ≡ now) (λ t. t ≡ now) []
        (new_connection api host port) (λ c. closing api (connection c) (inside c)) w
        (new_connection-Opened host port w)
        λ c t w' p.
          let run = inside-Kept c dbname pqn (connection c ∷ rest) w' (inl refl) in
          let ended = closing-Kept (Null api) api (connection c) rest (inside c) w' run in
          subst (λ v. Kept (Null api) (λ d. now) now v (closing api (connection c) (inside c) w'))
            (sym p.0)
            (subst
              (λ b.
                Kept (Null api) (λ d. left b w) (left b w) (connection c ∷ rest)
                  (closing api (connection c) (inside c) w'))
              (sym p.1) ended)
    where
      inside : ℕ → Action W NoValue
      inside c = set_up api c dbname >> search_in api c pqn

  -- What a run with these arguments leaves alive.
  abbrev pub left_by : Octets → Option ℤ → W → List Object
  left_by host none w = []
  left_by host (some port) w = left (opened host port w) w

  abbrev pub Exits : Option ℤ → Outcome ℕ → List Object → List Object → Type 0
  Exits port (returned code) t now = (t ≡ now) × (code ≤ 3)
  Exits port (threw e) t now = ⊥
  Exits port undefined t now = Null api ⊎ (port ≡ none)

  caught-Exits :
      (name : Octets) (port : Option ℤ) (o : Outcome NoValue) (w : W) (es : List Event)
      (t now : List Object)
      → Scoped es [] t
      → Ends (Null api) (λ d t. t ≡ now) (λ t. t ≡ now) o t
      → (u : List Object) × Scoped (caught api name o w es).events [] u
        × Exits port (caught api name o w es).outcome u now
  caught-Exits name port (returned d) w es t now h e = (t, h, (e, omega arith))
  caught-Exits name port undefined w es t now h e = (t, h, inl e)
  caught-Exits name port (threw (text x)) w es t now h e = elim (e.1) [ ]
  caught-Exits name port (threw (bib1 code x)) w es t now h e =
      (t, Scoped-append es _ [] t t h refl, (e.0, omega arith))
  caught-Exits name port (threw (bad_query code x)) w es t now h e =
      (t, Scoped-append es _ [] t t h refl, (e.0, omega arith))
  caught-Exits name port (threw (system code)) w es t now h e =
      (t, Scoped-append es _ [] t t h refl, (e.0, omega arith))

  -- The sample client with four arguments uses each object that YAZ made for it only between its
  -- creation and its destruction, destroys each once and after those made later, and no exception
  -- leaves it. If it returns, its code is at most 3, and what is not destroyed is the options of the
  -- connection, and with them the connection if it could not be opened. It fails to return only
  -- where YAZ has no text of an error or of a record, or where `atoi` gives no number for the port.
  pub main-Scoped :
      (name host port dbname pqn : Octets) (w : W)
      → let r = main api name (host ∷ port ∷ dbname ∷ pqn ∷ []) w in
        (t : List Object) × Scoped r.events [] t
        × Exits (atoi port) r.outcome t (left_by host (atoi port) w)
  unfolding main
  main-Scoped name host port dbname pqn w = elim (Option-cases (atoi port)) [
    | inl none_read ↦ rw none_read ([], refl, inr refl)
    | inr (n, read) ↦
        let r = session api host n dbname pqn w in
        let (t, h, e) = session-Kept host n dbname pqn w in
        rw read
          (caught-Exits name (some n) r.outcome r.lib r.events t (left (opened host n w) w) h e)
  ]
