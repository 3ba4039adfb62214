-- ===== src/Zoom/Client.antt =====
-- zoom/zclient.cpp: the sample client of the binding.
use yazpp.Prelude.{ℕ, zero, suc, ◌+◌, List, [], ◌∷◌, ◌++◌, Option, none, some}
use yazpp.Prelude.Int.{ℤ, pos}
use yazpp.Prelude.Text.{codes}
use yazpp.Apdu.{Octets}
use yazpp.MyServer.{atoi}
use yazpp.Zoom.Calls.{
  Exception, bib1, text, connection, query, result_set, out, err, Outcome, returned, threw,
  undefined, Event, Ran, NoValue, Action, Api, pure, print, ◌>>=◌, ◌>>◌, with_object,
}
use yazpp.Zoom.{
  Record, Syntax, xml, syntax_name, errmsg, new_connection, set_connection_option, prefix_query,
  new_result_set, size, new_record, recsyn, render,
}

module _ {W : Type 0} (api : Api W) where
  abbrev record_line : ℕ → Syntax → Octets → Octets
  record_line i syn body =
      codes "=== record "
      ++ api.decimal (pos (i + 1))
      ++ codes " (record-syntax "
      ++ syntax_name syn
      ++ codes ") ===\n"
      ++ body

  abbrev pub show_found : ℕ → Record → Action W NoValue
  show_found i rec = do
    syn ← recsyn api rec
    body ← render api rec
    print (out (record_line i syn body))

  -- One round of the loop.
  abbrev pub show_record : ℕ → ℕ → ℕ → Action W NoValue
  show_record c rs i = do rec ← new_record api c rs i; show_found i rec

  -- The loop over the records, of which so many are left.
  unfoldable pub show_records : ℕ → ℕ → ℕ → ℕ → Action W NoValue
  unfolding new_record recsyn render
  show_records c rs zero i = pure tt
  show_records c rs (suc left) i = show_record c rs i >> show_records c rs left (i + 1)

  abbrev pub found : ℕ → ℕ → Action W NoValue
  found c rs = do
    n ← size api rs
    print (out (codes "found " ++ api.decimal (pos n) ++ codes " records:\n"))
    show_records c rs n 0

  -- The `try` block, with a number of the port.
  abbrev pub set_up : ℕ → Octets → Action W NoValue
  set_up c dbname = do
    set_connection_option api c (codes "databaseName") dbname
    set_connection_option api c (codes "preferredRecordSyntax") (syntax_name xml)
    pure tt

  abbrev pub search_in : ℕ → Octets → Action W NoValue
  search_in c pqn =
      with_object api query (prefix_query api pqn)
        λ q. with_object api result_set (new_result_set api c q) λ rs. found c rs

  unfoldable pub session : Octets → ℤ → Octets → Octets → Action W NoValue
  unfolding set_connection_option prefix_query new_result_set show_records
  session host port dbname pqn =
      with_object api connection (new_connection api host port)
        λ c. set_up c dbname >> search_in c pqn

  abbrev message : Octets → Option Octets → Octets
  message before none = before
  message before (some msg) = before ++ msg

  -- The handlers: `bib1Exception`, and what is derived from `ZOOM::exception`.
  abbrev pub handle : Octets → Exception → List Event × Outcome ℕ
  handle name (bib1 code info) = (
    err (
          message (name ++ codes ": bib1Exception ") (errmsg api (bib1 code info))
          ++ codes " ("
          ++ info
          ++ codes ")\n")
        ∷ [],
    returned 2,
  )
  handle name (text t) = ([], threw (text t))
  handle name e =
      (err (message (name ++ codes ": exception ") (errmsg api e) ++ codes "\n") ∷ [], returned 3)

  abbrev pub caught : Octets → Outcome NoValue → W → List Event → Ran W ℕ
  caught name (returned tt) w es = record { outcome = returned 0; lib = w; events = es }
  caught name undefined w es = record { outcome = undefined; lib = w; events = es }
  caught name (threw e) w es =
      let (es', o) = handle name e in record { outcome = o; lib = w; events = es ++ es' }

  abbrev run_session : Octets → Octets → Option ℤ → Octets → Octets → Action W ℕ
  run_session name host none dbname pqn w = record { outcome = undefined; lib = w; events = [] }
  run_session name host (some port) dbname pqn w =
      let r = session host port dbname pqn w in caught name r.outcome r.lib r.events

  abbrev usage : Octets → Action W ℕ
  usage name = do
    print (err (codes "Usage: " ++ name ++ codes " <host> <port> <dbname> <@prefix-search>\n"))
    pure 1

  -- `main`, given its name and the other arguments; the result is the exit code.
  unfoldable pub main : Octets → List Octets → Action W ℕ
  unfolding session atoi
  main name (host ∷ port ∷ dbname ∷ pqn ∷ []) = run_session name host (atoi port) dbname pqn
  main name _ = usage name
