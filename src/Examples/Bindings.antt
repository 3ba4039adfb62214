-- ===== src/Examples/Bindings.antt =====
-- A library with one record, which counts what it makes, and one that opens no connection.
use yazpp.Prelude.{ℕ, suc, ◌≡◌, refl, List, [], ◌∷◌, none, some}
use yazpp.Prelude.Int.{ℤ, pos}
use yazpp.Prelude.Text.{codes}
use yazpp.MyServer.{atoi}
use yazpp.Zoom.Calls.{Api, Object, connection, options, returned, Ran}
use yazpp.Zoom.{new_connection}
use yazpp.Zoom.Client.{main, session, show_records}
use yazpp.Zoom.Lifetimes.{Scoped}
use yazpp.Zoom.Exits.{Exits, left_by, main-Scoped}

abbrev library : ℤ → Api ℕ
library code = record {
  options_create = λ w. (w, suc w);
  connection_create = λ o w. (w, suc w);
  connection_connect = λ c host port w. w;
  connection_error = λ c w. (code, some []);
  connection_option_get = λ c key w. none;
  connection_option_set = λ c key val w. w;
  connection_search = λ c q w. (w, suc w);
  query_create = λ w. (w, suc w);
  query_prefix = λ q pqn w. (pos 0, w);
  resultset_option_get = λ rs key w. none;
  resultset_option_set = λ rs key val w. w;
  resultset_size = λ rs w. 1;
  resultset_record = λ rs i w. (some w, w);
  record_get = λ r what w. some (codes "USmarc");
  destroy = λ o w. w;
  matchstr = λ s t. pos 1;
  diag_str = λ code. codes "Unknown";
  strerror_r = λ code. none;
  decimal = λ n. codes "1";
}

abbrev run : ℤ → Ran ℕ ℕ
run code = main (library code) (codes "zclient") (codes "host" ∷ codes "210" ∷ [] ∷ [] ∷ []) 0

-- The record is shown; without a connection, the code is that of a `bib1Exception`.
found_one : (run (pos 0)).outcome ≡ returned 0
unfolding main session show_records atoi new_connection
found_one = refl

refused : (run (pos 100)).outcome ≡ returned 2
unfolding main session atoi new_connection
refused = refl

left_over :
    left_by (library (pos 100)) (codes "host") (some (pos 210)) 0 ≡ connection 1 ∷ options 0 ∷ []
left_over = refl

main-Scoped_example :
    (t : List Object) × Scoped (run (pos 0)).events [] t
    × Exits
        (library (pos 0))
        (atoi (codes "210"))
        (run (pos 0)).outcome
        t
        (left_by (library (pos 0)) (codes "host") (atoi (codes "210")) 0)
main-Scoped_example =
    main-Scoped (library (pos 0)) (codes "zclient") (codes "host") (codes "210") [] [] 0
