-- ===== src/Zoom.antt =====
-- zoom/zexcept.cpp, zoom/zconn.cpp, zoom/zquery.cpp, zoom/zrs.cpp and
-- zoom/zrec.cpp: exceptions, connections, queries, result sets and records over ZOOM-C.
pub mod Calls
pub mod Client
pub mod Lifetimes
pub mod Exits
pub mod Released
use yazpp.Prelude.{ℕ, Bool, true, false, List, [], ◌∷◌, ◌++◌, Option, none, some, if◌then◌else◌}
use yazpp.Prelude.Int.{ℤ, pos, negsuc, ◌==ℤ◌}
use yazpp.Prelude.Text.{codes}
use yazpp.Apdu.{Octets}
use yazpp.Zoom.Calls.{
  Exception, system, bib1, bad_query, text, options, connection, query, result_set, NoValue, Action,
  Api, throw, pure, call, update, read, create, as_string, ◌>>=◌, ◌>>◌, destroy_object,
}

-- `record::syntax::value`.
pub data Syntax : Type 0 where
  unknown grs1 sutrs usmarc ukmarc xml : Syntax

-- `record::syntax::operator std::string`.
abbrev pub syntax_name : Syntax → Octets
syntax_name grs1 = codes "grs1"
syntax_name sutrs = codes "sutrs"
syntax_name usmarc = codes "usmarc"
syntax_name ukmarc = codes "ukmarc"
syntax_name xml = codes "xml"
syntax_name unknown = codes "unknown"

-- `queryException::PREFIX` and `queryException::CCL`.
abbrev pub prefix_type : ℤ
prefix_type = pos 0

abbrev pub ccl_type : ℤ
ccl_type = pos 1

abbrev ccl_text : Octets
ccl_text = codes "Oops.  No CCL support in ZOOM-C yet.  Sorry."

pub record Record : Type 0 where
  pub owner : ℕ
  pub r : ℕ

-- `errcode`, and `addinfo` of the two kinds of exception that have one.
abbrev pub errcode : Exception → Option ℤ
errcode (system code) = some code
errcode (bib1 code info) = some code
errcode (bad_query code source) = some code
errcode (text t) = none

abbrev pub addinfo : Exception → Option Octets
addinfo (bib1 code info) = some info
addinfo (bad_query code source) = some source
addinfo _ = none

module _ {W : Type 0} (api : Api W) where
  -- `errmsg`: that of the base class, and of each kind of exception.
  abbrev base_errmsg : ℤ → Octets
  base_errmsg code = codes "error #" ++ api.decimal code

  abbrev system_errmsg : ℤ → Option Octets → Octets
  system_errmsg code (some result) = result
  system_errmsg code none = base_errmsg code

  abbrev query_errmsg : ℤ → Octets
  query_errmsg code =
      if code ==ℤ prefix_type
      then codes "bad prefix search"
      else (if code ==ℤ ccl_type then codes "bad CCL search" else codes "bad search (unknown type)")

  -- A text that is thrown is not an object with an `errmsg`.
  unfoldable pub errmsg : Exception → Option Octets
  errmsg (system code) = some (system_errmsg code (api.strerror_r code))
  errmsg (bib1 code info) = some (api.diag_str code)
  errmsg (bad_query code source) = some (query_errmsg code)
  errmsg (text t) = none

  -- A `bib1Exception` if the connection has an error.
  abbrev pub throw_bib1 : ℤ × Option Octets → Action W NoValue
  throw_bib1 (code, addinfo) = do info ← as_string addinfo; throw (bib1 code info)

  abbrev pub check_error : ℤ × Option Octets → Action W NoValue
  check_error (code, addinfo) = if code ==ℤ pos 0 then pure tt else throw_bib1 (code, addinfo)

  -- `connection::connect`.
  unfoldable pub connect : ℕ → Octets → ℤ → Action W NoValue
  connect c hostname portnum = do
    update (connection c) (api.connection_connect c hostname portnum)
    e ← read (connection c) (api.connection_error c)
    check_error e

  -- `connection::connection()`.
  abbrev pub unconnected : Action W ℕ
  unconnected = do
    o ← create options api.options_create
    create connection (api.connection_create o)

  -- `connection::connection(hostname, portnum)`.
  unfoldable pub new_connection : Octets → ℤ → Action W ℕ
  unfolding connect
  new_connection hostname portnum = do c ← unconnected; connect c hostname portnum; pure c

  abbrev value_or_empty : Option Octets → Octets
  value_or_empty none = []
  value_or_empty (some val) = val

  -- The two functions `connection::option`.
  unfoldable pub connection_option : ℕ → Octets → Action W Octets
  connection_option c key = do
    val ← read (connection c) (api.connection_option_get c key)
    pure (value_or_empty val)

  unfoldable pub set_connection_option : ℕ → Octets → Octets → Action W Bool
  set_connection_option c key val = do
    update (connection c) (api.connection_option_set c key val)
    pure true

  -- `query::query` with `prefixQuery::prefixQuery`; the base class's destructor runs when it throws.
  abbrev checked_prefix : ℕ → Octets → ℤ → Action W ℕ
  checked_prefix q pqn res =
      if res ==ℤ negsuc 0
      then (do destroy_object api (query q); throw (bad_query prefix_type pqn))
      else pure q

  unfoldable pub prefix_query : Octets → Action W ℕ
  prefix_query pqn = do
    q ← create query api.query_create
    res ← call (query q) (api.query_prefix q pqn)
    checked_prefix q pqn res

  -- `CCLQuery::CCLQuery`.
  unfoldable pub ccl_query : Octets → Action W ℕ
  ccl_query ccl = do
    q ← create query api.query_create
    destroy_object api (query q)
    throw (text ccl_text)

  -- `resultSet::resultSet`; the destructor does not run when it throws.
  abbrev checked_search : ℕ → ℤ × Option Octets → Action W ℕ
  checked_search rs (code, addinfo) =
      if code ==ℤ pos 0
      then pure rs
      else (do destroy_object api (result_set rs); throw_bib1 (code, addinfo); pure rs)

  abbrev search : ℕ → ℕ → Action W ℕ
  search c q = do
    update (query q) (λ w. w)
    update (connection c) (λ w. w)
    create result_set (api.connection_search c q)

  unfoldable pub new_result_set : ℕ → ℕ → Action W ℕ
  new_result_set c q = do
    rs ← search c q
    e ← read (connection c) (api.connection_error c)
    checked_search rs e

  -- The two functions `resultSet::option`, and `resultSet::size`.
  unfoldable pub result_set_option : ℕ → Octets → Action W Octets
  result_set_option rs key = do
    val ← read (result_set rs) (api.resultset_option_get rs key)
    as_string val

  unfoldable pub set_result_set_option : ℕ → Octets → Octets → Action W Bool
  set_result_set_option rs key val = do
    update (result_set rs) (api.resultset_option_set rs key val)
    pure true

  abbrev pub size : ℕ → Action W ℕ
  size rs = read (result_set rs) (api.resultset_size rs)

  -- `record::record`: a result set's connection has the error of a record that is not there.
  abbrev found_record : ℕ → ℕ → Option ℕ → Action W Record
  found_record c rs none = do
    e ← read (connection c) (api.connection_error c)
    throw_bib1 e
    pure (record { owner = rs; r = 0 })
  found_record c rs (some r) = pure (record { owner = rs; r = r })

  unfoldable pub new_record : ℕ → ℕ → ℕ → Action W Record
  new_record c rs i = do r ← call (result_set rs) (api.resultset_record rs i); found_record c rs r

  abbrev pub get : Record → Octets → Action W Octets
  get rec what = do val ← read (result_set rec.owner) (api.record_get rec.r what); as_string val

  -- `!yaz_matchstr(syn, name)`.
  abbrev is_named : Octets → Octets → Bool
  is_named syn name = api.matchstr syn name ==ℤ pos 0

  unfoldable pub syntax_of : Octets → Syntax
  syntax_of syn =
      if is_named syn (codes "xml")
      then xml
      else (if is_named syn (codes "GRS-1")
          then grs1
          else (if is_named syn (codes "SUTRS")
              then sutrs
              else (if is_named syn (codes "USmarc")
                  then usmarc
                  else (if is_named syn (codes "UKmarc")
                      then ukmarc
                      else (if is_named syn (codes "XML")
                          then xml
                          else (if is_named syn (codes "text-XML")
                              then xml
                              else (if is_named syn (codes "application-XML")
                                  then xml
                                  else unknown)))))))

  -- `record::recsyn`, `record::render` and `record::rawdata`.
  unfoldable pub recsyn : Record → Action W Syntax
  recsyn rec = do syn ← get rec (codes "syntax"); pure (syntax_of syn)

  unfoldable pub render : Record → Action W Octets
  render rec = get rec (codes "render")

  unfoldable pub rawdata : Record → Action W Octets
  rawdata rec = get rec (codes "raw")
