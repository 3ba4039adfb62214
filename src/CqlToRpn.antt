-- ===== src/CqlToRpn.antt =====
-- src/yaz-cql2rpn.cpp: CQL queries to RPN. The parsers and the transformer of YAZ are a parameter,
-- and so are the types of its transforms, of CQL trees and of RPN queries.
pub mod Outcome
use yazpp.Prelude.{Bool, true, false, List, [], ◌∷◌, ◌++◌, Option, none, some, if◌then◌else◌}
use yazpp.Prelude.Int.{ℤ, pos, negsuc, ◌==ℤ◌}
use yazpp.Apdu.{Octets}

-- What YAZ does. `sort_keys` is none where `cql_sortby_to_sortkeys` fails; `with_sort` is
-- `yaz_srw_sortkeys_to_sort_spec`, `yaz_sort_spec` and `yaz_sort_spec_to_type7`. `rpn2cql` gives a
-- code and what it writes, of additional information and of CQL; it is given the transform untested.
pub record Yaz {ℓ} (T C R : Type ℓ) : Type ℓ where
  pub create : T
  pub open_fname : Octets → Option T
  pub define_fname : Octets → T → T × ℤ
  pub define_pattern : Octets → Octets → T → T × ℤ
  pub parse_cql : Octets → Option C
  pub transform : T → C → ℤ × Octets × Octets
  pub sort_keys : C → Option Octets
  pub with_sort : Octets → Octets → Octets
  pub parse_pqf : Octets → Option R
  pub rpn2cql : Option T → R → ℤ × Octets × Octets
  pub syntax_error : ℤ
  pub unsupported_sort : ℤ
  pub unavailable : ℤ

-- What is written to `addinfo`: by the transformer, or a message about a text.
pub data Info : Type 0 where
  by_transformer cql_failed sort_failed pqf_failed : Octets → Info

-- `wrbuf_len`: only the transformer may write nothing.
abbrev pub has_text : List Info → Bool
has_text [] = false
has_text (by_transformer [] ∷ infos) = has_text infos
has_text (by_transformer (c ∷ cs) ∷ infos) = true
has_text (cql_failed q ∷ infos) = true
has_text (sort_failed q ∷ infos) = true
has_text (pqf_failed q ∷ infos) = true

-- What `query_transform` returns and what it sets: `none` leaves `*rpnquery` or `*addinfop` as it
-- was, and `some none` makes it a null pointer.
pub record Result {ℓ} (R : Type ℓ) : Type ℓ where
  pub code : ℤ
  pub rpn_query : Option (Option R)
  pub addinfo : Option (Option (List Info))

-- The end of the function.
abbrev pub ended {ℓ} : {R : Type ℓ} → ℤ → Option (Option R) → List Info → Result R
ended r rpn infos = record {
  code = r;
  rpn_query = rpn;
  addinfo = some (if r ==ℤ pos 0 then none else if has_text infos then some infos else none);
}

-- What `rpn2cql_transform` returns, appends to the CQL text and sets `*addinfop` to.
pub record CqlResult : Type 0 where
  pub code : ℤ
  pub cql : Octets
  pub addinfo : Option Octets

module _ {ℓ} {T C R : Type ℓ} (yaz : Yaz T C R) where
  abbrev pub or_created : Option T → T
  or_created none = yaz.create
  or_created (some t) = t

  -- The functions that set up the transform.
  unfoldable pub set_pqf_file : Octets → Option T → Option T
  set_pqf_file fname none = yaz.open_fname fname
  set_pqf_file fname (some t) = some t

  unfoldable pub parse_spec_file : Octets → Option T → Option T × ℤ × Bool
  parse_spec_file fname m =
      let (t, error) = yaz.define_fname fname (or_created m) in (some t, error, error ==ℤ pos 0)

  unfoldable pub define_pattern : Octets → Octets → Option T → Option T × ℤ
  define_pattern pattern value m =
      let (t, r) = yaz.define_pattern pattern value (or_created m) in (some t, r)

  -- From `yaz_pqf_parse` on, with what the sorting has made of the code and of `addinfo`.
  abbrev pub pqf_parsed : ℤ → List Info → Octets → Option R → Result R
  pqf_parsed r infos pqf none = ended yaz.unavailable (some none) (infos ++ pqf_failed pqf ∷ [])
  pqf_parsed r infos pqf (some rpn) = ended r (some (some rpn)) infos

  -- The branch of `cql_sortby_to_sortkeys`.
  abbrev pub sorted : Octets → List Info → Octets → Option Octets → Result R
  sorted cql infos pqf none =
      pqf_parsed yaz.unsupported_sort (infos ++ sort_failed cql ∷ []) pqf (yaz.parse_pqf pqf)
  sorted cql infos pqf (some keys) =
      let pqf' = yaz.with_sort keys pqf in pqf_parsed (pos 0) infos pqf' (yaz.parse_pqf pqf')

  -- The branch of `cql_transform_r`.
  abbrev pub transformed : Octets → C → ℤ → List Info → Octets → Result R
  transformed cql c r infos pqf =
      if r ==ℤ pos 0 then sorted cql infos pqf (yaz.sort_keys c) else ended r none infos

  -- The branch of `cql_parser_string`.
  abbrev pub parsed : T → Octets → Option C → Result R
  parsed t cql none = ended yaz.syntax_error none (cql_failed cql ∷ [])
  parsed t cql (some c) =
      let (r, info, pqf) = yaz.transform t c in transformed cql c r (by_transformer info ∷ []) pqf

  unfoldable pub query_transform : Octets → Option T → Result R
  query_transform cql none = record { code = negsuc 2; rpn_query = none; addinfo = none }
  query_transform cql (some t) = parsed t cql (yaz.parse_cql cql)

  abbrev written_info : ℤ → Octets → Option Octets
  written_info r [] = none
  written_info r (c ∷ cs) = if r ==ℤ pos 0 then none else some (c ∷ cs)

  unfoldable pub rpn2cql_transform : R → Octets → Option T → CqlResult
  rpn2cql_transform q cql m =
      let (r, info, written) = yaz.rpn2cql m q in
      record { code = r; cql = cql ++ written; addinfo = written_info r info }
