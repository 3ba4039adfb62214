-- ===== src/CqlToRpn/Outcome.antt =====
-- src/yaz-cql2rpn.cpp: when a query is transformed.
use yazpp.Prelude.{
  ◌≡◌, ◌≢◌, refl, Bool, true, false, List, [], ◌∷◌, ◌++◌, Option, none, some, if◌then◌else◌, ap,
  ==_iff, arith,
}
use yazpp.Prelude.Int.{ℤ, pos, negsuc, ◌==ℤ◌}
use yazpp.Apdu.{Octets}
use yazpp.CqlToRpn.{
  Yaz, Info, by_transformer, sort_failed, ended, pqf_parsed, sorted, transformed, parsed,
  query_transform,
}

module _ {ℓ} {T C R : Type ℓ} (yaz : Yaz T C R) where
  -- Each step succeeds, and this is the RPN query that the last one gives.
  pub record Succeeds (t : T) (cql : Octets) (rpn : R) : Type ℓ where
    pub tree : C
    pub info : Octets
    pub pqf : Octets
    pub keys : Octets
    pub is_cql : yaz.parse_cql cql ≡ some tree
    pub is_transformed : yaz.transform t tree ≡ (pos 0, info, pqf)
    pub is_sorted : yaz.sort_keys tree ≡ some keys
    pub is_pqf : yaz.parse_pqf (yaz.with_sort keys pqf) ≡ some rpn

  query_transform-ok :
      (t : T) (cql : Octets) (rpn : R)
      → Succeeds t cql rpn
      → query_transform yaz cql (some t)
        ≡ record { code = pos 0; rpn_query = some (some rpn); addinfo = some none }
  unfolding query_transform
  query_transform-ok t cql rpn h = rw (h.is_cql, h.is_transformed, h.is_sorted, h.is_pqf)

  -- The codes of the failures are not 0.
  pub record Codes : Type 0 where
    pub syntax_ok : yaz.syntax_error ≢ pos 0
    pub sort_ok : yaz.unsupported_sort ≢ pos 0
    pub pqf_ok : yaz.unavailable ≢ pos 0

  pqf_parsed-zero :
      Codes
      → (r : ℤ) (infos : List Info) (pqf : Octets) (o : Option R)
      → (pqf_parsed yaz r infos pqf o).code ≡ pos 0
      → (r ≡ pos 0) × ((rpn : R) × (o ≡ some rpn))
  pqf_parsed-zero codes r infos pqf none e = absurd (codes.pqf_ok e)
  pqf_parsed-zero codes r infos pqf (some rpn) e = (e, (rpn, refl))

  sorted-zero :
      Codes
      → (cql : Octets) (infos : List Info) (pqf : Octets) (o : Option Octets)
      → (sorted yaz cql infos pqf o).code ≡ pos 0
      → (keys : Octets) × (o ≡ some keys)
        × ((rpn : R) × (yaz.parse_pqf (yaz.with_sort keys pqf) ≡ some rpn))
  sorted-zero codes cql infos pqf none e = absurd (
      codes.sort_ok (
        (pqf_parsed-zero codes yaz.unsupported_sort (infos ++ sort_failed cql ∷ []) pqf
          (yaz.parse_pqf pqf) e).0))
  sorted-zero codes cql infos pqf (some keys) e =
      let pqf' = yaz.with_sort keys pqf in
      (keys, refl, (pqf_parsed-zero codes (pos 0) infos pqf' (yaz.parse_pqf pqf') e).1)

  equal_zero : (r : ℤ) → (r ==ℤ pos 0) ≡ true → r ≡ pos 0
  equal_zero (pos n) e = ap pos ((==_iff n 0).0 e)
  equal_zero (negsuc n) e = ground arith

  transformed-zero :
      Codes
      → (cql : Octets) (c : C) (r : ℤ) (infos : List Info) (pqf : Octets)
      → (transformed yaz cql c r infos pqf).code ≡ pos 0
      → (r ≡ pos 0) × ((sorted yaz cql infos pqf (yaz.sort_keys c)).code ≡ pos 0)
  transformed-zero codes cql c r infos pqf e = by_code (r ==ℤ pos 0) refl e
    where
      by_code :
          (b : Bool)
          → (r ==ℤ pos 0) ≡ b
          → (if b then sorted yaz cql infos pqf (yaz.sort_keys c) else ended r none infos).code
            ≡ pos 0
          → (r ≡ pos 0) × ((sorted yaz cql infos pqf (yaz.sort_keys c)).code ≡ pos 0)
      by_code true z e' = (equal_zero r z, e')
      by_code false z e' = ground (arith, z, e')

  parsed-zero :
      Codes
      → (t : T) (cql : Octets) (o : Option C) → yaz.parse_cql cql ≡ o
      → (parsed yaz t cql o).code ≡ pos 0
      → (rpn : R) × Succeeds t cql rpn
  parsed-zero codes t cql none p e = absurd (codes.syntax_ok e)
  parsed-zero codes t cql (some c) p e =
      let (r, info, pqf) = yaz.transform t c in
      let infos = by_transformer info ∷ [] in
      let (z, e') = transformed-zero codes cql c r infos pqf e in
      let (keys, s, (rpn, q)) = sorted-zero codes cql infos pqf (yaz.sort_keys c) e' in
      (
        rpn,
        record {
          tree = c;
          info = info;
          pqf = pqf;
          keys = keys;
          is_cql = p;
          is_transformed = ap (λ n. (n, info, pqf)) z;
          is_sorted = s;
          is_pqf = q;
        },
      )

  -- A query is transformed to RPN with the code 0 exactly if each step succeeds, and then `*rpnquery`
  -- is what the last step gives and `*addinfop` is null, if the codes of the failures are not 0;
  -- without a transform the code is -3, and neither of the two is set.
  pub query_transform-zero :
      Codes
      → (t : T) (cql : Octets)
      → ((rpn : R)
          → Succeeds t cql rpn
          → query_transform yaz cql (some t)
            ≡ record { code = pos 0; rpn_query = some (some rpn); addinfo = some none })
        × ((query_transform yaz cql (some t)).code ≡ pos 0 → (rpn : R) × Succeeds t cql rpn)
        × (query_transform yaz cql none
            ≡ record { code = negsuc 2; rpn_query = none; addinfo = none })
  unfolding query_transform
  query_transform-zero codes t cql =
      (query_transform-ok t cql, parsed-zero codes t cql (yaz.parse_cql cql) refl, refl)
