-- ===== src/Server/Utility.antt =====
-- src/yaz-z-server.cpp: `Z_ServerUtility`, which makes the records and diagnostics of responses.
-- The object identifier of bib-1 and `z_ext_record_oid` are YAZ's, and parameters.
use yazpp.Prelude.{List, [], ◌∷◌, Option, none, some}
use yazpp.Prelude.Int.{ℤ}
use yazpp.Apdu.{Octets}

-- `Z_DefaultDiagFormat` with its `v2Addinfo`.
pub record Diagnostic : Type 0 where
  pub diagnostic_set : Octets
  pub condition : ℤ
  pub addinfo : Octets

-- `Z_NamePlusRecord`; `E` is `Z_External`.
pub data NamedRecord {ℓ} (E : Type ℓ) : Type ℓ where
  database_record : Option Octets → E → NamedRecord E
  surrogate_diagnostic : Option Octets → Diagnostic → NamedRecord E

-- `addinfo ? addinfo : ""`.
abbrev pub addinfo_of : Option Octets → Octets
addinfo_of none = []
addinfo_of (some text) = text

unfoldable pub create_database_record {ℓ} :
    {E : Type ℓ} → (Octets → Octets → E) → Option Octets → Octets → Octets → NamedRecord E
create_database_record ext_record dbname format buf = database_record dbname (ext_record format buf)

-- The three functions that fill in a diagnostic; `bib_1` is the set's identifier.
unfoldable pub create_diagnostic : Octets → ℤ → Option Octets → Diagnostic
create_diagnostic bib_1 error addinfo = record {
  diagnostic_set = bib_1;
  condition = error;
  addinfo = addinfo_of addinfo;
}

unfoldable pub create_surrogate_diagnostics {ℓ} :
    {E : Type ℓ} → Octets → Option Octets → ℤ → Option Octets → NamedRecord E
create_surrogate_diagnostics bib_1 dbname error addinfo =
    surrogate_diagnostic dbname (create_diagnostic bib_1 error addinfo)

unfoldable pub create_diagnostics : Octets → ℤ → Option Octets → List Diagnostic
create_diagnostics bib_1 error addinfo = create_diagnostic bib_1 error addinfo ∷ []
