-- ===== src/MyClient/Display.antt =====
-- src/yaz-my-client.cpp: the records of a response, and what is printed of them.
use yazpp.Prelude.{Bool, List, [], ◌∷◌, ◌++◌, Option, none, some, if◌then◌else◌, length}
use yazpp.Prelude.Int.{ℤ, pos, ◌+ℤ◌}
use yazpp.Apdu.{Octets}

-- `Z_DiagRec`: one in the default format, with its condition and its text if it has one, or another.
pub data DiagRec : Type 0 where
  default_format : ℤ → Option Octets → DiagRec
  external_format : DiagRec

-- `Z_External`: what it holds, and the object identifier if it has one.
pub data Representation : Type 0 where
  octet_aligned sutrs : Octets → Representation
  grs1 another : Representation

pub record DatabaseRecord : Type 0 where
  pub direct_reference : Option Octets
  pub body : Representation

-- `Z_NamePlusRecord`.
pub data Item : Type 0 where
  found : Option Octets → DatabaseRecord → Item
  surrogate : Option Octets → DiagRec → Item

-- `Z_Records`.
pub data Records : Type 0 where
  dbosd : List Item → Records
  nsd : ℤ → Option Octets → Records
  multiple_nsd : List DiagRec → Records

-- A line of output, or the display of a record.
pub data Output : Type 0 where
  accepted timed_out closed_by_target bad_query not_connected present_status : Output
  init_status search_status : Bool → Output
  hits : ℤ → Output
  cookie_is database_is : Octets → Output
  diagnostics not_default unknown_record generic : Output
  diagnostic : ℤ → Option Octets → Output
  record_type marc text : Octets → Output
  unknown_command : Octets → Output

-- `recv_diagrecs`: it stops at a diagnostic in another format.
unfoldable pub diag_lines : List DiagRec → List Output
diag_lines [] = []
diag_lines (default_format condition addinfo ∷ ds) = diagnostic condition addinfo ∷ diag_lines ds
diag_lines (external_format ∷ ds) = not_default ∷ []

unfoldable pub recv_diagrecs : List DiagRec → List Output
unfolding diag_lines
recv_diagrecs ds = diagnostics ∷ diag_lines ds

-- `yaz_oid_is_iso2709` is a parameter.
module _ (is_iso2709 : Option Octets → Bool) where
  abbrev pub type_line : Option Octets → List Output
  type_line none = []
  type_line (some oid) = record_type oid ∷ []

  -- The branches on what a record holds; an empty octet string counts as unknown.
  abbrev pub body_line : Option Octets → Representation → Output
  body_line oid (octet_aligned []) = unknown_record
  body_line oid (octet_aligned (c ∷ buf)) =
      if is_iso2709 oid then marc (c ∷ buf) else text (c ∷ buf)
  body_line oid (sutrs buf) = text buf
  body_line oid grs1 = generic
  body_line oid another = unknown_record

  unfoldable pub recv_record : DatabaseRecord → List Output
  recv_record r = type_line r.direct_reference ++ body_line r.direct_reference r.body ∷ []

  abbrev pub name_line : Option Octets → List Output
  name_line none = []
  name_line (some name) = database_is name ∷ []

  unfoldable pub recv_name_plus_record : Item → List Output
  unfolding recv_diagrecs recv_record
  recv_name_plus_record (found name r) = name_line name ++ recv_record r
  recv_name_plus_record (surrogate name d) = name_line name ++ recv_diagrecs (d ∷ [])

  unfoldable pub recv_items : List Item → List Output
  unfolding recv_name_plus_record
  recv_items [] = []
  recv_items (item ∷ items) = recv_name_plus_record item ++ recv_items items

  -- `recv_records`, with `m_setOffset`.
  unfoldable pub recv_records : Option Records → ℤ → ℤ × List Output
  unfolding recv_items
  recv_records none offset = (offset, [])
  recv_records (some (dbosd items)) offset = (offset +ℤ pos (length items), recv_items items)
  recv_records (some (nsd condition addinfo)) offset =
      (offset, recv_diagrecs (default_format condition addinfo ∷ []))
  recv_records (some (multiple_nsd ds)) offset = (offset, recv_diagrecs ds)
