-- ===== src/MarcSample.antt =====
-- src/yaz-marc-sample.cpp: the records of the sample server. First, Second and Third hold them, and
-- Format says what a MARC record is.
mod First
mod Second
mod Third
pub mod Format
use yazpp.Prelude.{
  ℕ, ◌-◌, ◌&&◌, List, [], ◌∷◌, map, Option, none, if◌then◌else◌, leb, length, get_elem?,
}
use yazpp.Prelude.Text.{texts}
use yazpp.MarcSample.First.{
  record_one, record_two, record_three, record_four, record_five, record_six, record_seven,
  record_eight,
}
use yazpp.MarcSample.Second.{
  record_nine, record_ten, record_eleven, record_twelve, record_thirteen, record_fourteen,
  record_fifteen, record_sixteen,
}
use yazpp.MarcSample.Third.{
  record_seventeen, record_eighteen, record_nineteen, record_twenty, record_twenty_one,
  record_twenty_two, record_twenty_three,
}

-- `marc_records`.
unfoldable pub marc_records : List (List ℕ)
marc_records = map texts (
    record_one ∷ record_two ∷ record_three ∷ record_four ∷ record_five ∷ record_six ∷ record_seven
    ∷ record_eight ∷ record_nine ∷ record_ten ∷ record_eleven ∷ record_twelve ∷ record_thirteen
    ∷ record_fourteen ∷ record_fifteen ∷ record_sixteen ∷ record_seventeen ∷ record_eighteen
    ∷ record_nineteen ∷ record_twenty ∷ record_twenty_one ∷ record_twenty_two ∷ record_twenty_three
    ∷ [])

-- `Yaz_USMARC::get_record`; `none` is a null pointer.
unfoldable pub get_record : ℕ → Option (List ℕ)
unfolding marc_records
get_record position =
    if leb 1 position && leb position (length marc_records)
    then get_elem? marc_records (position - 1)
    else none
