-- ===== src/ZQuery.antt =====
-- src/yaz-z-query.cpp: a query, kept in its encoding. YAZ's parser, coder and printer of queries
-- are a parameter, and so is the type of queries.
pub mod Reading
pub mod Printing
use Prim.Native.String.{String}
use yazpp.Prelude.{
  ℕ, zero, suc, ◌-◌, ◌+◌, ◌^◌, Bool, true, false, ◌&&◌, List, [], ◌∷◌, ◌++◌, Option, none, some,
  if◌then◌else◌, length, take, ltb, ◌==◌,
}
use yazpp.Prelude.Int.{ℤ, pos, negsuc}
use yazpp.Apdu.{Octets}

-- `p_query_rpn`, `z_Query` to encode and to decode, and `yaz_query_to_wrbuf`.
pub record Yaz {ℓ} (Q : Type ℓ) : Type ℓ where
  pub parse : String → Option Q
  pub encode : Q → Option Octets
  pub decode : Octets → Option Q
  pub print : Q → Octets

-- `Rep`; a null `buf` is `none`.
pub record ZQuery : Type 0 where
  pub buf : Option Octets
  pub len : ℕ

unfoldable pub new_query : ZQuery
new_query = record { buf = none; len = 0 }

-- The copy constructor, by the two members: `none` where `memcpy` reads through a null pointer. An empty copy has a
-- buffer.
abbrev pub copied : Option Octets → ℕ → Option ZQuery
copied none zero = some (record { buf = some []; len = 0 })
copied none (suc n) = none
copied (some bytes) n = some (record { buf = some (take n bytes); len = n })

unfoldable pub copy : ZQuery → Option ZQuery
copy q = copied q.buf q.len

-- `operator=`, of a query that is not the same object.
abbrev pub assigned : Option Octets → ℕ → ZQuery
assigned none n = record { buf = none; len = 0 }
assigned (some bytes) n = record { buf = some (take n bytes); len = n }

unfoldable pub assign : ZQuery → ZQuery
assign q = assigned q.buf q.len

-- What `odr_getbuf` gives, if the query could be encoded.
abbrev pub encoded_as : Option Octets → ZQuery → ZQuery
encoded_as none q = record q { buf = none }
encoded_as (some bytes) q = record { buf = some bytes; len = length bytes }

-- The bytes before the first that is 0.
abbrev pub c_string : Octets → Octets
c_string [] = []
c_string (b ∷ bs) = if b == 0 then [] else b ∷ c_string bs

-- From `wrbuf_len` on: what is written to `str`, the first byte once more, if `limit` is `len-1`.
abbrev pub fill : ℕ → Octets → Octets
fill limit text =
    if ltb limit (length text) then take limit text ++ 0 ∷ [] else c_string text ++ 0 ∷ []

-- A `size_t` has 64 bits.
unfoldable pub printed : Octets → ℕ → Octets
printed text size = fill (if size == 0 then 2 ^ 64 - 1 else size - 1) text

-- `match`: `memcmp` looks at `len` bytes.
abbrev pub same_bytes : Octets → Octets → Bool
same_bytes [] [] = true
same_bytes [] (y ∷ ys) = false
same_bytes (x ∷ xs) [] = false
same_bytes (x ∷ xs) (y ∷ ys) = x == y && same_bytes xs ys

unfoldable pub match_buffers : Option Octets → Option Octets → ℕ → Bool
match_buffers none b n = false
match_buffers (some x) none n = false
match_buffers (some x) (some y) n = same_bytes (take n x) (take n y)

unfoldable pub match_query : ZQuery → ZQuery → Bool
match_query q other = if q.len == other.len then match_buffers q.buf other.buf q.len else false

abbrev pub rpn_encoded : Option Octets → ZQuery → ZQuery × ℤ
rpn_encoded none q = (record q { buf = none }, negsuc 0)
rpn_encoded (some bytes) q = (record { buf = some bytes; len = length bytes }, pos (length bytes))

module _ {ℓ} {Q : Type ℓ} (yaz : Yaz Q) where
  unfoldable pub set_z_query : Q → ZQuery → ZQuery
  set_z_query query q = encoded_as (yaz.encode query) q

  abbrev pub parsed_as : Option Q → ZQuery → ZQuery × ℤ
  parsed_as none q = (record q { buf = none }, negsuc 0)
  parsed_as (some query) q = rpn_encoded (yaz.encode query) q

  -- `set_rpn`, with its result; `operator=` of a string calls it.
  unfoldable pub set_rpn : String → ZQuery → ZQuery × ℤ
  set_rpn rpn q = parsed_as (yaz.parse rpn) q

  abbrev pub decoded : Option Octets → ℕ → Option Q
  decoded none n = none
  decoded (some bytes) n = yaz.decode (take n bytes)

  unfoldable pub get_z_query : ZQuery → Option Q
  get_z_query q = decoded q.buf q.len

  -- `print` into a buffer of `size` bytes: the bytes that are written.
  abbrev pub print_decoded : ℕ → Option Q → Octets
  print_decoded size none = 0 ∷ []
  print_decoded size (some query) = printed (yaz.print query) size

  unfoldable pub print_query : ℕ → ZQuery → Octets
  print_query size q = print_decoded size (get_z_query q)
