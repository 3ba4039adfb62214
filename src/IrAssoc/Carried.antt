-- ===== src/IrAssoc/Carried.antt =====
-- src/yaz-ir-assoc.cpp and src/yaz-z-assoc.cpp: what the package of a search request carries.
use yazpp.Prelude.{
  ℕ, ◌≡◌, ◌≢◌, refl, ap, ◌∙◌, List, [], ◌∷◌, Option, none, some, length, All, arith,
}
use yazpp.Prelude.Int.{negsuc}
use yazpp.Apdu.{Octets}
use yazpp.PduAssoc.State.{Assoc}
use yazpp.PduAssoc.Output.{Answer, send_pdu}
use yazpp.ZAssoc.{Codec, reference_id_of, encode_gdu, send_gdu}
use yazpp.IrAssoc.{Session, client, set_database_names, get_preferred_record_syntax}
use yazpp.IrAssoc.Names.{Name, join_names, client-names}
use yazpp.IrAssoc.Requests.{
  Yaz, Pdu, searches, with_reference_id, syntax_of, search_pdu, send_search_request,
}

-- The session keeps its record syntax when it is given an address.
client-syntax :
    (yaz : Yaz) (dbpart : Option Octets) (addr : Octets) (s : Session)
    → syntax_of yaz (client dbpart addr s).0 ≡ syntax_of yaz s
unfolding client syntax_of get_preferred_record_syntax set_database_names
client-syntax yaz none addr s = refl
client-syntax yaz (some []) addr s = refl
client-syntax yaz (some (b ∷ part)) addr s = refl

module _ {ℓ} {Q : Type ℓ} (yaz : Yaz) (codec : Codec (Pdu Q)) where
  encode_gdu-some :
      (g : Pdu Q) (b : ℕ) (buf : Octets)
      → codec.encode g ≡ some (b ∷ buf)
      → encode_gdu codec g ≡ some (b ∷ buf)
  unfolding encode_gdu
  encode_gdu-some g b buf e = ground arith

  pub send_gdu-encoded :
      (answer : Answer) (g : Pdu Q) (b : ℕ) (buf : Octets) (a : Assoc)
      → codec.encode g ≡ some (b ∷ buf)
      → send_gdu codec answer g a ≡ (send_pdu answer (b ∷ buf) a, some (length (b ∷ buf)))
  unfolding send_gdu
  send_gdu-encoded answer g b buf a e = rw (encode_gdu-some g b buf e)

  -- A client is given an address with database names, joined by `+`, and sends a search request for
  -- a query with a reference id. If the codec encodes the request, and decodes what it encodes, then
  -- what is sent is a package that carries this query, these names, the session's record syntax, the
  -- result set and the reference id; without a query nothing is sent, and the result is -1.
  pub send_search_request-client :
      (names : List Octets) (addr part : Octets) (s : Session)
      → part ≡ join_names 43 names
      → part ≢ []
      → All (Name (43 ∷ 32 ∷ [])) names
      → (query : Q) (set : Option Octets) (id : Octets) (answer : Answer) (a : Assoc) (b : ℕ)
        (buf : Octets)
      → codec.encode (search_pdu yaz query set (some id) (client (some part) addr s).0)
        ≡ some (b ∷ buf)
      → codec.decode (b ∷ buf)
        ≡ some (search_pdu yaz query set (some id) (client (some part) addr s).0)
      → (send_search_request yaz codec
            (some query)
            set
            (some id)
            (client (some part) addr s).0
            answer
            a
          ≡ (send_pdu answer (b ∷ buf) a, some (length (b ∷ buf))))
        × ((out : Pdu Q) × (codec.decode (b ∷ buf) ≡ some out)
            × (out.body ≡ searches query names (syntax_of yaz s) set)
            × (out.apdu.reference_id ≡ some id))
        × (send_search_request yaz codec none set (some id) (client (some part) addr s).0 answer a
            ≡ ((a, [], negsuc 0), none))
  unfolding send_search_request search_pdu with_reference_id reference_id_of
  send_search_request-client names addr part s e ne h query set id answer a b buf enc dec =
      let s' = (client (some part) addr s).0 in
      let named = (client-names names addr part s e ne h).0 in
      (
        send_gdu-encoded answer (search_pdu yaz query set (some id) s') b buf a enc,
        (
          search_pdu yaz query set (some id) s',
          dec,
          ap (λ ns. searches query ns (syntax_of yaz s') set) named
              ∙ ap (λ o. searches query names o set) (client-syntax yaz (some part) addr s),
          refl,
        ),
        refl,
      )
