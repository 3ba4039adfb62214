-- ===== src/ZAssoc/Delivery.antt =====
-- src/yaz-z-assoc.cpp: GDUs that go over an association, and those that come.
use mathlib.Core.List.{map-append, append-nil}
use yazpp.Prelude.{
  ℕ, false, ◌≡◌, refl, sym, ap, ◌∙◌, List, [], ◌∷◌, ◌++◌, Option, none, some, map, is_some, length,
  arith, if◌then◌else◌, Bool-cases, ◌⊎◌, inl, inr,
}
use yazpp.Prelude.Int.{ℤ}
use yazpp.Mask.{Mask}
use yazpp.PduAssoc.State.{Packet, Assoc, Call, fail}
use yazpp.PduAssoc.Output.{Answer, send_pdu, flush_pdu}
use yazpp.PduAssoc.Notify.{Net, socket_notify}
use yazpp.PduAssoc.Safety.{WellFormed, Good, fail-Good}
use yazpp.PduAssoc.Events.{GoodOutcome, GoodResult, Cooperates, socket_notify-Good}
use yazpp.PduAssoc.Sending.{completed}
use yazpp.PduAssoc.Stream.{Output, output_step, sends, writable, run_output, run_output-Kept}
use yazpp.ZAssoc.{Codec, encode_gdu, send_encoded, send_gdu, recv_pdu, recv_decoded, observer_of}

-- What may happen on the writing side: a `send_GDU` call, or a socket that can be written.
pub data Sending {ℓ} (G : Type ℓ) : Type ℓ where
  gdu : G → Answer → Sending G
  ready_again : Answer → Sending G

-- What becomes of a GDU, by its package.
abbrev pub taken_from {ℓ} : {G : Type ℓ} → Option Packet → G → Assoc → List G
taken_from none g a = []
taken_from (some buf) g a = if is_some a.cs then g ∷ [] else []

abbrev pub package_from : Option Packet → Answer → List Output → List Output
package_from none answer rest = rest
package_from (some buf) answer rest = sends buf answer ∷ rest

module _ {ℓ} {G : Type ℓ} (codec : Codec G) where
  pub sending_step : Sending G → Assoc → Assoc × List Call × ℤ
  sending_step (gdu g answer) a = (send_gdu codec answer g a).0
  sending_step (ready_again answer) a = flush_pdu answer a

  -- The GDUs that a step adds: one that is encoded while there is a connection.
  abbrev pub taken_gdus : Sending G → Assoc → List G
  taken_gdus (gdu g answer) a = taken_from (encode_gdu codec g) g a
  taken_gdus (ready_again answer) a = []

  -- The association after some steps, the calls, and the GDUs that were taken.
  pub run_sending : List (Sending G) → Assoc → Assoc × List Call × List G
  run_sending [] a = (a, [], [])
  run_sending (x ∷ xs) a =
      let (b, calls, r) = sending_step x a in
      let (c, more, taken) = run_sending xs b in (c, calls ++ more, taken_gdus x a ++ taken)

  -- The same steps as steps of packages; a GDU that is not encoded makes none.
  abbrev packages_of : List (Sending G) → List Output
  packages_of [] = []
  packages_of (gdu g answer ∷ xs) = package_from (encode_gdu codec g) answer (packages_of xs)
  packages_of (ready_again answer ∷ xs) = writable answer ∷ packages_of xs

  decode-encode_gdu :
      ((g : G) (buf : Packet) → codec.encode g ≡ some buf → codec.decode buf ≡ some g)
      → (g : G) (buf : Packet) → encode_gdu codec g ≡ some buf
      → codec.decode buf ≡ some g
  unfolding encode_gdu
  decode-encode_gdu lossless g buf e = by_package (codec.encode g) refl
    where
      by_package : (o : Option Packet) → codec.encode g ≡ o → codec.decode buf ≡ some g
      by_package none f = ground arith
      by_package (some []) f = ground arith
      by_package (some (c ∷ cs)) f = ground (arith, lossless g (c ∷ cs) f)

  -- Two runs make the same calls, and the packages that the one accepts are the GDUs of the other.
  abbrev SameRun : Assoc × List Call × List G → Assoc × List Call × List Packet → Type ℓ
  SameRun (a, calls, gs) (b, calls', bufs) =
      (a ≡ b) × (calls ≡ calls') × (map codec.decode bufs ≡ map some gs)

  gdu_case :
      (o : Option Packet) (g : G) (answer : Answer) (xs : List (Sending G)) (a : Assoc)
      → ((buf : Packet) → o ≡ some buf → codec.decode buf ≡ some g)
      → ((b : Assoc) → SameRun (run_sending xs b) (run_output (packages_of xs) b))
      → let (b, calls, r) = (send_encoded answer o a).0 in
        let (c, more, taken) = run_sending xs b in
        SameRun
          (c, calls ++ more, taken_from o g a ++ taken)
          (run_output (package_from o answer (packages_of xs)) a)
  unfolding run_output output_step
  gdu_case none g answer xs a known ih = ih a
  gdu_case (some buf) g answer xs a known ih =
      let (same, calls, taken) = ih (send_pdu answer buf a).0 in
      (
        same,
        ap (λ l. (send_pdu answer buf a).1 ++ l) calls,
        elim (Bool-cases (is_some a.cs)) [
          | inl up ↦ rw (up, known buf refl, taken) refl
          | inr down ↦ rw down taken
        ],
      )

  run_sending-run_output :
      ((g : G) (buf : Packet) → codec.encode g ≡ some buf → codec.decode buf ≡ some g)
      → (xs : List (Sending G)) (a : Assoc)
      → SameRun (run_sending xs a) (run_output (packages_of xs) a)
  unfolding run_sending run_output sending_step output_step send_gdu
  run_sending-run_output lossless [] a = (refl, refl, refl)
  run_sending-run_output lossless (ready_again answer ∷ xs) a =
      let (same, calls, taken) = run_sending-run_output lossless xs (flush_pdu answer a).0 in
      (same, ap (λ l. (flush_pdu answer a).1 ++ l) calls, taken)
  run_sending-run_output lossless (gdu g answer ∷ xs) a =
      gdu_case (encode_gdu codec g) g answer xs a (decode-encode_gdu lossless g)
        (run_sending-run_output lossless xs)

  -- Whatever is sent, and however the sockets answer, on an association with nothing queued: what
  -- the other side decodes from the packages that were written whole are GDUs that were sent, each
  -- once and in their order, and the rest of those that were taken comes after them; while the
  -- connection is there that rest is what is queued. The decoder gives back what the encoder was
  -- given.
  pub decoded_in_order :
      (xs : List (Sending G)) (a : Assoc)
      → ((g : G) (buf : Packet) → codec.encode g ≡ some buf → codec.decode buf ≡ some g)
      → a.queue_out ≡ []
      → let (b, calls, taken) = run_sending xs a in
        (rest : List (Option G)) × (map codec.decode (completed calls) ++ rest ≡ map some taken)
        × ((is_some b.cs ≡ false) ⊎ (rest ≡ map codec.decode b.queue_out))
  decoded_in_order xs a lossless empty =
      let (same, calls, taken) = run_sending-run_output lossless xs a in
      let kept = run_output-Kept (packages_of xs) a in
      let (b, out, bufs) = run_output (packages_of xs) a in
      let after = b.queue_out ++ kept.dropped in
      let all : completed out ++ after ≡ bufs = kept.balance ∙ ap (λ q. q ++ bufs) empty in
      (
        map codec.decode after,
        rw calls (
            sym (map-append codec.decode (completed out) after)
            ∙ ap (map codec.decode) all
            ∙ taken),
        rw same (elim (Bool-cases (is_some b.cs)) [
          | inl up ↦ inr (rw (kept.open_keeps up, append-nil) refl)
          | inr down ↦ inl down
        ]),
      )

  -- The object is an observer that keeps its association well formed, if the subclass does: a
  -- package that cannot be decoded shuts the association down.
  observer_of-Cooperates :
      (recv_gdu : G → ℕ → Assoc → Option Assoc × List Call) (connected : Assoc → Assoc × List Call)
      → ((g : G) (len : ℕ) (a : Assoc) → WellFormed a → GoodOutcome (recv_gdu g len a))
      → ((a : Assoc) → WellFormed a → Good (connected a).0 (connected a).1)
      → Cooperates (observer_of codec recv_gdu connected)
  unfolding recv_pdu fail
  observer_of-Cooperates recv_gdu connected recv_ok connected_ok = record {
    recv_ok = by_package;
    connected_ok = connected_ok;
  }
    where
      by_gdu :
          (o : Option G) (buf : Packet) (a : Assoc)
          → WellFormed a
          → GoodOutcome (recv_decoded recv_gdu o buf a)
      by_gdu none buf a v = fail-Good a
      by_gdu (some g) buf a v = recv_ok g (length buf) a v

      by_package :
          (buf : Packet) (a : Assoc) → WellFormed a → GoodOutcome (recv_pdu codec recv_gdu buf a)
      by_package buf a v = by_gdu (codec.decode buf) buf a v

  -- Every event keeps the association of a Z association well formed, or destroys it, and no call
  -- that is made reads a null connection, whatever bytes arrive: for a subclass whose code does so.
  pub socket_notify-gdus :
      (recv_gdu : G → ℕ → Assoc → Option Assoc × List Call) (connected : Assoc → Assoc × List Call)
      (net : Net) (event : Mask) (a : Assoc)
      → ((g : G) (len : ℕ) (b : Assoc) → WellFormed b → GoodOutcome (recv_gdu g len b))
      → ((b : Assoc) → WellFormed b → Good (connected b).0 (connected b).1)
      → WellFormed a
      → GoodResult (socket_notify (observer_of codec recv_gdu connected) net event a)
  socket_notify-gdus recv_gdu connected net event a recv_ok connected_ok v =
      socket_notify-Good (observer_of codec recv_gdu connected)
        (observer_of-Cooperates recv_gdu connected recv_ok connected_ok) net event a v
