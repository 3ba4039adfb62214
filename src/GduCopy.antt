-- ===== src/GduCopy.antt =====
-- src/gdu.cpp: a GDU in a memory of its own, copied by encoding and decoding it. The codec of ODR
-- is a parameter.
use yazpp.Prelude.{ℕ, ◌≡◌, refl, Option, none, some, length}
use yazpp.PduAssoc.State.{Packet}
use yazpp.ZAssoc.{Codec}

module _ {ℓ} {G : Type ℓ} (codec : Codec G) where
  abbrev pub decoded : Option Packet → Option G
  decoded none = none
  decoded (some buf) = codec.decode buf

  -- `base`: `m_gdu`, null if there is no GDU or it cannot be copied. The constructors call it.
  unfoldable pub base : Option G → Option G
  base none = none
  base (some g) = decoded (codec.encode g)

  -- `operator=`, of a GDU that is not the same object.
  unfoldable pub assign : Option G → Option G → Option G
  assign other old = base other

  abbrev pub size_of : Option Packet → ℕ
  size_of none = 0
  size_of (some buf) = length buf

  unfoldable pub get_size : Option G → ℕ
  get_size none = 0
  get_size (some g) = size_of (codec.encode g)

  -- `move_away_gdu`, with what `*gdu` becomes.
  unfoldable pub move_away_gdu : Option G → Option G × Option G
  move_away_gdu gdu = (none, gdu)

  -- A copy of a GDU that the codec keeps is that GDU, and as long as it.
  base-kept :
      (g : G) (buf : Packet)
      → codec.encode g ≡ some buf
      → codec.decode buf ≡ some g
      → (base (some g) ≡ some g) × (get_size (base (some g)) ≡ length buf)
  unfolding base get_size
  base-kept g buf e d = rw (e, d) (refl, rw e refl)
