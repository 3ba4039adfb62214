-- ===== src/MyClient/Options.antt =====
-- src/yaz-my-client.cpp: the command line, and the program. What `options` reads is a list of its
-- results.
use mathlib.Core.Option
use yazpp.Prelude.{
  ℕ, suc, ◌+◌, ◌≡◌, refl, ◌∙◌, Bool, true, false, ◌||◌, List, [], ◌∷◌, ◌++◌, Option, none, some,
  is_none, ltb, arith,
}
use yazpp.Apdu.{Octets}
use yazpp.PduAssoc.State.{Assoc}
use yazpp.ZAssoc.{Codec}
use yazpp.IrAssoc.{set_cookie, set_proxy}
use yazpp.IrAssoc.Requests.{Yaz, Pdu}
use yazpp.MyClient.{Client, new_client}
use yazpp.MyClient.Display.{Output}
use yazpp.MyClient.Commands.{Scene, cmd_open, interactive}

-- A result of `options`: an argument, -p, -c, -v with theirs, -q, or one that is not known.
pub data Given : Type 0 where
  host proxy cookie level : Octets → Given
  quiet unknown : Given

-- One round of the loop over the options: the host so far and the client; `none` where `usage`
-- ends the program. The variable `proxy` that the branch of -p tests is never set.
unfoldable pub read_option : Given → Option Octets × Client → Option (Option Octets × Client)
read_option (host h) (none, c) = some (some h, c)
read_option (host h) (some h', c) = none
read_option (proxy p) (h, c) = some (h, record c { ir = set_proxy (some p) c.ir })
read_option (cookie k) (h, c) = some (h, record c { ir = set_cookie (some k) c.ir })
read_option (level l) (h, c) = some (h, c)
read_option quiet (h, c) = some (h, record c { interactive_flag = false })
read_option unknown (h, c) = none

unfoldable pub read_options : List Given → Option Octets × Client → Option (Option Octets × Client)
unfolding read_option
read_options [] s = some s
read_options (g ∷ gs) s = elim (read_option g s) [ none ↦ none | some s' ↦ read_options gs s' ]

module _ {ℓ} {Q : Type ℓ} (this : ℕ) (is_iso2709 : Option Octets → Bool) (parse : Octets → Option Q)
    (yaz : Yaz) (codec : Codec (Pdu Q)) where
  -- After the loop: the host is opened as by the command `open`.
  abbrev opened : Scene → Option Octets × Client → Client × List Output
  opened scene (none, c) = (c, [])
  opened scene (some h, c) =
      let (c', out, more) = cmd_open this is_iso2709 parse yaz codec h scene c in (c', out)

  -- `args`.
  unfoldable pub args : List Given → Scene → Client → Option (Client × List Output)
  unfolding read_options
  args gs scene c = Option.map (opened scene) (read_options gs (none, c))

  abbrev typed : List (Octets × Scene) → Client × List Output → Client × List Output
  typed lines (c, out) =
      let (c', out') = interactive this is_iso2709 parse yaz codec lines c in (c', out ++ out')

  -- `main`; `none` where it exits with 1.
  unfoldable pub main :
      List Given → Scene → List (Octets × Scene) → Assoc → Option (Client × List Output)
  unfolding args interactive new_client
  main gs scene lines a = Option.map (typed lines) (args gs scene (new_client a))

-- Arguments that are hosts, and options that are not known.
abbrev pub hosts : List Given → ℕ
hosts [] = 0
hosts (host h ∷ gs) = suc (hosts gs)
hosts (g ∷ gs) = hosts gs

abbrev pub has_unknown : List Given → Bool
has_unknown [] = false
has_unknown (unknown ∷ gs) = true
has_unknown (g ∷ gs) = has_unknown gs

abbrev hosts_of : Option Octets → ℕ
hosts_of none = 0
hosts_of (some h) = 1

read_options-usage :
    (gs : List Given) (h : Option Octets) (c : Client)
    → is_none (read_options gs (h, c)) ≡ (has_unknown gs || ltb 1 (hosts_of h + hosts gs))
unfolding read_options read_option
read_options-usage [] none c = refl
read_options-usage [] (some y) c = refl
read_options-usage (host x ∷ gs) none c = ground (arith, read_options-usage gs (some x) c)
read_options-usage (host x ∷ gs) (some y) c = ground arith
read_options-usage (proxy p ∷ gs) h c = read_options-usage gs h _
read_options-usage (cookie k ∷ gs) h c = read_options-usage gs h _
read_options-usage (level l ∷ gs) h c = read_options-usage gs h c
read_options-usage (quiet ∷ gs) h c = read_options-usage gs h _
read_options-usage (unknown ∷ gs) h c = refl

is_none-map {ℓ κ} :
    {A : Type ℓ} {B : Type κ} (f : A → B) (o : Option A) → is_none (Option.map f o) ≡ is_none o
is_none-map f none = refl
is_none-map f (some a) = refl

-- The program ends by `usage` exactly if there is an option that is not known or more than one
-- host, however often a proxy is given and whatever happens on the connection.
pub main-usage {ℓ} :
    {Q : Type ℓ} (this : ℕ) (is_iso2709 : Option Octets → Bool) (parse : Octets → Option Q)
    (yaz : Yaz) (codec : Codec (Pdu Q)) (gs : List Given) (scene : Scene)
    (lines : List (Octets × Scene)) (a : Assoc)
    → is_none (main this is_iso2709 parse yaz codec gs scene lines a)
      ≡ (has_unknown gs || ltb 1 (hosts gs))
unfolding main args
main-usage this is_iso2709 parse yaz codec gs scene lines a =
    is_none-map _ (args this is_iso2709 parse yaz codec gs scene (new_client a))
    ∙ is_none-map _ (read_options gs (none, new_client a))
    ∙ ground (arith, read_options-usage gs none (new_client a))
