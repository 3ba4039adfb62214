-- ===== src/Zoom/Calls.antt =====
-- zoom: calls of the ZOOM-C functions of YAZ, the objects that they make, and exceptions. A
-- function of the binding is an action: it returns, throws, or reads a null pointer, and it leaves
-- the library's state and what it did, in order.
use yazpp.Prelude.{List, [], ◌∷◌, ◌++◌, Option, none, some, ℕ}
use yazpp.Prelude.Int.{ℤ}
use yazpp.Apdu.{Octets}

-- `systemException`, `bib1Exception`, `queryException`, and a text that is thrown.
pub data Exception : Type 0 where
  system : ℤ → Exception
  bib1 : ℤ → Octets → Exception
  bad_query : ℤ → Octets → Exception
  text : Octets → Exception

-- What YAZ makes for the binding; a number stands for the pointer.
pub data Object : Type 0 where
  options connection query result_set : ℕ → Object

pub data Event : Type 0 where
  created used destroyed : Object → Event
  out err : Octets → Event

pub data Outcome {ℓ} (A : Type ℓ) : Type ℓ where
  returned : A → Outcome A
  threw : Exception → Outcome A
  undefined : Outcome A

pub record Ran {ℓ} (W : Type 0) (A : Type ℓ) : Type ℓ where
  pub outcome : Outcome A
  pub lib : W
  pub events : List Event

-- `void`.
abbrev pub NoValue : Type 0
NoValue = Unit {0}

abbrev pub Action {ℓ} : Type 0 → Type ℓ → Type ℓ
Action W A = W → Ran W A

-- The functions of YAZ. A string that YAZ may not have is an `Option`; the text of a record comes
-- with its length. `strerror_r` and the numbers of `snprintf` and of streams are the C library's.
pub record Api (W : Type 0) : Type 0 where
  pub options_create : W → ℕ × W
  pub connection_create : ℕ → W → ℕ × W
  pub connection_connect : ℕ → Octets → ℤ → W → W
  pub connection_error : ℕ → W → ℤ × Option Octets
  pub connection_option_get : ℕ → Octets → W → Option Octets
  pub connection_option_set : ℕ → Octets → Octets → W → W
  pub connection_search : ℕ → ℕ → W → ℕ × W
  pub query_create : W → ℕ × W
  pub query_prefix : ℕ → Octets → W → ℤ × W
  pub resultset_option_get : ℕ → Octets → W → Option Octets
  pub resultset_option_set : ℕ → Octets → Octets → W → W
  pub resultset_size : ℕ → W → ℕ
  pub resultset_record : ℕ → ℕ → W → Option ℕ × W
  pub record_get : ℕ → Octets → W → Option Octets
  pub destroy : Object → W → W
  pub matchstr : Octets → Octets → ℤ
  pub diag_str : ℤ → Octets
  pub strerror_r : ℤ → Option Octets
  pub decimal : ℤ → Octets

module _ {W : Type 0} where
  abbrev pub throw {ℓ} : {A : Type ℓ} → Exception → Action W A
  throw e w = record { outcome = threw e; lib = w; events = [] }

  abbrev pub pure {ℓ} : {A : Type ℓ} → A → Action W A
  pure a w = record { outcome = returned a; lib = w; events = [] }

  -- A call that changes the library's state, and one that reads it.
  abbrev pub call {ℓ} : {A : Type ℓ} → Object → (W → A × W) → Action W A
  call o f w = let (a, w') = f w in record { outcome = returned a; lib = w'; events = used o ∷ [] }

  abbrev pub update : Object → (W → W) → Action W NoValue
  update o f w = record { outcome = returned tt; lib = f w; events = used o ∷ [] }

  abbrev pub read {ℓ} : {A : Type ℓ} → Object → (W → A) → Action W A
  read o f w = record { outcome = returned (f w); lib = w; events = used o ∷ [] }

  abbrev pub create : (ℕ → Object) → (W → ℕ × W) → Action W ℕ
  create kind f w =
      let (h, w') = f w in record { outcome = returned h; lib = w'; events = created (kind h) ∷ [] }

  abbrev pub print : Event → Action W NoValue
  print e w = record { outcome = returned tt; lib = w; events = e ∷ [] }

  -- A `std::string` of a pointer that may be null.
  abbrev pub as_string {ℓ} : {A : Type ℓ} → Option A → Action W A
  as_string none w = record { outcome = undefined; lib = w; events = [] }
  as_string (some s) w = record { outcome = returned s; lib = w; events = [] }

  abbrev pub after {ℓ κ} :
      {A : Type ℓ} {B : Type κ} → Outcome A → W → List Event → (A → Action W B) → Ran W B
  after (returned a) w es f =
      let r = f a w in record { outcome = r.outcome; lib = r.lib; events = es ++ r.events }
  after (threw e) w es f = record { outcome = threw e; lib = w; events = es }
  after undefined w es f = record { outcome = undefined; lib = w; events = es }

infixl 5 ◌>>=◌ ◌>>◌
abbrev pub ◌>>=◌ {ℓ κ} :
    {W : Type 0} {A : Type ℓ} {B : Type κ} → Action W A → (A → Action W B) → Action W B
◌>>=◌ m f w = let r = m w in after r.outcome r.lib r.events f

abbrev pub ◌>>◌ {ℓ κ} :
    {W : Type 0} {A : Type ℓ} {B : Type κ} → Action W A → Action W B → Action W B
m >> k = m >>= λ _. k

module _ {W : Type 0} (api : Api W) where
  abbrev pub destroy_object : Object → Action W NoValue
  destroy_object o w = record {
    outcome = returned tt;
    lib = api.destroy o w;
    events = destroyed o ∷ [];
  }

  -- The end of a block: its object's destructor runs when it returns and when it throws.
  abbrev closed {ℓ} : {A : Type ℓ} → Object → Outcome A → W → List Event → Ran W A
  closed o undefined w es = record { outcome = undefined; lib = w; events = es }
  closed o (returned a) w es = record {
    outcome = returned a;
    lib = api.destroy o w;
    events = es ++ destroyed o ∷ [];
  }
  closed o (threw e) w es = record {
    outcome = threw e;
    lib = api.destroy o w;
    events = es ++ destroyed o ∷ [];
  }

  abbrev pub closing {ℓ} : {A : Type ℓ} → Object → Action W A → Action W A
  closing o body w = let r = body w in closed o r.outcome r.lib r.events

  -- A local object: nothing of the block runs, and nothing is destroyed here, when its constructor
  -- throws.
  abbrev pub with_object {ℓ} :
      {A : Type ℓ} → (ℕ → Object) → Action W ℕ → (ℕ → Action W A) → Action W A
  with_object kind new body = do h ← new; closing (kind h) (body h)
