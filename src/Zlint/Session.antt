-- ===== src/Zlint/Session.antt =====
-- zlint: the program, over connections that are made and a target that answers its requests in
-- their order. When no request is open, the association's timeout passes.
use yazpp.Prelude.{ℕ, zero, suc, ◌≡◌, ◌<◌, ◌⊎◌, List, [], ◌∷◌, ◌++◌, Option, none, some}
use yazpp.Prelude.Int.{pos}
use yazpp.Apdu.{Octets}
use yazpp.Zlint.{Code, finished, continues, reopens, Checks, Gdu, Request, Done}
use yazpp.Zlint.Driver.{
  TestClass, Zlint, Action, connects, closes, sends_request, connect_notify, timeout_notify,
  recv_gdu,
}

-- Where a connection is: being made, or made, with the requests that are not answered yet.
pub data Phase : Type 0 where
  connecting : Phase
  talking : List Request → Phase

abbrev pub open_requests : Phase → List Request
open_requests connecting = []
open_requests (talking []) = []
open_requests (talking (r ∷ rs)) = rs

-- The phase after some actions; `none` once the association is closed.
abbrev pub phase_after : List Request → List Action → Option Phase
phase_after rs [] = some (talking rs)
phase_after rs (sends_request r ∷ acts) = phase_after (rs ++ r ∷ []) acts
phase_after rs (connects host ∷ acts) = some connecting
phase_after rs (closes ∷ acts) = none

pub data Session : Type 1 where
  crashed unfinished : Session
  closed : Zlint → Session

abbrev pub resumed : (Phase → Zlint → Session) → Option Phase → Zlint → Session
resumed next none z = closed z
resumed next (some ph) z = next ph z

abbrev pub went_on :
    (Phase → Zlint → Session) → List Request → Option (Zlint × List Action) → Session
went_on next rs none = crashed
went_on next rs (some (z, acts)) = resumed next (phase_after rs acts) z

module _ (target : ℕ → Request → Gdu) where
  abbrev pub reaction : ℕ → Phase → Zlint → Option (Zlint × List Action)
  reaction n connecting z = some (connect_notify (pos 0) (pos 0) z)
  reaction n (talking []) z = some (timeout_notify z)
  reaction n (talking (r ∷ rs)) z = recv_gdu (target n r) z

  -- At most `n` callbacks.
  unfoldable pub session : ℕ → Phase → Zlint → Session
  session zero ph z = unfinished
  session (suc n) ph z = went_on (session n) (open_requests ph) (reaction n ph z)

  -- What a test does in a phase, and the phase that it leads to if it does not finish.
  abbrev pub react :
      (test : TestClass) → Octets → ℕ → Phase → test.Members → Checks → Option (Done test.Members)
  react test database n connecting s c = some (test.init (pos 0) (pos 0) s c)
  react test database n (talking []) s c = some (test.recv_fail 2 s c)
  react test database n (talking (r ∷ rs)) s c = test.recv_gdu database (target n r) s c

abbrev pub next_phase : Phase → Code → List Request → Phase
next_phase connecting code sent = talking sent
next_phase (talking []) code sent = connecting
next_phase (talking (r ∷ rs)) continues sent = talking (rs ++ sent)
next_phase (talking (r ∷ rs)) code sent = connecting

-- A test finishes, or goes on to a phase from which there is less to do than `bound`.
pub data Progress {S : Type 0} (Inv : Phase → S → Type 0) (left : Phase → S → ℕ) (ph : Phase)
    (bound : ℕ) : Option (Done S) → Type 0 where
  stops :
      (s : S) (c : Checks) (rs : List Request)
      → Progress Inv left ph bound
          (some (record { code = finished; state = s; checks = c; sent = rs }))
  proceeds :
      (code : Code) (s : S) (c : Checks) (rs : List Request)
      → code ≡ continues ⊎ code ≡ reopens
      → Inv (next_phase ph code rs) s
      → left (next_phase ph code rs) s < bound
      → Progress Inv left ph bound (some (record { code = code; state = s; checks = c; sent = rs }))

-- A test that comes to its end from the phases and members that satisfy `Inv`.
pub record EndsWell (target : ℕ → Request → Gdu) (database : Octets) (test : TestClass)
    : Type 1 where
  pub Inv : Phase → test.Members → Type 0
  pub left : Phase → test.Members → ℕ
  pub step :
      (n : ℕ) (ph : Phase) (s : test.Members) (c : Checks)
      → Inv ph s
      → Progress Inv left ph (left ph s) (react target test database n ph s c)
