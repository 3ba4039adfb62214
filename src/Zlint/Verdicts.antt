-- ===== src/Zlint/Verdicts.antt =====
-- zlint/test-init-01.cpp to zlint/test-init-04.cpp: the verdicts.
use yazpp.Prelude.{ℕ, ◌≡◌, Bool, ◌&&◌, Option, none, some, true, if◌then◌else◌, leb, ◌==◌, arith}
use yazpp.Zlint.{
  Code, finished, Checks, msg_check_for, msg_check_ok, msg_check_fail, InitResponse, init_response,
  accepts, z3950, Done,
}
use yazpp.Zlint.Init.{refid_1}
use yazpp.Zlint.Answers.{has_refid, recv_01, recv_02, recv_03, recv_04}
use yazpp.Zlint.Versions.{leading, init_response_get_version-leading}

-- The code, and the verdict if one has been reported.
abbrev pub verdict {ℓ} : {S : Type ℓ} → Option (Done S) → Option (Code × Option ℕ)
verdict none = none
verdict (some d) = some (d.code, if d.checks.reported then some d.checks.ok else none)

-- It passes, or it does not.
abbrev pub passes_if : Bool → Option (Code × Option ℕ)
passes_if b = some (finished, some (if b then 1 else 0))

abbrev pub between : ℕ → ℕ → ℕ → Bool
between low high n = leb low n && leb n high

-- The answer to the init request of each of the first four tests decides its check at once: the
-- first passes exactly if the target accepts the session with two or three versions set without a
-- gap, the second if there are two, and the fourth if the reference id comes back as it was sent.
-- The third passes if there are two to five, and otherwise it has no verdict: it prints a number as
-- a string.
pub recv_init-verdict {ℓ} :
    {S : Type ℓ} (res : InitResponse) (s : S) (before : Checks)
    → (verdict (recv_01 (z3950 (init_response res)) s (msg_check_for before))
        ≡ passes_if (between 2 3 (leading 12 0 res.protocol_version) && accepts res.result))
      × (verdict (recv_02 (z3950 (init_response res)) s (msg_check_for before))
          ≡ passes_if (leading 12 0 res.protocol_version == 2))
      × (verdict (recv_03 (z3950 (init_response res)) s (msg_check_for before))
          ≡ (if between 2 5 (leading 12 0 res.protocol_version) then passes_if true else none))
      × (verdict (recv_04 (z3950 (init_response res)) s (msg_check_for before))
          ≡ passes_if (has_refid refid_1 res.reference_id))
unfolding recv_01 recv_02 recv_03 recv_04 msg_check_for msg_check_ok msg_check_fail
recv_init-verdict res s before =
    rw (init_response_get_version-leading res.protocol_version)
      (ground arith, ground arith, ground arith, ground arith)
