-- ===== src/Zlint/Versions.antt =====
-- zlint/zlint.cpp: the version that `initResponseGetVersion` gives.
use yazpp.Prelude.{
  ℕ, zero, suc, ◌+◌, false, ◌≡◌, refl, ◌∙◌, inl, inr, arith, Bool-cases, if◌then◌else◌,
}
use yazpp.Zlint.{Bits, mask_get, version_from, init_response_get_version}

-- The bits from `i` on that are set without a gap, of `n` bits.
unfoldable pub leading : ℕ → ℕ → Bits → ℕ
leading zero i bits = 0
leading (suc n) i bits =
    let rest = leading n (i + 1) bits in if mask_get bits i then suc rest else 0

-- Once a bit has been missing, the version does not change.
version_from-stuck :
    (n i version : ℕ) (bits : Bits)
    → mask_get bits version ≡ false
    → version_from n i bits version ≡ version
unfolding version_from leading
version_from-stuck zero i version bits gap = refl
version_from-stuck (suc n) i version bits gap =
    rw gap (version_from-stuck n (i + 1) version bits gap)

version_from-leading : (n i : ℕ) (bits : Bits) → version_from n i bits i ≡ i + leading n i bits
unfolding version_from leading
version_from-leading zero i bits = omega arith
version_from-leading (suc n) i bits = elim (Bool-cases (mask_get bits i)) [
  | inl set ↦ rw set (version_from-leading n (i + 1) bits ∙ omega arith)
  | inr gap ↦ rw gap (version_from-stuck n (i + 1) i bits gap ∙ omega arith)
]

-- The version of an init response is the number of bits that are set before the first of the twelve
-- that is not.
pub init_response_get_version-leading :
    (bits : Bits) → init_response_get_version bits ≡ leading 12 0 bits
unfolding init_response_get_version
init_response_get_version-leading bits = version_from-leading 12 0 bits ∙ omega arith
