-- ===== src/Ingestion/Generation.antt =====
-- domain/ingestion/apply.go: assignGeneration. A boot_id of 16 bits that falls has wrapped.
use tccelta.Common.{
  ℕ, ◌+◌, ◌*◌, ◌%◌, ◌^◌, ◌≤◌, ◌<◌, ◌≡◌, ◌≢◌, Bool, true, false, ltb, ◌==◌, if◌then◌else◌, arith,
}
use tccelta.Common.Bytes.{IsU16}

-- assignGeneration: the generation, the new U and whether the generation advanced.
unfoldable pub assign_generation : ℕ → ℕ → ℕ → ℕ × ℕ × Bool
assign_generation g u boot_id =
    if boot_id == 0
    then (g, u, false)
    else if ltb boot_id u
    then ((g + 1) % 2 ^ 16, boot_id, true)
    else (g, boot_id, false)

-- The boots of a dongle, counted over the wraps of boot_id.
abbrev pub boot_count : ℕ → ℕ → ℕ
boot_count g u = g * 2 ^ 16 + u

-- Up to the last generation that 16 bits hold, the count of boots never falls; a boot_id other
-- than 0 becomes the new U, and the count grows by less than a generation.
pub assign_generation_monotone :
    (g u boot_id : ℕ)
    → g + 1 < 2 ^ 16
    → IsU16 u
    → IsU16 boot_id
    → let (g', u', advanced) = assign_generation g u boot_id in
      (boot_count g u ≤ boot_count g' u')
      × (boot_count g' u' < boot_count g u + 2 ^ 16)
      × (boot_id ≢ 0 → u' ≡ boot_id)
unfolding assign_generation
assign_generation_monotone g u boot_id hg hu hb = ground arith
