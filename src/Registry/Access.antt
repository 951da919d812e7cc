-- ===== src/Registry/Access.antt =====
-- Who passes VerifyAccess.
use tccelta.Common.{◌≡◌, ◌↔◌, Bool, true, ok, arith}
use tccelta.Common.Text.{codes, bytes_eq_iff}
use tccelta.Registry.{Dongle, verify_access}

-- A dongle passes exactly if it is active and its profile is not "none" or dongles without a profile
-- are allowed.
pub verify_access_iff :
    (d : Dongle) (allow_none : Bool)
    → (verify_access d allow_none ≡ ok tt)
      ↔ ((d.active ≡ true) × ((d.profile.name ≡ codes "none") → allow_none ≡ true))
unfolding verify_access
verify_access_iff d allow_none = (
  λ h. (ground arith, λ p. ground (arith, bytes_eq_iff d.profile.name (codes "none"))),
  λ (a, p). ground (arith, bytes_eq_iff d.profile.name (codes "none"), p),
)
