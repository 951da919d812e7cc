-- ===== src/Registry/Examples.antt =====
-- The rule of access at a dongle without a profile.
use tccelta.Common.{ℕ, ◌∷◌, subst, arith, Result, ◌≡◌, [], true, false, ok, err, refl}
use tccelta.Common.Text.{codes, bytes_eq}
use tccelta.Protocol.Identity.{profile_none}
use tccelta.Common.Bytes.{Bytes}
use tccelta.Common.Maps.{lookup, put}
use tccelta.Registry.Cache.{Dongles, find, remember}
use tccelta.Registry.Cache.Fresh.{IsFresh, Recent, find-IsFresh}
use tccelta.Registry.{Error, Dongle, verify_access, profile_not_allowed}

abbrev plain : Dongle
plain = record {
  id = 3;
  dev_id = [];
  profile = profile_none;
  auth_key = codes "a";
  rec_key = codes "r";
  public_key = [];
  active = true;
}

plain_refused : verify_access plain false ≡ err profile_not_allowed
unfolding verify_access bytes_eq
plain_refused = refl

-- A cache that has asked for one dongle at 5, asked again at 9.
abbrev base : ℕ → Bytes → Result Error Dongle
base at dev = ok plain

abbrev empty : Dongles
empty = record { ttl = 10; max = 2; m = [] }

empty-IsFresh : IsFresh base empty
unfolding lookup
empty-IsFresh = record { bounded = omega arith; entries = λ dev e q. cc q }

abbrev asked : Dongles
asked = record { ttl = 10; max = 2; m = ([], record { d = plain; until = 15 }) ∷ [] }

first_asked : find empty 5 [] (base 5 []) ≡ (ok plain, asked)
unfolding find remember lookup put
first_asked = refl

asked-IsFresh : IsFresh base asked
asked-IsFresh =
    subst (λ z. IsFresh base z.1) first_asked
      (find-IsFresh base empty 5 [] (omega arith) empty-IsFresh).1

find-IsFresh_example :
    let (r, after) = find asked 9 [] (base 9 []) in Recent base asked 9 [] r × IsFresh base after
find-IsFresh_example = find-IsFresh base asked 9 [] (omega arith) asked-IsFresh
