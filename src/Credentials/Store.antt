-- ===== src/Credentials/Store.antt =====
-- authblock.go: Store, the counters in Redis with Local in reserve. What Redis answers to a script is an
-- argument: nothing without Redis, and `none` for an error.
use tccelta.Common.{
  ℕ, ◌*◌, Bool, true, List, [], ◌∷◌, Option, none, some, ◌==◌, if◌then◌else◌, length, max,
}
use tccelta.Common.Bytes.{Bytes}
use tccelta.Credentials.{Powers}
use tccelta.Credentials.Counters
use tccelta.Credentials.Counters.{Policies, Counters, Outcome, keys}

-- The loop over the answers of luaCheck, in milliseconds.
unfoldable pub longest_of : List ℕ → ℕ → ℕ
longest_of [] longest = longest
longest_of (r ∷ rs) longest = longest_of rs (max longest r)

-- Store.Check
unfoldable pub check : Option (Option (List ℕ)) → Counters → ℕ → Bytes → Bytes → ℕ × Counters
check (some (some res)) m now pair ip = (longest_of res 0 * 1000000, m)
check (some none) m now pair ip = Counters.check m now pair ip
check none m now pair ip = Counters.check m now pair ip

-- The outcome from the answers of luaFail, counts and blocks in turn.
unfoldable pub outcome_of : List ℕ → Outcome
outcome_of (n ∷ b ∷ []) = record {
  pair_count = 0;
  ip_count = n;
  pair_block = 0;
  ip_block = b * 1000000;
}
outcome_of (n ∷ b ∷ n' ∷ b' ∷ rest) = record {
  pair_count = n;
  ip_count = n';
  pair_block = b * 1000000;
  ip_block = b' * 1000000;
}
outcome_of _ = record { pair_count = 0; ip_count = 0; pair_block = 0; ip_block = 0 }

-- Store.Fail
unfoldable pub fail :
    Powers → Policies → Option (Option (List ℕ)) → Counters → ℕ → Bytes → Bytes → Outcome × Counters
fail f pol (some (some res)) m now pair ip =
    if length res == 2 * length (keys pair ip)
    then (outcome_of res, m)
    else Counters.fail f pol m now pair ip
fail f pol (some none) m now pair ip = Counters.fail f pol m now pair ip
fail f pol none m now pair ip = Counters.fail f pol m now pair ip

-- Store.Reset; Redis says whether the key was deleted.
unfoldable pub reset : Option Bool → Counters → Bytes → Counters
reset deleted m [] = m
reset (some true) m (c ∷ pair) = m
reset _ m (c ∷ pair) = Counters.reset m (c ∷ pair)
