-- ===== src/Credentials/Counters.antt =====
-- backend/internal/adapter/authblock/authblock.go: Local, the counters of one replica. An instant counts
-- nanoseconds since Go's zero time.
use tccelta.Common.{
  ℕ, ◌+◌, ◌-◌, Bool, List, [], ◌∷◌, ◌++◌, Option, none, some, ltb, leb, if◌then◌else◌, length, max,
}
use tccelta.Common.Bytes.{Bytes}
use tccelta.Common.Maps.{bytes_key, lookup, put, remove}
use tccelta.Common.Text.{codes}
use tccelta.Credentials.{Powers, Policy, block}

-- Policies; the pair is a client_id with an address.
pub record Policies : Type 0 where
  pub pair : Policy
  pub ip : Policy

abbrev pub max_local_keys : ℕ
max_local_keys = 10000

abbrev pub pair_prefix : Bytes
pair_prefix = codes "tccelta:tok:p:"

abbrev pub ip_prefix : Bytes
ip_prefix = codes "tccelta:tok:i:"

-- An empty pair is none.
abbrev pub keys : Bytes → Bytes → List Bytes
keys [] ip = (ip_prefix ++ ip) ∷ []
keys (c ∷ pair) ip = (pair_prefix ++ c ∷ pair) ∷ (ip_prefix ++ ip) ∷ []

pub record Entry : Type 0 where
  pub n : ℕ
  pub until : ℕ
  pub expire : ℕ

-- The map of Local.
abbrev pub Counters : Type 0
Counters = List (Bytes × Entry)

abbrev pub is_live : ℕ → Option Entry → Option Entry
is_live now none = none
is_live now (some e) = if ltb now e.expire then some e else none

-- live: the entry of a key that is not forgotten; else the key is deleted.
unfoldable pub live : Counters → Bytes → ℕ → Option Entry × Counters
live m k now =
    let found = is_live now (lookup m k) in (found, elim found [ none ↦ remove m k | some e ↦ m ])

abbrev pub remaining : ℕ → Option Entry → ℕ
remaining now none = 0
remaining now (some e) = e.until - now

-- The loop of Check.
unfoldable pub check_loop : ℕ → List Bytes → ℕ → Counters → ℕ × Counters
check_loop now [] longest m = (longest, m)
check_loop now (k ∷ ks) longest m =
    let (e, after) = live m k now in check_loop now ks (max longest (remaining now e)) after

-- Local.Check
unfoldable pub check : Counters → ℕ → Bytes → Bytes → ℕ × Counters
check m now pair ip = check_loop now (keys pair ip) 0 m

-- The entries that `f` keeps.
unfoldable pub keep : (Entry → Bool) → Counters → Counters
keep f [] = []
keep f ((k, e) ∷ m) = let rest = keep f m in if f e then (k, e) ∷ rest else rest

-- evict
unfoldable pub evict : Counters → ℕ → Counters
evict m now =
    let known = keep (λ e. ltb now e.expire) m in
    if ltb (length known) max_local_keys then known else keep (λ e. ltb now e.until) known

-- The room for a new key.
unfoldable pub make_room : Counters → ℕ → Counters
make_room m now = if leb max_local_keys (length m) then evict m now else m

-- port.AuthBlockOutcome
pub record Outcome : Type 0 where
  pub pair_count : ℕ
  pub ip_count : ℕ
  pub pair_block : ℕ
  pub ip_block : ℕ

module _ (f : Powers) where
  -- bump behind the search for the entry: one failure more.
  unfoldable pub counted : Policy → ℕ → Entry → Entry
  counted p now e =
      let b = block f p (e.n + 1) in
      record {
        n = e.n + 1;
        until = if ltb 0 b then now + b else e.until;
        expire = now + ((if ltb 0 b then max (e.until - now) b else e.until - now) + p.forget);
      }

  unfoldable pub counted_in : Policy → ℕ → Counters → Bytes → Entry → (ℕ × ℕ) × Counters
  counted_in p now m k e = ((e.n + 1, block f p (e.n + 1)), put m k (counted p now e))

  -- bump behind the search, for a key that is not live.
  unfoldable pub first_failure : Policy → ℕ → Counters → Bytes → (ℕ × ℕ) × Counters
  first_failure p now m k =
      let room = make_room m now in
      if leb max_local_keys (length room)
      then ((0, 0), room)
      else counted_in p now room k (record { n = 0; until = 0; expire = 0 })

  -- bump: the count and the block of a key.
  unfoldable pub bump : Policy → ℕ → Counters → Bytes → (ℕ × ℕ) × Counters
  bump p now m k =
      let (found, after) = live m k now in
      elim found [ none ↦ first_failure p now after k | some e ↦ counted_in p now after k e ]

  -- Local.Fail
  unfoldable pub fail : Policies → Counters → ℕ → Bytes → Bytes → Outcome × Counters
  fail pol m now [] ip =
      let ((n, b), after) = bump pol.ip now m (ip_prefix ++ ip) in
      (record { pair_count = 0; ip_count = n; pair_block = 0; ip_block = b }, after)
  fail pol m now (c ∷ pair) ip =
      let ((n, b), middle) = bump pol.pair now m (pair_prefix ++ c ∷ pair) in
      let ((n', b'), after) = bump pol.ip now middle (ip_prefix ++ ip) in
      (record { pair_count = n; ip_count = n'; pair_block = b; ip_block = b' }, after)

-- Local.Reset
unfoldable pub reset : Counters → Bytes → Counters
reset m pair = remove m (pair_prefix ++ pair)
