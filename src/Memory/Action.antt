-- ===== src/Memory/Action.antt =====
-- The body of a transaction: state passing with errors over the database. What was written before
-- an error is still in the state; InTransaction throws it away.
use tccelta.Common.{if◌then◌else◌, Bool, Result, ok, err, Result-cases, inl, inr, ◌≡◌, arith}
use tccelta.Memory.{Database, Fault}

abbrev pub Action : Type 0 → Type 0
Action A = Database → Result Fault A × Database

module _ {A : Type 0} where
  abbrev pub pure : A → Action A
  pure a b = (ok a, b)

  -- A call that only reads, and one of a port outside.
  abbrev pub reads : (Database → Result Fault A) → Action A
  reads f b = (f b, b)

  abbrev pub outcome : Result Fault A → Action A
  outcome r b = (r, b)

infixl 5 ◌>>=◌ ◌>>◌
abbrev pub ◌>>=◌ : {A B : Type 0} → Action A → (A → Action B) → Action B
◌>>=◌ m f b = let (r, after) = m b in elim r [ ok a ↦ f a after | err e ↦ (err e, after) ]

abbrev pub ◌>>◌ : {B : Type 0} → Action (Unit {0}) → Action B → Action B
m >> k = m >>= λ _. k

abbrev pub writes : (Database → Database) → Action (Unit {0})
writes f b = (ok tt, f b)

abbrev pub raise_if : Bool → Fault → Action (Unit {0})
raise_if test e b = (if test then err e else ok tt, b)

-- A write under a test.
abbrev pub writes_if : Bool → (Database → Database) → Action (Unit {0})
writes_if test f b = (ok tt, if test then f b else b)

-- A chain that ended well has passed through both of its parts.
module _ {A B : Type 0} where
  pub bind_ended :
      (m : Action A) (f : A → Action B) {b c : Database} {v : B}
      → (m >>= f) b ≡ (ok v, c)
      → (a : A) × (m b ≡ (ok a, (m b).1)) × (f a (m b).1 ≡ (ok v, c))
  bind_ended m f {b} h = elim (Result-cases (m b).0) [
    | inl (a, e) ↦ (a, λ i. (e i, (m b).1), (rw (e, ◌>>=◌) at h))
    | inr (x, e) ↦ ground arith
  ]
