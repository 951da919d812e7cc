-- ===== src/Pid/Decoded.antt =====
-- The catalogue after Set, and the rows that Decode makes of a block.
use tccelta.Common.{
  subst, ℕ, ◌≡◌, ◌≢◌, refl, ◌∙◌, List, [], ◌∷◌, Option, none, some, ◌==◌, if◌then◌else◌, Bool-cases,
  inl, inr, ==_iff,
}
use tccelta.Common.Maps.{number_key, lookup, put, lookup-put, lookup-put_other}
use tccelta.Pid.{Def, Catalog, define_all, set, get}

-- The last definition of a PID in a list, or else `found`.
unfoldable pub last_def : List Def → ℕ → Option Def → Option Def
last_def [] pid found = found
last_def (d ∷ ds) pid found = last_def ds pid (if d.pid == pid then some d else found)

define_all_lem :
    (ds : List Def) (m : List (ℕ × Def)) (pid : ℕ)
    → lookup (define_all ds m) pid ≡ last_def ds pid (lookup m pid)
unfolding define_all last_def
define_all_lem [] m pid = refl
define_all_lem (d ∷ ds) m pid = elim (Bool-cases (d.pid == pid)) [
  | inl h ↦
      let e : d.pid ≡ pid = (==_iff d.pid pid).0 h in
      let q : lookup (put m d.pid d) pid ≡ some d =
        subst (λ k. lookup (put m d.pid d) k ≡ some d) e (lookup-put m d.pid d) in
      define_all_lem ds (put m d.pid d) pid ∙ rw (h, q) refl
  | inr h ↦
      let n : d.pid ≢ pid = λ e. cc (h, (==_iff d.pid pid).1 e) in
      define_all_lem ds (put m d.pid d) pid ∙ rw (h, lookup-put_other m d n) refl
]

-- After Set, the catalogue answers a PID with the last of its definitions in the list, and with none
-- where the list has none, whatever it held before.
pub get-set :
    (c : Catalog) (defs : List Def) (pid : ℕ) → get (set c defs) pid ≡ last_def defs pid none
unfolding get lookup
get-set c defs pid = define_all_lem defs [] pid
