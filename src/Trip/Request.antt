-- ===== src/Trip/Request.antt =====
-- request.go: NewDraft, which checks a request and makes it a draft.
pub mod Accepted
use tccelta.Common.{
  ℕ, ◌*◌, ◌-◌, ◌^◌, Bool, true, false, not, ◌&&◌, ◌||◌, List, [], ◌∷◌, Option, none, some, Result,
  ok, err, ◌>>=◌, ◌>>◌, fail_if, ltb, leb, ◌==◌, if◌then◌else◌, length,
}
use tccelta.Common.Bytes.{Bytes}
use tccelta.Common.Int.{ℤ, pos, negsuc}
use tccelta.Common.Text.{codes, bytes_eq}
use tccelta.Trip.{Kind, boot, interval, Field, Error, invalid, Draft, Runes, normalize_name}
use tccelta.Trip

abbrev max_driver_name_runes : ℕ
max_driver_name_runes = 60

abbrev max_category_runes : ℕ
max_category_runes = 40

-- Seven days, in nanoseconds.
abbrev pub max_interval_span : ℕ
max_interval_span = 7 * 24 * 3600 * 10 ^ 9

abbrev pub max_boot_id : ℕ
max_boot_id = 65535

pub record Input : Type 0 where
  pub driver_name : Bytes
  pub category : Bytes
  pub fuel : Bytes
  pub entry_type : Bytes
  pub dongle_id : Option ℤ
  pub boot_id : Option ℤ
  pub boot_generation : Option ℤ
  pub t0 : Option Bytes
  pub t1 : Option Bytes

-- The ids of tripanalysis.FuelPresets.
abbrev pub fuel_presets : List Bytes
fuel_presets =
    codes "gasolina_e30"
    ∷ codes "gasolina_e32"
    ∷ codes "gasolina_e27"
    ∷ codes "gasolina_pura"
    ∷ codes "etanol_hidratado"
    ∷ codes "diesel"
    ∷ []

-- strings.ContainsFunc
unfoldable pub any_rune : (ℕ → Bool) → Bytes → Bool
any_rune f [] = false
any_rune f (r ∷ rs) = f r || any_rune f rs

unfoldable pub any_text : List Bytes → Bytes → Bool
any_text [] t = false
any_text (f ∷ fs) t = bytes_eq f t || any_text fs t

-- validFuel
unfoldable pub valid_fuel : Bytes → Bool
unfolding any_text
valid_fuel id = any_text fuel_presets id

-- checkName
unfoldable pub check_name : Runes → Bytes → Result Error (Unit {0})
check_name u n = do
  fail_if (ltb (length n) 1 || ltb max_driver_name_runes (length n)) (invalid Trip.name)
  fail_if (any_rune u.is_control n) (invalid Trip.name)

-- A rune that a category must not have: no letter, no digit and none of ' ', '_' and '-'.
unfoldable pub is_foreign : Runes → ℕ → Bool
is_foreign u r =
    not (u.is_letter r) && not (u.is_digit r) && not (r == 32) && not (r == 95) && not (r == 45)

-- checkCategory
unfoldable pub check_category : Runes → Bytes → Result Error (Unit {0})
check_category u c = do
  fail_if (ltb (length c) 1 || ltb max_category_runes (length c)) (invalid Trip.category)
  fail_if (any_rune (is_foreign u) c) (invalid Trip.category)

-- A number that must be there, from `low` to `high`.
unfoldable pub required : ℕ → ℕ → Field → Option ℤ → Result Error ℕ
required low high f none = err (invalid f)
required low high f (some (negsuc n)) = err (invalid f)
required low high f (some (pos n)) = if ltb n low || ltb high n then err (invalid f) else ok n

unfoldable pub optional : ℕ → ℕ → Field → Option ℤ → Result Error (Option ℕ)
optional low high f none = ok none
optional low high f (some (negsuc n)) = err (invalid f)
optional low high f (some (pos n)) =
    if ltb n low || ltb high n then err (invalid f) else ok (some n)

abbrev pub is_given {ℓ} : {A : Type ℓ} → Option A → Bool
is_given none = false
is_given (some _) = true

-- bootEntry
unfoldable pub boot_entry : Draft → Input → Result Error Draft
unfolding required optional
boot_entry d i = do
  fail_if (is_given i.t0 || is_given i.t1) (invalid Trip.entry)
  id ← required 1 max_boot_id Trip.boot_id i.boot_id
  g ← optional 0 max_boot_id Trip.boot_generation i.boot_generation
  ok (record d { kind = boot; boot_id = some id; boot_generation = g })

-- The fields that the two kinds of entry share; the kind is set by its entry.
unfoldable pub shared_fields : Runes → Input → ℕ → Draft
shared_fields u i id = record {
  category = u.lower (u.trim i.category);
  driver_name = u.trim i.driver_name;
  driver_name_normalized = normalize_name u (u.trim i.driver_name);
  fuel = i.fuel;
  dongle_id = id;
  kind = boot;
  boot_generation = none;
  boot_id = none;
  interval_start = none;
  interval_end = none;
  target_seq = 0;
}

module _ (parse : Bytes → Option ℕ) where
  -- parseInstant; `parse` is time.Parse with RFC 3339.
  unfoldable pub parse_instant : Field → Option Bytes → Result Error ℕ
  parse_instant f none = err (invalid f)
  parse_instant f (some s) = elim (parse s) [ none ↦ err (invalid f) | some t ↦ ok t ]

  -- intervalEntry
  unfoldable pub interval_entry : Draft → Input → Result Error Draft
  interval_entry d i = do
    fail_if (is_given i.boot_id || is_given i.boot_generation) (invalid Trip.entry)
    t0 ← parse_instant Trip.t0 i.t0
    t1 ← parse_instant Trip.t1 i.t1
    fail_if (leb t1 t0) (invalid Trip.t1)
    fail_if (ltb max_interval_span (t1 - t0)) (invalid Trip.t1)
    ok (record d { kind = interval; interval_start = some t0; interval_end = some t1 })

  -- The switch over the kind of entry.
  unfoldable pub entry_of : Input → Draft → Result Error Draft
  entry_of i d =
      if bytes_eq i.entry_type (codes "boot")
      then boot_entry d i
      else if bytes_eq i.entry_type (codes "intervalo")
      then interval_entry d i
      else err (invalid Trip.kind)

  -- NewDraft
  unfoldable pub new_draft : Runes → Input → Result Error Draft
  unfolding required
  new_draft u i = do
    check_name u (u.trim i.driver_name)
    check_category u (u.trim i.category)
    fail_if (not (valid_fuel i.fuel)) (invalid Trip.fuel)
    id ← required 1 (2 ^ 31 - 1) Trip.dongle_id i.dongle_id
    entry_of i (shared_fields u i id)
