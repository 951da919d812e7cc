-- ===== src/Trip/Request/Accepted.antt =====
-- What a draft is when NewDraft accepts.
use tccelta.Common.{
  ℕ, ◌-◌, ◌≤◌, ◌<◌, ◌^◌, true, false, not, ◌||◌, Option, none, some, ok, Result-cases, ◌≡◌, inl,
  inr, arith, length, Bool-cases, ltb, leb, ◌>>=◌, ◌>>◌, fail_if, refl, subst, ok-injective, ◌∙◌,
  ap, sym,
}
use mathlib.Core.Option.{some-injective}
use tccelta.Common.Bytes.{Bytes}
use tccelta.Common.Int.{ℤ, pos, negsuc}
use tccelta.Common.Text.{codes, bytes_eq}
use tccelta.Trip.{Kind, boot, interval, Field, Error, Draft, Runes, normalize_name}
use tccelta.Trip
use tccelta.Trip.Request.{
  Input, max_interval_span, max_boot_id, any_rune, is_foreign, valid_fuel, check_name,
  check_category, required, optional, is_given, boot_entry, parse_instant, interval_entry,
  shared_fields, entry_of, new_draft,
}

pub record IsBoot (d : Draft) : Type 0 where
  pub id : ℕ
  pub given : d.boot_id ≡ some id
  pub id_bounds : (1 ≤ id) × (id ≤ max_boot_id)
  pub no_start : d.interval_start ≡ none
  pub no_end : d.interval_end ≡ none

pub record IsInterval (d : Draft) : Type 0 where
  pub start : ℕ
  pub end : ℕ
  pub starts : d.interval_start ≡ some start
  pub ends : d.interval_end ≡ some end
  pub order : start < end
  pub span : end - start ≤ max_interval_span
  pub no_id : d.boot_id ≡ none
  pub no_generation : d.boot_generation ≡ none

-- One of the two entries, whole, and nothing of the other.
pub record HasEntry (d : Draft) : Type 0 where
  pub of_boot : d.kind ≡ boot → IsBoot d
  pub of_interval : d.kind ≡ interval → IsInterval d

required_bounds :
    (low high : ℕ) (f : Field) (z : Option ℤ) {n : ℕ}
    → required low high f z ≡ ok n
    → (low ≤ n) × (n ≤ high)
unfolding required
required_bounds low high f none h = cc
required_bounds low high f (some (negsuc n)) h = cc
required_bounds low high f (some (pos n)) h = ground arith

optional_bounds :
    (low high : ℕ) (f : Field) (z : Option ℤ) (o : Option ℕ) (n : ℕ)
    → optional low high f z ≡ ok o
    → o ≡ some n
    → n ≤ high
unfolding optional
optional_bounds low high f none o n h k = ground (arith, ok-injective _ _ h, k)
optional_bounds low high f (some (negsuc m)) o n h k = cc
optional_bounds low high f (some (pos m)) o n h k = elim (Bool-cases (ltb m low || ltb high m)) [
  | inl e ↦ ground arith
  | inr e ↦
      let q : m ≡ n = some-injective _ _ (ok-injective _ _ (rw e at h) ∙ k) in ground (arith, e, q)
]

module _ (d : Draft) (i : Input) where
  boot_entry-HasEntry :
      (e : Draft)
      → d.interval_start ≡ none
      → d.interval_end ≡ none
      → boot_entry d i ≡ ok e
      → HasEntry e
  unfolding boot_entry
  boot_entry-HasEntry e p q h = elim (Bool-cases (is_given i.t0 || is_given i.t1)) [
    | inl g ↦ ground arith
    | inr g ↦ elim (Result-cases (required 1 max_boot_id Trip.boot_id i.boot_id)) [
      | inr (x, r) ↦ ground arith
      | inl (id, r) ↦
          elim (Result-cases (optional 0 max_boot_id Trip.boot_generation i.boot_generation)) [
            | inr (x, s) ↦ ground arith
            | inl (gen, s) ↦
                let made =
                  ok-injective _ _ (rw (s, ◌>>=◌) at (rw (r, ◌>>=◌) at (rw (g, fail_if) at h))) in
                subst HasEntry made record {
                  of_boot = λ _. record {
                    id = id;
                    given = refl;
                    id_bounds = required_bounds 1 max_boot_id Trip.boot_id i.boot_id r;
                    no_start = p;
                    no_end = q;
                  };
                  of_interval = λ k. cc;
                }
          ]
    ]
  ]

  module _ (parse : Bytes → Option ℕ) where
    interval_entry-HasEntry :
        (e : Draft)
        → d.boot_id ≡ none
        → d.boot_generation ≡ none
        → interval_entry parse d i ≡ ok e
        → HasEntry e
    unfolding interval_entry
    interval_entry-HasEntry e p q h =
        elim (Bool-cases (is_given i.boot_id || is_given i.boot_generation)) [
          | inl g ↦ ground arith
          | inr g ↦ elim (Result-cases (parse_instant parse Trip.t0 i.t0)) [
            | inr (x, r) ↦ ground arith
            | inl (a, r) ↦ elim (Result-cases (parse_instant parse Trip.t1 i.t1)) [
              | inr (x, s) ↦ ground arith
              | inl (b, s) ↦
                  bounded a b e p q (rw (s, ◌>>=◌) at (rw (r, ◌>>=◌) at (rw (g, fail_if) at h)))
            ]
          ]
        ]
      where
        bounded :
            (a b : ℕ) (e : Draft)
            → d.boot_id ≡ none
            → d.boot_generation ≡ none
            → (fail_if (leb b a) (Trip.invalid Trip.t1)
                >> (fail_if (ltb max_interval_span (b - a)) (Trip.invalid Trip.t1)
                    >> ok (record d {
                      kind = interval;
                      interval_start = some a;
                      interval_end = some b;
                    })))
              ≡ ok e
            → HasEntry e
        bounded a b e p q h = elim (Bool-cases (leb b a)) [
          | inl g ↦ ground arith
          | inr g ↦ elim (Bool-cases (ltb max_interval_span (b - a))) [
            | inl g ↦ ground arith
            | inr k ↦
                let made = ok-injective _ _ (rw (k, fail_if) at (rw (g, fail_if) at h)) in
                subst HasEntry made record {
                  of_boot = λ k. cc;
                  of_interval = λ _. record {
                    start = a;
                    end = b;
                    starts = refl;
                    ends = refl;
                    order = ground arith;
                    span = ground arith;
                    no_id = p;
                    no_generation = q;
                  };
                }
          ]
        ]

    entry_of-HasEntry :
        (e : Draft)
        → d.boot_id ≡ none
        → d.boot_generation ≡ none
        → d.interval_start ≡ none
        → d.interval_end ≡ none
        → entry_of parse i d ≡ ok e
        → HasEntry e
    unfolding entry_of
    entry_of-HasEntry e p q r s h = elim (Bool-cases (bytes_eq i.entry_type (codes "boot"))) [
      | inl g ↦ boot_entry-HasEntry e r s (rw g at h)
      | inr g ↦ elim (Bool-cases (bytes_eq i.entry_type (codes "intervalo"))) [
        | inl k ↦ interval_entry-HasEntry e p q (rw k at (rw g at h))
        | inr k ↦ ground (arith, rw k at (rw g at h))
      ]
    ]

-- A generation, where it is given, has 16 bits.
abbrev pub Within : Draft → Type 0
Within d = (g : ℕ) → d.boot_generation ≡ some g → g ≤ max_boot_id

boot_entry-Within : (d : Draft) (i : Input) (e : Draft) → boot_entry d i ≡ ok e → Within e
unfolding boot_entry
boot_entry-Within d i e h = elim (Bool-cases (is_given i.t0 || is_given i.t1)) [
  | inl g ↦ ground arith
  | inr g ↦ elim (Result-cases (required 1 max_boot_id Trip.boot_id i.boot_id)) [
    | inr (x, r) ↦ ground arith
    | inl (id, r) ↦
        elim (Result-cases (optional 0 max_boot_id Trip.boot_generation i.boot_generation)) [
          | inr (x, s) ↦ ground arith
          | inl (gen, s) ↦
              let made =
                ok-injective _ _ (rw (s, ◌>>=◌) at (rw (r, ◌>>=◌) at (rw (g, fail_if) at h))) in
              subst Within made
                (λ n. optional_bounds 0 max_boot_id Trip.boot_generation i.boot_generation gen n s)
        ]
  ]
]

interval-generation :
    (parse : Bytes → Option ℕ) (i : Input) (d e : Draft)
    → interval_entry parse d i ≡ ok e
    → e.boot_generation ≡ d.boot_generation
unfolding interval_entry
interval-generation parse i d e h = ground arith

-- By the rule for the generation of a boot, or none of an interval.
entry_of-Within :
    (parse : Bytes → Option ℕ) (i : Input) (d e : Draft)
    → d.boot_generation ≡ none
    → entry_of parse i d ≡ ok e
    → Within e
unfolding entry_of
entry_of-Within parse i d e n h = elim (Bool-cases (bytes_eq i.entry_type (codes "boot"))) [
  | inl g ↦ boot_entry-Within d i e (rw g at h)
  | inr g ↦ elim (Bool-cases (bytes_eq i.entry_type (codes "intervalo"))) [
    | inl k ↦ λ m q. let same = interval-generation parse i d e (rw k at (rw g at h)) in cc
    | inr k ↦ ground (arith, rw k at (rw g at h))
  ]
]

-- The entry of a draft leaves its other fields.
record Shared (d e : Draft) : Type 0 where
  category : e.category ≡ d.category
  driver_name : e.driver_name ≡ d.driver_name
  driver_name_normalized : e.driver_name_normalized ≡ d.driver_name_normalized
  fuel : e.fuel ≡ d.fuel
  dongle_id : e.dongle_id ≡ d.dongle_id

entry_of-Shared :
    (parse : Bytes → Option ℕ) (i : Input) (d e : Draft) → entry_of parse i d ≡ ok e → Shared d e
unfolding entry_of boot_entry interval_entry
entry_of-Shared parse i d e h = ground arith

-- The texts, the fuel and the dongle of a draft, within the limits of the API.
pub record IsValid (u : Runes) (d : Draft) : Type 0 where
  pub normalized : d.driver_name_normalized ≡ normalize_name u d.driver_name
  pub name_bounds : (1 ≤ length d.driver_name) × (length d.driver_name ≤ 60)
  pub no_control : any_rune u.is_control d.driver_name ≡ false
  pub category_bounds :
      (c : Bytes) × (d.category ≡ u.lower c)
      × ((1 ≤ length c) × (length c ≤ 40))
      × (any_rune (is_foreign u) c ≡ false)
  pub preset : valid_fuel d.fuel ≡ true
  pub dongle_bounds : (1 ≤ d.dongle_id) × (d.dongle_id < 2 ^ 31)
  pub entry : HasEntry d
  pub generation_bounds : Within d

module _ (parse : Bytes → Option ℕ) (u : Runes) (i : Input) where
  checked_name :
      (n : Bytes) {t : Unit {0}}
      → check_name u n ≡ ok t
      → ((1 ≤ length n) × (length n ≤ 60)) × (any_rune u.is_control n ≡ false)
  unfolding check_name
  checked_name n h = ground arith

  checked_category :
      (c : Bytes) {t : Unit {0}}
      → check_category u c ≡ ok t
      → ((1 ≤ length c) × (length c ≤ 40)) × (any_rune (is_foreign u) c ≡ false)
  unfolding check_category
  checked_category c h = ground arith

  -- When NewDraft accepts a request, the draft has a name of 1 to 60 runes without control
  -- characters, normalized as the index compares it, as its category the lower case of 1 to 40 letters,
  -- digits, spaces, '_' and '-', a preset fuel, a dongle_id of an int32, and either a boot_id of 16 bits
  -- from 1 on, with a generation of 16 bits or none and nothing of an interval, or an interval of at most
  -- seven days, not empty, with nothing of a boot.
  pub new_draft-IsValid : (d : Draft) → new_draft parse u i ≡ ok d → IsValid u d
  unfolding new_draft
  new_draft-IsValid d h = elim (Result-cases (check_name u (u.trim i.driver_name))) [
    | inr (x, e) ↦ ground arith
    | inl (_, e) ↦ elim (Result-cases (check_category u (u.trim i.category))) [
      | inr (x, f) ↦ ground arith
      | inl (_, f) ↦ elim (Bool-cases (not (valid_fuel i.fuel))) [
        | inl g ↦ ground arith
        | inr g ↦ elim (Result-cases (required 1 (2 ^ 31 - 1) Trip.dongle_id i.dongle_id)) [
          | inr (x, k) ↦ ground arith
          | inl (id, k) ↦
              let last =
                rw (k, ◌>>=◌) at (rw (g, fail_if) at (rw (f, ◌>>=◌) at (rw (e, ◌>>=◌) at h))) in
              made id d (checked_name _ e) (checked_category _ f) g
                (required_bounds 1 _ Trip.dongle_id i.dongle_id k) last
        ]
      ]
    ]
  ]
    where
      made :
          (id : ℕ) (d : Draft)
          → ((1 ≤ length (u.trim i.driver_name)) × (length (u.trim i.driver_name) ≤ 60))
            × (any_rune u.is_control (u.trim i.driver_name) ≡ false)
          → ((1 ≤ length (u.trim i.category)) × (length (u.trim i.category) ≤ 40))
            × (any_rune (is_foreign u) (u.trim i.category) ≡ false)
          → not (valid_fuel i.fuel) ≡ false
          → (1 ≤ id) × (id ≤ 2 ^ 31 - 1)
          → entry_of parse i (shared_fields u i id) ≡ ok d
          → IsValid u d
      made id d n c g b h =
          let s = entry_of-Shared parse i (shared_fields u i id) d h in
          let name : d.driver_name ≡ u.trim i.driver_name = unfold shared_fields in s.driver_name in
          record {
            normalized =
                unfold shared_fields in s.driver_name_normalized ∙ ap (normalize_name u) (sym name);
            name_bounds = rw name n.0;
            no_control = rw name n.1;
            category_bounds = unfold shared_fields in (u.trim i.category, s.category, c.0, c.1);
            preset = unfold shared_fields in rw s.fuel (ground arith);
            dongle_bounds = unfold shared_fields in rw s.dongle_id (omega arith);
            entry =
                unfold shared_fields in
                entry_of-HasEntry (shared_fields u i id) i parse d refl refl refl refl h;
            generation_bounds =
                unfold shared_fields in entry_of-Within parse i (shared_fields u i id) d refl h;
          }
