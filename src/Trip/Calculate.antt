-- ===== src/Trip/Calculate.antt =====
-- backend/internal/usecase/tripcalc/calculator.go: the transaction in which a trip is taken, calculated and
-- saved. The calculation itself is an argument: its result, or nothing where it fails; then the transaction
-- is undone, and another one runs Fail.
pub mod Taken
use tccelta.Common.{ℕ, Option, none, some}
use tccelta.Trip
use tccelta.Trip.Rows.{Rows, Calculation, take, take_recalc, save}

module _ (compute : Trip.Trip → Option Calculation) where
  -- process, for what was taken.
  unfoldable pub process : Option Trip.Trip → Rows → Rows
  process none rows = rows
  process (some t) rows = elim (compute t) [ none ↦ rows | some c ↦ save t.id c rows ]

  -- Calculate
  unfoldable pub calculate : ℕ → Rows → Rows
  calculate id rows = process (take id rows) rows

  -- Recalc
  unfoldable pub recalc : Rows → Rows
  recalc rows = process (take_recalc rows) rows
