-- ===== src/Timeline.antt =====
-- backend/internal/domain/timeline/timeline.go: the milliseconds of a dongle, a counter of 32 bits,
-- extended by a reference.
mod Examples
pub mod Nearest
pub mod Groups
pub mod Fit
use tccelta.Common.{ℕ, ◌-◌, ◌%◌, ◌^◌, if◌then◌else◌}
use tccelta.Common.Words.{int64}
use tccelta.Common.Int.{ℤ, pos, negsuc, ◌+ℤ◌, ◌-ℤ◌, ltb_ℤ, abs}

-- abs64
unfoldable pub abs64 : ℤ → ℤ
abs64 x = int64 (abs x)

-- Whichever of the two is nearer to the reference, the second one if they are equally near.
unfoldable pub nearer : ℤ → ℤ → ℤ → ℤ
nearer ref c best =
    if ltb_ℤ (abs64 (int64 (c -ℤ ref))) (abs64 (int64 (best -ℤ ref))) then c else best

-- Unwrap
unfoldable pub unwrap : ℕ → ℤ → ℤ
unwrap t (negsuc n) = pos t
unwrap t (pos ref) =
    let base = pos (ref - ref % 2 ^ 32) in
    let below = int64 (int64 (base -ℤ pos (2 ^ 32)) +ℤ pos t) in
    let same = int64 (base +ℤ pos t) in
    let above = int64 (int64 (base +ℤ pos (2 ^ 32)) +ℤ pos t) in
    let best = nearer (pos ref) above (nearer (pos ref) same (nearer (pos ref) below same)) in
    if ltb_ℤ best (pos 0) then pos t else best
