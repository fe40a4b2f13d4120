-- ===== src/Prelude/Time.antt =====
-- Instants and their arithmetic. An instant is what `Date.parse` makes of a value: milliseconds from
-- the epoch, and `none` for a NaN or a value that is no text. A time out of the range of `Date` is a
-- NaN too, and `toISOString` throws for it. Times before the epoch are left out.
use Prim.Native.Nat.{ℕ}
use mathlib.Core.Bool.{Bool, false}
use mathlib.Core.Option.{Option, none, some}
use azure_llm_governance_api.Prelude.Tests.{leb, if◌then◌else◌}
use azure_llm_governance_api.Prelude.Answers.{Reply, done, thrown, range_error}

abbrev pub Instant : Type 0
Instant = Option ℕ

abbrev pub max_time : ℕ
max_time = 8_640_000_000_000_000

-- `!Number.isNaN(Date.parse(value))`
abbrev pub is_instant : Instant → Bool
is_instant none = false
is_instant (some t) = leb t max_time

-- The milliseconds of an instant that has passed `is_instant`.
abbrev pub ms : Instant → ℕ
ms none = 0
ms (some t) = t

-- `new Date(t).toISOString()`
abbrev pub to_iso : {R : Type 0} → ℕ → Reply R Instant
to_iso t = if leb t max_time then done (some t) else thrown (range_error "Invalid time value")
