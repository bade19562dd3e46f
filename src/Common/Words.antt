-- ===== src/Common/Words.antt =====
-- Machine words: `u64` and `usize` (64 bits) arithmetic as Rust's checked and saturating operations.
use Prim.Native.Nat.{ℕ, ◌≤◌, ◌-◌, min}
use mathlib.Core.Path.{◌≡◌}
use mathlib.Core.Option.{Option, none, some}
use native.Mathlib.Omega.{arith}
use ocserv_fleet_agent.Common.Tests.{leb, if◌then◌else◌}

abbrev pub u64_max : ℕ
u64_max = 18446744073709551615

-- `checked_add` and `checked_mul`: `None` on overflow.
unfoldable pub checked : ℕ → Option ℕ
checked n = if leb n u64_max then some n else none

-- `checked_sub`
abbrev pub checked_sub : ℕ → ℕ → Option ℕ
checked_sub a b = if leb b a then some (a - b) else none

abbrev pub saturated : ℕ → ℕ
saturated n = min n u64_max

pub checked-some : (n m : ℕ) → checked n ≡ some m → (m ≡ n) × (n ≤ u64_max)
unfolding checked
checked-some n m h = ground arith

pub checked_le : (n : ℕ) → n ≤ u64_max → checked n ≡ some n
unfolding checked
checked_le n h = ground arith
