-- ===== src/Output/Exit.antt =====
-- `StyrnExit` of src/output/mod.rs: the process exit statuses.
use styrn.Common.{◌≡◌, ◌↔◌, refl, ap, Option, none, some, List, [], ◌∷◌, arith, if◌then◌else◌}
use styrn.Common.Int.{ℤ, pos, int_eq, int_eq_iff}

pub data StyrnExit : Type 0 where
  success internal_error usage unreachable authentication remote_execution : StyrnExit
  resource_admission capability_unavailable protocol partial_fleet timeout : StyrnExit
  agent_harness workflow setup : StyrnExit

-- `StyrnExit::ALL`.
abbrev pub all_exits : List StyrnExit
all_exits =
    success ∷ internal_error ∷ usage ∷ unreachable ∷ authentication ∷ remote_execution
    ∷ resource_admission ∷ capability_unavailable ∷ protocol ∷ partial_fleet ∷ timeout
    ∷ agent_harness ∷ workflow ∷ setup ∷ []

unfoldable pub as_i32 : StyrnExit → ℤ
as_i32 success = pos 0
as_i32 internal_error = pos 1
as_i32 usage = pos 2
as_i32 unreachable = pos 3
as_i32 authentication = pos 4
as_i32 remote_execution = pos 5
as_i32 resource_admission = pos 6
as_i32 capability_unavailable = pos 7
as_i32 protocol = pos 8
as_i32 partial_fleet = pos 9
as_i32 timeout = pos 10
as_i32 agent_harness = pos 11
as_i32 workflow = pos 12
as_i32 setup = pos 13

-- The `find` of `from_i32`.
find_exit : ℤ → List StyrnExit → Option StyrnExit
find_exit value [] = none
find_exit value (e ∷ es) = if int_eq (as_i32 e) value then some e else find_exit value es

unfoldable pub from_i32 : ℤ → Option StyrnExit
unfolding find_exit as_i32
from_i32 value = find_exit value all_exits

from_i32-as_i32 : (e : StyrnExit) → from_i32 (as_i32 e) ≡ some e
unfolding from_i32
from_i32-as_i32 success = refl
from_i32-as_i32 _ = refl

find_exit_sound :
    (value : ℤ) (es : List StyrnExit) (e : StyrnExit)
    → find_exit value es ≡ some e
    → as_i32 e ≡ value
unfolding find_exit
find_exit_sound value [] e h = cc
find_exit_sound value (x ∷ es) e h =
    ground (arith, int_eq_iff (as_i32 x) value, find_exit_sound value es e)

-- A status is read back from a number exactly when it is the status of that number: the numbers of
-- the statuses are distinct, and `from_i32` gives nothing for every other `i32`.
pub from_i32_iff : (value : ℤ) (e : StyrnExit) → (from_i32 value ≡ some e) ↔ (as_i32 e ≡ value)
from_i32_iff value e = (
  λ h. find_exit_sound value all_exits e (unfold from_i32 in h),
  λ h. cc (ap from_i32 h, from_i32-as_i32 e),
)
