-- ===== src/Contracts/Permissions.antt =====
-- packages/contracts/src/modules/permissions.ts
pub mod Slices
use rpenginext.Common.{Bool, true, false, ◌&&◌, List, String, ◌==◌, any, if◌then◌else◌}
use Prim.Native.String.{◌++◌}
use text.Mathlib.Text.{starts_with}

unfoldable pub permission_covers : String → String → Bool
permission_covers granted required =
    if granted == required
    then true
    else if granted == "state:propose:*" && starts_with required "state:propose:"
    then true
    else if granted == "agent:call:*" && starts_with required "agent:call:"
    then true
    else false

unfoldable pub has_permission : List String → String → Bool
has_permission granted required = any (λ token. permission_covers token required) granted

unfoldable pub propose_permission_for_slice : String → String
propose_permission_for_slice slice = "state:propose:" ++ slice

unfoldable pub agent_call_permission : String → String
agent_call_permission task_type = "agent:call:" ++ task_type
