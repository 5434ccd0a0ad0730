-- ===== src/Kernel/Refuse.antt =====
-- How `execute` refuses: a receipt is written, a counter goes up and an error is raised
-- (`_emit_protocol_error`, `execute`, ugk/kernel.py).
use ugk.Base.{ℕ, ◌+◌, String, Bool, true, false, Option, none, some}
use ugk.Base.Dict
use ugk.Base.Dict.{Dict}
use ugk.Json.{text, obj, Fields, end, field}
use ugk.Store.Receipt.{Receipt}
use ugk.Store.Attempt.{Attempt}
use ugk.Store.World.{World}
use ugk.Kernel.Node.{Node, Outcome, threw, KernelError, Act, give, proceed, emit, lifted}
use ugk.Kernel.Request.{Governance, Request, kernel_call}
use ugk.Kernel.Preflight.{Accepted}

-- What raises is passed unless the test holds.
unfoldable pub require : Bool → Act Unit → Act Unit
require true refusal = give tt
require false refusal = refusal

-- The write of `_emit_protocol_error`, whose own failure is swallowed, and the error raised.
unfoldable pub swallow : KernelError → Attempt Receipt × Node → Outcome Unit × Node
swallow e (result, node) = (threw e, node)

unfoldable pub refuse_protocol :
    World → Governance → String → String → String → KernelError → Act Unit
unfolding swallow
refuse_protocol w c authority op reason e node = swallow e (
    emit w node (
      kernel_call c "protocol_error" authority
        (field "op" (text op) (field "reason" (text reason) end)) true "protocol_error" "kernel"
        ""))

unfoldable pub bump_found : String → Node → Option ℕ → Node
bump_found layer node none = node
bump_found layer node (some n) = record node { refused = Dict.put layer (n + 1) node.refused }

-- The counter of the layer, where the layer is one of those counted.
unfoldable pub bump : String → Node → Node
unfolding bump_found
bump layer node = bump_found layer node (Dict.get layer node.refused)

-- A `gate_refuse` receipt is written, and what follows it is done.
unfoldable pub refuse_gate :
    World → Governance → String → Fields → String → String → (Node → Node) → KernelError → Act Unit
refuse_gate w c authority parameters intent legend_hash after e node =
    proceed
      (lifted (
        emit w node
          (kernel_call c "gate_refuse" authority parameters true intent "kernel" legend_hash)))
      (λ r after_write. (threw e, after after_write))

unfoldable pub operation : Request → Accepted → Fields → Fields
operation q a rest = field "op" (text q.op) (field "parameters" (obj a.parameters) rest)
