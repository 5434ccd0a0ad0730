-- ===== src/Kernel/Rows.antt =====
-- What one write of the kernel leaves in the store (ugk/kernel.py).
use ugk.Store.World.{World}
use ugk.Store.Write.{WriteCall}
use ugk.Store.Rows.{Grown, write-rows}
use ugk.Kernel.Node.{Node, emit, first_fault}

pub emit-rows :
    (w : World) (node : Node) (call : WriteCall)
    → Grown call.op call.failed node.store.rows (emit w node call).1.store.rows
unfolding emit
emit-rows w node call = write-rows w (first_fault node.faults) node.store call
