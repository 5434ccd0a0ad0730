-- ===== src/Kernel/Withdrawn.antt =====
-- A revoked declaration that a caller names (`execute`, ugk/kernel.py; `IntentStore.get`,
-- ugk/intent.py).
use ugk.Base.{String, some, List, [], ◌∷◌, ◌≡◌, ◌≢◌, refl, map, arith, inl, inr, String-cases}
use ugk.Store.World.{World}
use ugk.Store.Write.{no_fault, at_insert, at_commit}
use ugk.Will.Intent.{
  IntentStore, IntentRevocation, RevokeFault, of_write, at_update, Row, has_hash, mark, revoke,
  read_row, get_declaration,
}
use ugk.Kernel.Request.{Governance, Request}
use ugk.Kernel.Horizon.{intent_verdict, store_verdict}

-- What is read under a hash does not see the mark of a revocation.
find-mark :
    (sorted : List String → List String) (hash k : String) (rows : List Row)
    → get_declaration sorted (record { rows = map (λ r. mark k r) rows; revocations = [] }) hash
      ≡ get_declaration sorted (record { rows = rows; revocations = [] }) hash
unfolding get_declaration mark has_hash read_row
find-mark sorted hash k [] = refl
find-mark sorted hash k (r ∷ rs) = ground (arith, find-mark sorted hash k rs)

get_declaration-revoke :
    (sorted : List String → List String) (fault : RevokeFault) (store : IntentStore)
    (v : IntentRevocation) (hash : String)
    → get_declaration sorted (revoke fault store v) hash ≡ get_declaration sorted store hash
unfolding get_declaration revoke
get_declaration-revoke sorted (of_write at_insert) store v hash = refl
get_declaration-revoke sorted (of_write no_fault) store v hash =
    find-mark sorted hash v.revoked_declaration_hash store.rows
get_declaration-revoke sorted (of_write at_commit) store v hash =
    find-mark sorted hash v.revoked_declaration_hash store.rows
get_declaration-revoke sorted at_update store v hash = refl

store_verdict-revoke :
    (w : World) (c : Governance) (q : Request) (fault : RevokeFault) (store : IntentStore)
    (v : IntentRevocation)
    → q.intent_ref ≢ ""
    → store_verdict w c q (revoke fault store v) ≡ store_verdict w c q store
unfolding store_verdict
store_verdict-revoke w c q fault store v n = elim (String-cases q.intent_ref "") [
  | inl (t, e) ↦ absurd (n e)
  | inr (t, e) ↦ rw (t, get_declaration-revoke w.sorted fault store v q.intent_ref) refl
]

-- Where the caller names an intent, no revocation changes the verdict: the reference of a revoked
-- declaration admits what it admitted before.
pub intent_verdict-revoke :
    (w : World) (c : Governance) (q : Request) (fault : RevokeFault) (store : IntentStore)
    (v : IntentRevocation)
    → q.intent_ref ≢ ""
    → intent_verdict w (record c { will_store = some (revoke fault store v) }) q
      ≡ intent_verdict w (record c { will_store = some store }) q
unfolding intent_verdict
intent_verdict-revoke w c q fault store v n =
    store_verdict-revoke w (record c { will_store = some store }) q fault store v n
