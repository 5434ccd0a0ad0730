-- ===== src/Store/Noted.antt =====
-- The two receipts of an epoch seal (`seal_and_prune_epoch`, ugk/storage/store.py).
use ugk.Base.{
  ℕ, ◌+◌, ◌≤◌, ◌<◌, String, Bool, true, false, none, some, List, [], ◌∷◌, ◌++◌, ◌≡◌, refl, sym, ap,
  ◌∙◌, subst, arith, keep, leb, length,
}
use ugk.Json.{Json, text, int, get}
use ugk.Store.Receipt.{Receipt}
use ugk.Store.Attempt.{returned}
use ugk.Store.World.{World}
use ugk.Store.Write.{WriteCall, Store, Resolved, resolve}
use ugk.Store.Append.{prepare, receipt_of, body_of}
use ugk.Store.Prepared.{prepare-Stages}
use ugk.Store.Growth.{Ascending}
use ugk.Store.Pruning.{boundary_above}
use ugk.Store.Epoch.{sealed_call, pruned_call}

-- The receipt of the seal names the sealed row, the intent and the number of rows up to it.
pub record IsSeal (r : Receipt) (seal intent description : String) (id n : ℕ) : Type 0 where
  pub op : r.op ≡ "epoch_sealed"
  pub succeeded : r.failed ≡ false
  pub intent_of : get "intent" r.parameters ≡ text intent
  pub description_of : get "description" r.parameters ≡ text description
  pub seal_hash : get "seal_hash" r.parameters ≡ text seal
  pub through : get "sealed_through_receipt_id" r.parameters ≡ int id
  pub count : get "sealed_count" r.parameters ≡ int n

-- So does the receipt of the deletion.
pub record IsPrune (r : Receipt) (seal intent : String) (id n : ℕ) : Type 0 where
  pub op : r.op ≡ "epoch_pruned"
  pub succeeded : r.failed ≡ false
  pub intent_of : get "intent" r.parameters ≡ text intent
  pub seal_hash : get "seal_hash" r.parameters ≡ text seal
  pub through : get "pruned_through_receipt_id" r.parameters ≡ int id
  pub count : get "pruned_count" r.parameters ≡ int n

-- The stored parameters are those of the call where no marker is among them.
prepare-parameters :
    (w : World) (store : Store) (call : WriteCall) (r : Receipt) (resolved : Resolved)
    → resolve call ≡ returned resolved
    → prepare w store call ≡ returned r
    → (r.op ≡ call.op) × (r.failed ≡ call.failed) × (r.parameters ≡ resolved.parameters)
unfolding receipt_of body_of
prepare-parameters w store call r resolved e h =
    let s = prepare-Stages w store call r h in
    let same : s.resolved ≡ resolved = cc in
    subst
      (λ (q : Receipt).
        (q.op ≡ call.op) × (q.failed ≡ call.failed) × (q.parameters ≡ resolved.parameters))
      s.builds (refl, refl, ap (λ (x : Resolved). x.parameters) same)

seal_resolved :
    (s i d : String) (id n : ℕ) (now : Json)
    → (r : Resolved) × (resolve (sealed_call s i d id n now) ≡ returned r)
      × (r.parameters ≡ (sealed_call s i d id n now).parameters)
unfolding resolve sealed_call ugk.Store.Effect.resolve_effect_surface ugk.Json.get
    ugk.Json.serializable_fields ugk.Json.keep_fields ugk.Base.Names.elem
seal_resolved s i d id n now = (_, refl, refl)

prune_resolved :
    (s i : String) (id n : ℕ) (now : Json)
    → (r : Resolved) × (resolve (pruned_call s i id n now) ≡ returned r)
      × (r.parameters ≡ (pruned_call s i id n now).parameters)
unfolding resolve pruned_call ugk.Store.Effect.resolve_effect_surface ugk.Json.get
    ugk.Json.serializable_fields ugk.Json.keep_fields ugk.Base.Names.elem
prune_resolved s i id n now = (_, refl, refl)

pub prepare-IsSeal :
    (w : World) (store : Store) (s i d : String) (id n : ℕ) (now : Json) (r : Receipt)
    → prepare w store (sealed_call s i d id n now) ≡ returned r
    → IsSeal r s i d id n
unfolding sealed_call ugk.Json.get
prepare-IsSeal w store s i d id n now r h =
    let (resolved, e, same) = seal_resolved s i d id n now in
    let (op, ok, q) = prepare-parameters w store (sealed_call s i d id n now) r resolved e h in
    let p = q ∙ same in
    record {
      op = op;
      succeeded = ok;
      intent_of = ap (get "intent") p;
      description_of = ap (get "description") p;
      seal_hash = ap (get "seal_hash") p;
      through = ap (get "sealed_through_receipt_id") p;
      count = ap (get "sealed_count") p;
    }

pub prepare-IsPrune :
    (w : World) (store : Store) (s i : String) (id n : ℕ) (now : Json) (r : Receipt)
    → prepare w store (pruned_call s i id n now) ≡ returned r
    → IsPrune r s i id n
unfolding pruned_call ugk.Json.get
prepare-IsPrune w store s i id n now r h =
    let (resolved, e, same) = prune_resolved s i id n now in
    let (op, ok, q) = prepare-parameters w store (pruned_call s i id n now) r resolved e h in
    let p = q ∙ same in
    record {
      op = op;
      succeeded = ok;
      intent_of = ap (get "intent") p;
      seal_hash = ap (get "seal_hash") p;
      through = ap (get "pruned_through_receipt_id") p;
      count = ap (get "pruned_count") p;
    }

none_up_to :
    (boundary low high : ℕ) (rows : List Receipt)
    → boundary < low
    → Ascending low rows high
    → length (keep (λ r. leb r.receipt_id boundary) rows) ≡ 0
none_up_to b low high [] p h = refl
none_up_to b low high (r ∷ rs) p (q, h) =
    rw (above r.receipt_id b (omega arith))
      (none_up_to b (r.receipt_id + 1) high rs (omega arith) h)
  where
    above : (m n : ℕ) → n < m → leb m n ≡ false
    above m n l = ground arith

-- The rows up to the boundary are those before it and itself.
pub sealed-before :
    (low high : ℕ) (before later : List Receipt) (b : Receipt)
    → Ascending low (before ++ b ∷ later) high
    → length (keep (λ r. leb r.receipt_id b.receipt_id) (before ++ b ∷ later)) ≡ length before + 1
sealed-before low high [] later b (p, h) =
    rw (at b.receipt_id)
      (omega (arith, none_up_to b.receipt_id (b.receipt_id + 1) high later (omega arith) h))
  where
    at : (n : ℕ) → leb n n ≡ true
    at n = ground arith
sealed-before low high (r ∷ rs) later b (p, h) =
    rw (below r.receipt_id b.receipt_id (boundary_above (r.receipt_id + 1) high rs later b h))
      (omega (arith, sealed-before (r.receipt_id + 1) high rs later b h))
  where
    below : (m n : ℕ) → m + 1 ≤ n → leb m n ≡ true
    below m n l = ground arith
