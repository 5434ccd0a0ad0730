-- ===== src/Store/Tests.antt =====
-- The theorems about the store (ugk/storage/store.py), applied to the sample receipts.
use ugk.Base.{
  ℕ, String, Bool, true, false, Option, none, some, List, [], ◌∷◌, ◌++◌, ◌≡◌, ◌≢◌, refl, arith,
  eq_iff, All,
}
use ugk.Json.{Json, null, text, int, obj, Fields, end, field, has}
use ugk.Store.Receipt.{Receipt}
use ugk.Store.Effect.{resolve_effect_surface}
use ugk.Store.Emit.{assert_emittable}
use ugk.Store.Emission.{IsEmittable, assert_emittable-IsEmittable}
use ugk.Store.Body.{compute_h_body}
use ugk.Store.Attempt.{returned, database_error}
use ugk.Store.Write.{WriteCall, Store, no_fault, at_insert, at_commit}
use ugk.Store.Append.{write, prepare, insert}
use ugk.Store.Retry.{write-retried}
use ugk.Store.Chain.{
  genesis, verify_segment, stream_hash, stream_hash_from, recompute_body, verify_stream_hash,
  verify_chain, body_established, body_tampered,
}
use ugk.Store.Linkage.{Linked, CheckpointAt, verify_stream_hash-CheckpointAt}
use ugk.Store.Growth.{IsConsistent, CommitFails, write-IsConsistent}
use ugk.Store.Verdicts.{
  IsIntact, verify_chain-established, verify_chain-written, verify_chain-graded,
}
use ugk.Store.Epoch.{PruneResult, PruneFaults, seal_and_prune_epoch}
use ugk.Store.Undone.{IsUndone, seal_and_prune_epoch-IsUndone}
use ugk.Store.Retention.{IsSealed}
use ugk.Store.Seal.{seal_and_prune_epoch-IsSealed}
use ugk.Store.Frontier.{BrokenAfter, last_valid_frontier_lem}
use ugk.Store.Chain.{last_valid_frontier}
use ugk.Store.Built.{empty, plain_call, first_built}
use ugk.Store.Samples.{
  hash, digest-nonempty, world, row, graded_row, store_of, store, store-IsConsistent,
  graded_store-IsConsistent, call,
}

insertion_no_commit : CommitFails at_insert store → ⊥
insertion_no_commit (e, d) = cc

write-IsConsistent_example : IsConsistent world genesis (write world at_insert store call).1
write-IsConsistent_example =
    write-IsConsistent world genesis at_insert store call digest-nonempty insertion_no_commit
      store-IsConsistent

verify_chain-established_example :
    Linked genesis store.rows (stream_hash store.rows) × All (IsIntact hash) store.rows
unfolding verify_chain ugk.Binding.Canon.commit_s compute_h_body ugk.Json.json_eq ugk.Json.get
    ugk.Store.Body.body_fields ugk.Store.Body.versioned_fields ugk.Store.Body.terminal_fields
    ugk.Store.Body.capability_fields ugk.Store.Body.effect_fields
    ugk.Store.Body.reconciliation_fields
verify_chain-established_example = (verify_chain-established hash store.rows).0 refl

occupied : store.rows ≢ []
occupied e = cc

verify_stream_hash-CheckpointAt_example :
    (later : List Receipt) × CheckpointAt "root.v1" store.rows later
    × Linked "root.v1" later (stream_hash_from "root.v1" later)
unfolding verify_stream_hash
verify_stream_hash-CheckpointAt_example =
    (verify_stream_hash-CheckpointAt "root.v1" store.rows occupied).0 refl

verify_chain-written_example : verify_chain hash store.rows none ≡ body_established
verify_chain-written_example =
    verify_chain-written world store digest-nonempty store-IsConsistent (refl, tt)

abbrev graded : String
graded = "graded"

graded_apart : graded ≢ "plain"
graded_apart e = ground (arith, eq_iff "graded" "plain")

verify_chain-graded_example : verify_chain hash (store_of graded_row).rows none ≡ body_tampered
unfolding compute_h_body recompute_body ugk.Json.json_eq ugk.Json.get ugk.Store.Body.body_fields
    ugk.Store.Body.versioned_fields ugk.Store.Body.terminal_fields ugk.Store.Body.capability_fields
    ugk.Store.Body.effect_fields ugk.Store.Body.reconciliation_fields
verify_chain-graded_example =
    verify_chain-graded world (store_of graded_row) [] [] graded_row graded_store-IsConsistent refl
      graded_apart

abbrev blank : String → Bool
blank x = false

abbrev faults : Bool → PruneFaults
faults fails = record {
  sealed = no_fault;
  pruned = no_fault;
  deletion = false;
  closing = record { release = fails; rollback = false };
}

abbrev result : PruneResult
result = record {
  seal_hash = "root.v1";
  boundary_receipt_id = 0;
  pruned_count = 1;
  retained_count = 2;
  tip_before_prune = "root.v1";
  tip_after_prune = "root.v1";
}

-- The whole run, from the two receipts to the deletion.
sealed_run :
    (seal_and_prune_epoch world blank (faults false) store "root.v1" "audit" "" (null, null)).0
    ≡ returned result
unfolding seal_and_prune_epoch verify_segment write ugk.Store.Write.resolve
    ugk.Store.Effect.resolve_effect_surface ugk.Store.Epoch.sealed_call ugk.Json.get
    ugk.Json.serializable_fields ugk.Json.keep_fields ugk.Store.Write.commit
    ugk.Store.World.canonical_path_for ugk.Authority.Graph.canonical_path ugk.Authority.Graph.walk
    ugk.Base.Dict.keys ugk.Authority.Graph.has_subject ugk.Base.Dict.get
    ugk.Authority.Graph.add_edge ugk.Base.Dict.put ugk.Base.Names.elem ugk.Base.Names.subset
    ugk.Store.World.effective_capabilities ugk.Authority.Capabilities.compute_effective_capabilities
    ugk.Store.World.edge_dicts ugk.Binding.Canon.commit_s ugk.Binding.Canon.commit_c
    ugk.Binding.Canon.commit_m ugk.Binding.Canon.commit_j ugk.Binding.Canon.commit_id_p
    ugk.Binding.Canon.commit_id_sigma ugk.Binding.Canon.commit_id_phi ugk.Binding.Merkle.compute_h_r
    ugk.Binding.Merkle.has_tag ugk.Binding.Merkle.has_duplicate ugk.Binding.Merkle.sort_leaves
    ugk.Binding.Merkle.insert_leaf ugk.Binding.Merkle.encode_leaves ugk.Binding.Merkle.merkle_root
    ugk.Binding.Merkle.receipt_root ugk.Store.Write.terminal_of ugk.Store.Write.capability_of
    ugk.Store.Write.continuation_of ugk.Store.Write.bridge_of ugk.Store.Chain.stream_hash
    ugk.Store.Body.compute_h_body prepare ugk.Binding.Merkle.leaf_encoding
    ugk.Binding.Merkle.merkle_level ugk.Binding.Merkle.pair_up ugk.Store.Epoch.pruned_call
    ugk.Store.Chain.verify_from_seal
sealed_run = refl

seal_and_prune_epoch-IsSealed_example :
    IsSealed world store.rows "root.v1" "audit" "" result
      (seal_and_prune_epoch world blank (faults false) store "root.v1" "audit" "" (null, null)).1
seal_and_prune_epoch-IsSealed_example =
    seal_and_prune_epoch-IsSealed world blank (faults false) genesis store "root.v1" "audit" ""
      (null, null) result digest-nonempty store-IsConsistent sealed_run

-- The second receipt cannot be inserted, and the rollback fails.
abbrev torn : PruneFaults
torn = record {
  sealed = no_fault;
  pruned = at_insert;
  deletion = false;
  closing = record { release = false; rollback = true };
}

seal_and_prune_epoch-IsUndone_example :
    IsUndone torn "root.v1" store
      (seal_and_prune_epoch world blank torn store "root.v1" "audit" "" (null, null)).1
unfolding seal_and_prune_epoch verify_segment write ugk.Store.Write.resolve
    ugk.Store.Effect.resolve_effect_surface ugk.Store.Epoch.sealed_call ugk.Json.get
    ugk.Json.serializable_fields ugk.Json.keep_fields ugk.Store.Write.commit
    ugk.Store.World.canonical_path_for ugk.Authority.Graph.canonical_path ugk.Authority.Graph.walk
    ugk.Base.Dict.keys ugk.Authority.Graph.has_subject ugk.Base.Dict.get
    ugk.Authority.Graph.add_edge ugk.Base.Dict.put ugk.Base.Names.elem ugk.Base.Names.subset
    ugk.Store.World.effective_capabilities ugk.Authority.Capabilities.compute_effective_capabilities
    ugk.Store.World.edge_dicts ugk.Binding.Canon.commit_s ugk.Binding.Canon.commit_c
    ugk.Binding.Canon.commit_m ugk.Binding.Canon.commit_j ugk.Binding.Canon.commit_id_p
    ugk.Binding.Canon.commit_id_sigma ugk.Binding.Canon.commit_id_phi ugk.Binding.Merkle.compute_h_r
    ugk.Binding.Merkle.has_tag ugk.Binding.Merkle.has_duplicate ugk.Binding.Merkle.sort_leaves
    ugk.Binding.Merkle.insert_leaf ugk.Binding.Merkle.encode_leaves ugk.Binding.Merkle.merkle_root
    ugk.Binding.Merkle.receipt_root ugk.Store.Write.terminal_of ugk.Store.Write.capability_of
    ugk.Store.Write.continuation_of ugk.Store.Write.bridge_of ugk.Store.Chain.stream_hash
    ugk.Store.Body.compute_h_body prepare ugk.Binding.Merkle.leaf_encoding
    ugk.Binding.Merkle.merkle_level ugk.Binding.Merkle.pair_up ugk.Store.Epoch.pruned_call
    ugk.Store.Chain.verify_from_seal
seal_and_prune_epoch-IsUndone_example =
    seal_and_prune_epoch-IsUndone world blank torn store "root.v1" "audit" "" (null, null)
      database_error refl

abbrev plain_dumps : Json → String
plain_dumps v = "{}"

abbrev held : Fields
held = field "state" (text "HELD") (
    field "expiry_basis" (obj (field "kind" (text "receipt_height") (field "value" (int 9) end)))
      (field "op" (text "deploy") (field "id" (text "c1") end)))

assert_emittable-IsEmittable_example : IsEmittable hash plain_dumps "DEFER" (obj held) null none
unfolding assert_emittable ugk.Base.Names.elem ugk.Json.json_eq ugk.Json.get has
    ugk.Json.keep_fields
assert_emittable-IsEmittable_example =
    (assert_emittable-IsEmittable hash plain_dumps "DEFER" (obj held) null none).0 refl

last_valid_frontier_lem_example : BrokenAfter genesis (row ∷ row ∷ []) 0
unfolding last_valid_frontier
last_valid_frontier_lem_example = (last_valid_frontier_lem (row ∷ row ∷ [])).0 0 refl

abbrev again_row : Receipt
again_row = record row { receipt_id = 1 }

second_built : prepare world (insert empty row) plain_call ≡ returned again_row
unfolding insert verify_segment write ugk.Store.Write.resolve
    ugk.Store.Effect.resolve_effect_surface ugk.Store.Epoch.sealed_call ugk.Json.get
    ugk.Json.serializable_fields ugk.Json.keep_fields ugk.Store.Write.commit
    ugk.Store.World.canonical_path_for ugk.Authority.Graph.canonical_path ugk.Authority.Graph.walk
    ugk.Base.Dict.keys ugk.Authority.Graph.has_subject ugk.Base.Dict.get
    ugk.Authority.Graph.add_edge ugk.Base.Dict.put ugk.Base.Names.elem ugk.Base.Names.subset
    ugk.Store.World.effective_capabilities ugk.Authority.Capabilities.compute_effective_capabilities
    ugk.Store.World.edge_dicts ugk.Binding.Canon.commit_s ugk.Binding.Canon.commit_c
    ugk.Binding.Canon.commit_m ugk.Binding.Canon.commit_j ugk.Binding.Canon.commit_id_p
    ugk.Binding.Canon.commit_id_sigma ugk.Binding.Canon.commit_id_phi ugk.Binding.Merkle.compute_h_r
    ugk.Binding.Merkle.has_tag ugk.Binding.Merkle.has_duplicate ugk.Binding.Merkle.sort_leaves
    ugk.Binding.Merkle.insert_leaf ugk.Binding.Merkle.encode_leaves ugk.Binding.Merkle.merkle_root
    ugk.Binding.Merkle.receipt_root ugk.Store.Write.terminal_of ugk.Store.Write.capability_of
    ugk.Store.Write.continuation_of ugk.Store.Write.bridge_of ugk.Store.Chain.stream_hash
    ugk.Store.Body.compute_h_body prepare ugk.Binding.Merkle.leaf_encoding
    ugk.Binding.Merkle.merkle_level ugk.Binding.Merkle.pair_up ugk.Store.Epoch.pruned_call
    ugk.Store.Chain.verify_from_seal ugk.Json.json_eq ugk.Store.Body.body_fields
    ugk.Store.Body.versioned_fields ugk.Store.Body.terminal_fields ugk.Store.Body.capability_fields
    ugk.Store.Body.effect_fields ugk.Store.Body.reconciliation_fields
second_built = refl

abbrev sample_root : String
sample_root = "root.v1"

root_apart : sample_root ≢ genesis
root_apart e = ground (arith, eq_iff sample_root genesis)

write-retried_example :
    verify_stream_hash
      (write world no_fault (write world at_commit empty plain_call).1 plain_call).1.rows
      none
    ≢ true
write-retried_example =
    write-retried world empty plain_call row again_row digest-nonempty refl first_built second_built
      root_apart
