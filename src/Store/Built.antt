-- ===== src/Store/Built.antt =====
-- The first write of the samples, into a store without rows (`UGKReceiptStore.write`,
-- ugk/storage/store.py).
use ugk.Base.{String, Option, none, [], ◌≡◌, refl, false}
use ugk.Store.Attempt.{returned}
use ugk.Store.Write.{WriteCall, Store}
use ugk.Store.Append.{prepare}
use ugk.Store.Chain.{genesis}
use ugk.Store.Samples.{world, row, call}

abbrev pub empty : Store
empty = record {
  rows = [];
  prior_h_r = genesis;
  prior_h_m = none;
  prior_intent_ref = none;
  next_id = 0;
  read_only = false;
  txn_depth = 0;
}

abbrev pub plain_call : WriteCall
plain_call = record call { commit_terminal_outcome = false }

pub first_built : prepare world empty plain_call ≡ returned row
unfolding ugk.Store.Append.insert ugk.Store.Chain.verify_segment ugk.Store.Append.write
    ugk.Store.Write.resolve ugk.Store.Effect.resolve_effect_surface ugk.Store.Epoch.sealed_call
    ugk.Json.get ugk.Json.serializable_fields ugk.Json.keep_fields ugk.Store.Write.commit
    ugk.Store.World.canonical_path_for ugk.Authority.Graph.canonical_path ugk.Authority.Graph.walk
    ugk.Base.Dict.keys ugk.Authority.Graph.has_subject ugk.Base.Dict.get
    ugk.Authority.Graph.add_edge ugk.Base.Dict.put ugk.Base.Names.elem ugk.Base.Names.subset
    ugk.Store.World.effective_capabilities ugk.Authority.Capabilities.compute_effective_capabilities
    ugk.Store.World.edge_dicts ugk.Binding.Canon.commit_s ugk.Binding.Canon.commit_c
    ugk.Binding.Canon.commit_m ugk.Binding.Canon.commit_j ugk.Binding.Canon.commit_id_p
    ugk.Binding.Canon.commit_id_sigma ugk.Binding.Canon.commit_id_phi ugk.Binding.Merkle.compute_h_r
    ugk.Binding.Merkle.has_tag ugk.Binding.Merkle.has_duplicate ugk.Binding.Merkle.sort_leaves
    ugk.Binding.Merkle.insert_leaf ugk.Binding.Merkle.encode_leaves ugk.Binding.Merkle.merkle_root
    ugk.Binding.Merkle.receipt_root ugk.Store.Write.terminal_of ugk.Store.Write.capability_of
    ugk.Store.Write.continuation_of ugk.Store.Write.bridge_of ugk.Store.Chain.stream_hash
    ugk.Store.Body.compute_h_body ugk.Store.Append.prepare ugk.Binding.Merkle.leaf_encoding
    ugk.Binding.Merkle.merkle_level ugk.Binding.Merkle.pair_up ugk.Store.Epoch.pruned_call
    ugk.Store.Chain.verify_from_seal ugk.Json.json_eq ugk.Store.Body.body_fields
    ugk.Store.Body.versioned_fields ugk.Store.Body.terminal_fields ugk.Store.Body.capability_fields
    ugk.Store.Body.effect_fields ugk.Store.Body.reconciliation_fields
first_built = refl
