-- ===== src/RecordStore/Tests.antt =====
-- Runs of the record store, and its theorems at concrete calls.
use cashloom.Prelude.{
  count, map, ◌+◌, ◌≡◌, refl, true, some, [], ◌∷◌, List, Text, text_eq, length, find, any, ok,
}
use cashloom.Records.Link.{
  all_same, same_authority, same_payment_field, parent_of, request_link, intent_link,
  link_by_schema, assert_immediate_link, verify_v2_record_link,
}
use cashloom.Records.Samples.{protocol, protocol-exact, id_of, descriptor}
use cashloom.RecordStore.{
  V2RecordSource, StoreConfig, StoredRow, StoreDb, AppendInput, AppendResult,
}
use cashloom.RecordStore.Insert.{
  by_id, by_nonce, find_child, is_content_id, row_checks, insert_row, insert_edge, count_remote,
  read_usage_row, write_all,
}
use cashloom.RecordStore.Append.{
  admissible, check_nonce, check_successor, check_link, check_parent, check_quota, append_new,
  append_in, append, prepare, append_each, append_batch,
}
use cashloom.RecordStore.Reads.{get_local, get_public}
use cashloom.RecordStore.Sound.{fresh, Call, IsSound, append_calls, calls-IsSound}
use cashloom.RecordStore.Successors.{IsLinear, calls-IsLinear}
use cashloom.RecordStore.Recall.{known, append-recall}
use cashloom.RecordStore.Disclosure.{withheld, get_public-get_local}
use cashloom.RecordStore.Batch.{again, AllStored, append_batch-AllStored}

-- This node is the merchant, with room for two of its peers' records.
abbrev config : StoreConfig
config = record {
  local_node_key_id = some (id_of 100);
  remote_limits = record { max_record_count = 2; max_canonical_bytes = 100 };
}

abbrev call : List V2RecordSource → Text → Call
call [] bytes = record { bytes = bytes; source = V2RecordSource.from_local; now = 8 ∷ [] }
call (source ∷ _) bytes = record { bytes = bytes; source = source; now = 8 ∷ [] }

-- A descriptor and a request of this node, a peer's intent, and the same peer's second intent.
abbrev calls : List Call
calls =
    call [] (1 ∷ [])
    ∷ call [] (2 ∷ [])
    ∷ call (V2RecordSource.from_remote ∷ []) (3 ∷ [])
    ∷ call (V2RecordSource.from_remote ∷ []) (7 ∷ [])
    ∷ []

abbrev start : StoreDb
start = fresh (0 ∷ [])

calls-IsSound_example : IsSound protocol config (append_calls protocol config calls start)
calls-IsSound_example = calls-IsSound protocol config protocol-exact (0 ∷ []) calls

calls-IsLinear_example : IsLinear (append_calls protocol config calls start)
calls-IsLinear_example = calls-IsLinear protocol config (0 ∷ []) calls

-- Three of the four calls store a record.
three_stored : length (append_calls protocol config calls start).records ≡ 3
unfolding text_eq find any all_same same_authority same_payment_field parent_of request_link
    intent_link link_by_schema assert_immediate_link verify_v2_record_link by_id by_nonce find_child
    is_content_id row_checks insert_row insert_edge count_remote read_usage_row write_all admissible
    check_nonce check_successor check_link check_parent check_quota append_new append_in append
    append_calls
three_stored = refl

abbrev first : AppendResult
first = record {
  held = descriptor;
  inserted = true;
  canonical_bytes = 1;
  source = V2RecordSource.from_local;
}

stored :
    (db : StoreDb) × (append protocol config (1 ∷ []) V2RecordSource.from_local (8 ∷ []) start
      ≡ ok (first, db))
unfolding text_eq find any by_id by_nonce is_content_id row_checks insert_row count_remote write_all
    admissible check_nonce check_parent check_quota append_new append_in append
stored = (_, refl)

append-recall_example :
    let later = append_calls protocol config calls stored.0 in
    (get_local protocol (id_of 1) later ≡ ok (some descriptor))
    × ((row : StoredRow) × (append protocol config
            (1 ∷ [])
            V2RecordSource.from_remote
            (8 ∷ [])
            later
          ≡ ok (known (1 ∷ []) descriptor row later)))
append-recall_example =
    append-recall protocol config protocol-exact (1 ∷ []) V2RecordSource.from_local (8 ∷ []) start
      (first, stored.0) calls V2RecordSource.from_remote (8 ∷ []) stored.1 refl refl

get_public-get_local_example :
    get_public protocol (id_of 3) (append_calls protocol config calls start)
    ≡ withheld (get_local protocol (id_of 3) (append_calls protocol config calls start))
get_public-get_local_example =
    get_public-get_local protocol config (id_of 3) (append_calls protocol config calls start)
      calls-IsSound_example

abbrev batch : List (AppendInput × Text)
batch =
    (record { canonical_bytes = 1 ∷ []; source = V2RecordSource.from_local }, 8 ∷ [])
    ∷ (record { canonical_bytes = 2 ∷ []; source = V2RecordSource.from_local }, 8 ∷ [])
    ∷ []

batched : (out : List AppendResult × StoreDb) × (append_batch protocol config batch start ≡ ok out)
unfolding text_eq find any all_same same_authority same_payment_field parent_of request_link
    link_by_schema assert_immediate_link verify_v2_record_link by_id by_nonce find_child
    is_content_id row_checks insert_row insert_edge count_remote read_usage_row write_all admissible
    check_nonce check_successor check_link check_parent check_quota append_new append_in append
    prepare append_each append_batch
batched = (_, refl)

append_batch-AllStored_example :
    AllStored protocol config batched.0.1 batch batched.0.0
    × (length batched.0.1.records
        ≡ length start.records + count (λ (r : AppendResult). r.inserted) batched.0.0)
    × (append_batch protocol config batch batched.0.1 ≡ ok (map again batched.0.0, batched.0.1))
append_batch-AllStored_example =
    append_batch-AllStored protocol config batch start batched.0 batched.1
