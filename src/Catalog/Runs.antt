-- ===== src/Catalog/Runs.antt =====
-- The theorems of the catalog at a small catalog and a file in memory.
use rdbms.Prelude.{
  some, ◌==◌, if◌then◌else◌, ℕ, ◌≤◌, ◌<◌, ◌≡◌, ◌⊎◌, refl, arith, Bool, true, List, [], ◌∷◌, length,
  All,
}
use rdbms.Core.{PageId, RelationId, ok, err, user}
use rdbms.Bytes.{IsByte}
use rdbms.Vfs.Memory.{memory, memory_laws, memory_healthy}
use rdbms.Catalog.Format.{Text, text_eq, table, heap, ColumnDef, RelationInfo, Catalog, empty}
use rdbms.Bytes.{to_le_bytes}
use rdbms.Codec.{append_le, append_len, write_each, write_string}
use rdbms.Catalog.Encode.{
  encode_into, encode_relation, encode_storage_object, encode_column, encode_extension,
  encode_catalog, decode_catalog,
}
use rdbms.Catalog.RoundTrip.{IsCatalog, decode-encode_catalog}
use rdbms.Catalog.Saved.{fresh_room, load_or_bootstrap-save}
use rdbms.Exec.{◌>>=◌}
use rdbms.Catalog.Change.{
  allocate_relation_id, allocate_page_id, create_table_metadata, append_heap_page,
}
use rdbms.Catalog.Consistent.{IsConsistent}
use rdbms.Catalog.Reachable.{
  Reachable, bootstrapped, table_step, heap_page_step, Reachable-IsConsistent,
}
use rdbms.Catalog.Meta.{
  validate_name, validate_columns, validate_columns_from, any, find, relation_by_name,
  relation_by_id,
}
use rdbms.Catalog.Found.{new_table, relation_by_name-create_table}
use rdbms.Catalog.Store.{save, load_or_bootstrap}

-- Every list of bytes is accepted as text.
abbrev any_text : List ℕ → Bool
any_text bytes = true

abbrev column_id : ColumnDef
column_id = record { name = b'i' ∷ b'd' ∷ []; type_name = b'I' ∷ [] }

abbrev users : RelationInfo
users = record {
  id = 1;
  name = b'u' ∷ [];
  kind = table;
  storage = heap (record { pages = 1 ∷ 2 ∷ [] });
  columns = column_id ∷ [];
}

abbrev sample : Catalog
sample = record {
  next_relation_id = 2;
  next_page_id = 3;
  relations = users ∷ [];
  extensions = record { name = b'e' ∷ []; abi_version = 1; kind = b'k' ∷ [] } ∷ [];
}

sample-IsCatalog : IsCatalog any_text sample
sample-IsCatalog = record {
  next_relation_id = omega arith;
  next_page_id = omega arith;
  relation_count = omega arith;
  relations = (
    record {
      id = omega arith;
      storage = (omega arith, omega arith, (omega arith, (omega arith, tt)));
      name = (omega arith, refl);
      column_count = omega arith;
      columns = (record { name = (omega arith, refl); type_name = (omega arith, refl) }, tt);
    },
    tt,
  );
  extension_count = omega arith;
  extensions = (
    record { name = (omega arith, refl); abi_version = omega arith; kind = (omega arith, refl) },
    tt,
  );
}

-- The bytes of the catalog.
abbrev stored : List ℕ
stored =
    82 ∷ 68 ∷ 66 ∷ 67 ∷ 1 ∷ 0 ∷ 2 ∷ 0 ∷ 0 ∷ 0 ∷ 0 ∷ 0 ∷ 0 ∷ 0 ∷ 3 ∷ 0 ∷ 0 ∷ 0 ∷ 0 ∷ 0 ∷ 0 ∷ 0 ∷ 1
    ∷ 0 ∷ 0 ∷ 0 ∷ 1 ∷ 0 ∷ 0 ∷ 0 ∷ 0 ∷ 0 ∷ 0 ∷ 0 ∷ 1 ∷ 1 ∷ 2 ∷ 0 ∷ 0 ∷ 0 ∷ 1 ∷ 0 ∷ 0 ∷ 0 ∷ 0 ∷ 0 ∷ 0
    ∷ 0 ∷ 2 ∷ 0 ∷ 0 ∷ 0 ∷ 0 ∷ 0 ∷ 0 ∷ 0 ∷ 1 ∷ 0 ∷ 117 ∷ 1 ∷ 0 ∷ 2 ∷ 0 ∷ 105 ∷ 100 ∷ 1 ∷ 0 ∷ 73 ∷ 1
    ∷ 0 ∷ 0 ∷ 0 ∷ 1 ∷ 0 ∷ 101 ∷ 1 ∷ 0 ∷ 0 ∷ 0 ∷ 1 ∷ 0 ∷ 107 ∷ []

encoded : encode_catalog sample ≡ ok stored
unfolding encode_catalog encode_into append_le append_len write_each encode_relation
    encode_storage_object write_string encode_column encode_extension to_le_bytes
encoded = refl

stored-IsByte : All IsByte stored
stored-IsByte = ground arith

decode-encode_catalog_example : decode_catalog any_text stored ≡ ok sample
decode-encode_catalog_example =
    decode-encode_catalog any_text sample stored sample-IsCatalog encoded (omega arith)

load_or_bootstrap-save_example :
    ((length stored ≤ fresh_room)
      × ((save memory sample []).0 ≡ ok tt)
      × (load_or_bootstrap memory any_text (save memory sample []).1
          ≡ (ok sample, (save memory sample []).1)))
    ⊎ ((fresh_room < length stored) × (save memory sample [] ≡ (err user, [])))
load_or_bootstrap-save_example =
    load_or_bootstrap-save memory memory_laws memory_healthy any_text sample stored []
      sample-IsCatalog encoded stored-IsByte

two_tables :
    Reachable
      (create_table_metadata
        (b'v' ∷ [])
        []
        (create_table_metadata (b'u' ∷ []) (column_id ∷ []) empty).1).1
two_tables = table_step (b'v' ∷ []) [] (table_step (b'u' ∷ []) (column_id ∷ []) bootstrapped)

abbrev evolved : Catalog
evolved =
    ((allocate_page_id >>= append_heap_page 1)
      (create_table_metadata (b'v' ∷ []) []
        (create_table_metadata (b'u' ∷ []) (column_id ∷ []) empty).1).1).1

evolved-Reachable : Reachable evolved
evolved-Reachable = heap_page_step 1 two_tables

Reachable-IsConsistent_example : IsConsistent evolved
Reachable-IsConsistent_example = Reachable-IsConsistent evolved evolved-Reachable

abbrev v_name : Text
v_name = b'v' ∷ []

abbrev ones : RelationId × PageId
ones = (1, 1)

created : (create_table_metadata v_name (column_id ∷ []) empty).0 ≡ ok ones
unfolding create_table_metadata validate_name validate_columns validate_columns_from any
    relation_by_name find empty allocate_relation_id allocate_page_id
created = refl

relation_by_name-create_table_example :
    (ones ≡ (empty.next_relation_id, empty.next_page_id))
    × ((other : Text)
        → relation_by_name other (create_table_metadata v_name (column_id ∷ []) empty).1 ≡ (
            if text_eq v_name other
            then some (new_table v_name (column_id ∷ []) empty)
            else relation_by_name other empty))
    × ((other : RelationId)
        → relation_by_id other (create_table_metadata v_name (column_id ∷ []) empty).1 ≡ (
            if 1 == other
            then some (new_table v_name (column_id ∷ []) empty)
            else relation_by_id other empty))
relation_by_name-create_table_example =
    relation_by_name-create_table v_name (column_id ∷ []) empty ones
      (Reachable-IsConsistent empty bootstrapped) created
