-- ===== src/Catalog/Encode.antt =====
-- `encode_catalog` and `decode_catalog` of crates/rdbms_catalog/src/lib.rs.
use rdbms.Prelude.{ℕ, Bool, not, List, [], ◌∷◌, length, ◌==◌, if◌then◌else◌}
use rdbms.Core.{DbResult, ok, err, panicked, corruption, reject}
use rdbms.Exec.{Exec, pure, lift, gets, ◌>>=◌, ◌>>◌}
use rdbms.Codec.{
  extend, append_le, append_len, write_string, write_each, DecodeCursor, read_bytes, take_le,
  read_string, read_each, is_finished, finish,
}
use rdbms.Catalog.Format.{
  catalog_magic, catalog_version, storage_heap, storage_index, text_eq, kind_to_u8, kind_from_u8,
  ColumnDef, ExtensionInfo, StorageObject, heap, b_plus_tree, RelationInfo, Catalog,
}

unfoldable pub encode_storage_object : StorageObject → Exec (List ℕ) (Unit {0})
encode_storage_object (heap storage) = do
  append_le 1 storage_heap
  append_len 4 (length storage.pages)
  write_each (append_le 8) storage.pages
encode_storage_object (b_plus_tree storage) = do
  append_le 1 storage_index
  append_le 8 storage.table_id
  append_le 8 storage.root_page_id
  write_string storage.column_name

-- The bodies of the loops of `encode_catalog`.
unfoldable pub encode_column : ColumnDef → Exec (List ℕ) (Unit {0})
encode_column column = do write_string column.name; write_string column.type_name

unfoldable pub encode_relation : RelationInfo → Exec (List ℕ) (Unit {0})
encode_relation relation = do
  append_le 8 relation.id
  append_le 1 (kind_to_u8 relation.kind)
  encode_storage_object relation.storage
  write_string relation.name
  append_len 2 (length relation.columns)
  write_each encode_column relation.columns

unfoldable pub encode_extension : ExtensionInfo → Exec (List ℕ) (Unit {0})
encode_extension extension = do
  write_string extension.name
  append_le 4 extension.abi_version
  write_string extension.kind

unfoldable pub encode_into : Catalog → Exec (List ℕ) (Unit {0})
encode_into catalog = do
  extend catalog_magic
  append_le 2 catalog_version
  append_le 8 catalog.next_relation_id
  append_le 8 catalog.next_page_id
  append_len 4 (length catalog.relations)
  write_each encode_relation catalog.relations
  append_len 4 (length catalog.extensions)
  write_each encode_extension catalog.extensions

-- The vector, if all writes succeeded.
abbrev pub bytes_written : DbResult (Unit {0}) → List ℕ → DbResult (List ℕ)
bytes_written (ok done) bytes = ok bytes
bytes_written (err e) bytes = err e
bytes_written panicked bytes = panicked

unfoldable pub encode_catalog : Catalog → DbResult (List ℕ)
encode_catalog catalog = bytes_written (encode_into catalog []).0 (encode_into catalog []).1

-- The pages of a heap, which must not be none.
unfoldable pub heap_of_pages : List ℕ → Exec DecodeCursor StorageObject
heap_of_pages [] = lift (err corruption)
heap_of_pages (page ∷ pages) = pure (heap (record { pages = page ∷ pages }))

-- `is_utf8` stands for `String::from_utf8` of the standard library.
module _ (is_utf8 : List ℕ → Bool) where
  unfoldable pub decode_storage_object : Exec DecodeCursor StorageObject
  decode_storage_object = do
    storage_kind ← take_le 1
    if storage_kind == storage_heap
        then (do
          page_count ← take_le 4
          pages ← read_each page_count (take_le 8)
          heap_of_pages pages)
        else if storage_kind == storage_index
        then (do
          table_id ← take_le 8
          root_page_id ← take_le 8
          column_name ← read_string is_utf8
          pure (
              b_plus_tree (record {
                table_id = table_id;
                column_name = column_name;
                root_page_id = root_page_id;
              })))
        else lift (err corruption)

  unfoldable pub decode_column : Exec DecodeCursor ColumnDef
  decode_column = do
    name ← read_string is_utf8
    type_name ← read_string is_utf8
    pure (record { name = name; type_name = type_name })

  unfoldable pub decode_relation : Exec DecodeCursor RelationInfo
  decode_relation = do
    id ← take_le 8
    kind_byte ← take_le 1
    kind ← lift (kind_from_u8 kind_byte)
    storage ← decode_storage_object
    name ← read_string is_utf8
    column_count ← take_le 2
    columns ← read_each column_count decode_column
    pure (record { id = id; name = name; kind = kind; storage = storage; columns = columns })

  unfoldable pub decode_extension : Exec DecodeCursor ExtensionInfo
  decode_extension = do
    name ← read_string is_utf8
    abi_version ← take_le 4
    kind ← read_string is_utf8
    pure (record { name = name; abi_version = abi_version; kind = kind })

  -- Catalogs of an older layout end before the extensions.
  unfoldable pub decode_extensions : Bool → Exec DecodeCursor (List ExtensionInfo)
  decode_extensions finished =
      if finished
      then pure []
      else do extension_count ← take_le 4; read_each extension_count decode_extension

  unfoldable pub decode_from : Exec DecodeCursor Catalog
  decode_from = do
    magic ← read_bytes 4
    lift (reject (not (text_eq magic catalog_magic)) corruption)
    version ← take_le 2
    lift (reject (not (version == catalog_version)) corruption)
    next_relation_id ← take_le 8
    next_page_id ← take_le 8
    relation_count ← take_le 4
    relations ← read_each relation_count decode_relation
    finished ← gets (λ c. ok (is_finished c))
    extensions ← decode_extensions finished
    pure (record {
      next_relation_id = next_relation_id;
      next_page_id = next_page_id;
      relations = relations;
      extensions = extensions;
    })

  unfoldable pub decode_catalog : List ℕ → DbResult Catalog
  decode_catalog bytes =
      ((do catalog ← decode_from; finish; pure catalog) (record { bytes = bytes; offset = 0 })).0
