-- ===== src/Catalog/RoundTrip.antt =====
-- A catalog that is encoded decodes to itself.
use rdbms.Prelude.{
  ℕ, ◌^◌, ◌<◌, ◌≡◌, refl, ap, arith, Bool, true, false, List, [], ◌∷◌, length, length-append, All,
}
use rdbms.Core.{ok}
use rdbms.Exec.{◌>>◌}
use rdbms.Bytes.{to_le_bytes}
use rdbms.Bytes.Words.{length-to_le_bytes}
use rdbms.Codec.{
  extend, append_le, append_len, take_le, write_each, read_bytes, write_string, read_string,
}
use rdbms.Codec.Rules.{
  Reads, Coded, Coded-then, Coded-result, Coded-last, Coded-lift, Coded-le, Coded-len, Coded-string,
  Coded-each, Coded-finish, Coded-more, Reads-pure, Reads-bytes, Writes-extend,
}
use rdbms.Catalog.Format.{
  catalog_magic, catalog_version, Text, text_eq, RelationKind, table, index, system, kind_to_u8,
  kind_from_u8, ColumnDef, ExtensionInfo, StorageObject, heap, b_plus_tree, RelationInfo, Catalog,
}
use rdbms.Catalog.Encode.{
  encode_storage_object, encode_column, encode_relation, encode_extension, encode_into,
  bytes_written, encode_catalog, heap_of_pages, decode_storage_object, decode_column,
  decode_relation, decode_extension, decode_extensions, decode_from, decode_catalog,
}

kind_from-to_u8 : (k : RelationKind) → kind_from_u8 (kind_to_u8 k) ≡ ok k
unfolding kind_from_u8
kind_from-to_u8 table = refl
kind_from-to_u8 index = refl
kind_from-to_u8 system = refl

kind_to_u8-lt : (k : RelationKind) → kind_to_u8 k < 256
kind_to_u8-lt table = omega arith
kind_to_u8-lt index = omega arith
kind_to_u8-lt system = omega arith

heap_of_pages_lem :
    (pages : List ℕ)
    → 0 < length pages
    → Reads (heap_of_pages pages) [] (heap (record { pages = pages }))
unfolding heap_of_pages
heap_of_pages_lem [] h = absurd (omega arith)
heap_of_pages_lem (p ∷ pages) h = Reads-pure (heap (record { pages = p ∷ pages }))

-- What the types of the source and `validate_name` say of the parts: 64-bit ids, valid UTF-8, names
-- and counts that their length fields hold.
module _ (is_utf8 : List ℕ → Bool) where
  abbrev pub IsText : Text → Type 0
  IsText s = (length s < 2 ^ 16) × (is_utf8 s ≡ true)

  pub record IsColumn (c : ColumnDef) : Type 0 where
    pub name : IsText c.name
    pub type_name : IsText c.type_name

  pub record IsExtension (e : ExtensionInfo) : Type 0 where
    pub name : IsText e.name
    pub abi_version : e.abi_version < 2 ^ 32
    pub kind : IsText e.kind

  abbrev pub IsStorage : StorageObject → Type 0
  IsStorage (heap s) =
      (0 < length s.pages) × (length s.pages < 2 ^ 32) × All (λ (id : ℕ). id < 2 ^ 64) s.pages
  IsStorage (b_plus_tree s) =
      (s.table_id < 2 ^ 64) × (s.root_page_id < 2 ^ 64) × IsText s.column_name

  pub record IsRelation (r : RelationInfo) : Type 0 where
    pub id : r.id < 2 ^ 64
    pub storage : IsStorage r.storage
    pub name : IsText r.name
    pub column_count : length r.columns < 2 ^ 16
    pub columns : All IsColumn r.columns

  pub record IsCatalog (c : Catalog) : Type 0 where
    pub next_relation_id : c.next_relation_id < 2 ^ 64
    pub next_page_id : c.next_page_id < 2 ^ 64
    pub relation_count : length c.relations < 2 ^ 32
    pub relations : All IsRelation c.relations
    pub extension_count : length c.extensions < 2 ^ 32
    pub extensions : All IsExtension c.extensions

  storage-Coded :
      (s : StorageObject)
      → IsStorage s
      → Coded (encode_storage_object s) (decode_storage_object is_utf8) s
  unfolding encode_storage_object decode_storage_object
  storage-Coded (heap s) (some_page, count, ids) = Coded-then _ (Coded-le 1 1 (omega arith)) (
      Coded-then _ (Coded-len 4 (length s.pages) count) (
        Coded-result _
          (Coded-each (λ (id : ℕ). id < 2 ^ 64) (append_le 8) (take_le 8) (Coded-le 8) s.pages ids)
          (heap_of_pages_lem s.pages some_page)))
  storage-Coded (b_plus_tree s) (owner, root, column) = Coded-then _ (Coded-le 1 2 (omega arith)) (
      Coded-then _ (Coded-le 8 s.table_id owner) (
        Coded-then _ (Coded-le 8 s.root_page_id root)
          (Coded-last _ (Coded-string is_utf8 s.column_name column.0 column.1))))

  text-Coded : (s : Text) → IsText s → Coded (write_string s) (read_string is_utf8) s
  text-Coded s h = Coded-string is_utf8 s h.0 h.1

  column-Coded : (c : ColumnDef) → IsColumn c → Coded (encode_column c) (decode_column is_utf8) c
  unfolding encode_column decode_column
  column-Coded c h =
      Coded-then _ (text-Coded c.name h.name) (Coded-last _ (text-Coded c.type_name h.type_name))

  relation-Coded :
      (r : RelationInfo) → IsRelation r → Coded (encode_relation r) (decode_relation is_utf8) r
  unfolding encode_relation decode_relation
  relation-Coded r h = Coded-then _ (Coded-le 8 r.id h.id) (
      Coded-then _ (Coded-le 1 (kind_to_u8 r.kind) (kind_to_u8-lt r.kind)) (
        Coded-lift _ (kind_from-to_u8 r.kind) (
          Coded-then _ (storage-Coded r.storage h.storage) (
            Coded-then _ (text-Coded r.name h.name) (
              Coded-then _ (Coded-len 2 (length r.columns) h.column_count) (
                Coded-last _ (
                  Coded-each IsColumn encode_column (decode_column is_utf8) column-Coded r.columns
                    h.columns)))))))

  extension-Coded :
      (e : ExtensionInfo) → IsExtension e → Coded (encode_extension e) (decode_extension is_utf8) e
  unfolding encode_extension decode_extension
  extension-Coded e h = Coded-then _ (text-Coded e.name h.name) (
      Coded-then _ (Coded-le 4 e.abi_version h.abi_version)
        (Coded-last _ (text-Coded e.kind h.kind)))

  extensions-Coded :
      (c : Catalog)
      → IsCatalog c
      → Coded
          (append_len 4 (length c.extensions) >> write_each encode_extension c.extensions)
          (decode_extensions is_utf8 false)
          c.extensions
  unfolding decode_extensions
  extensions-Coded c h = Coded-then _ (Coded-len 4 (length c.extensions) h.extension_count) (
      Coded-each IsExtension encode_extension (decode_extension is_utf8) extension-Coded
        c.extensions h.extensions)

  extensions_pos : (c : Catalog) (h : IsCatalog c) → 0 < length (extensions-Coded c h).bytes
  unfolding extensions-Coded Coded-then Coded-len
  extensions_pos c h =
      let sized = length-to_le_bytes 4 (length c.extensions) in
      omega (
        arith,
        sized,
        length-append (to_le_bytes 4 (length c.extensions))
            (Coded-each IsExtension encode_extension (decode_extension is_utf8) extension-Coded
              c.extensions h.extensions).bytes,
      )

  catalog-Coded : (c : Catalog) → IsCatalog c → Coded (encode_into c) (decode_from is_utf8) c
  unfolding encode_into decode_from text_eq
  catalog-Coded c h =
      let magic : Coded (extend catalog_magic) (read_bytes 4) catalog_magic = record {
        bytes = catalog_magic;
        writes = Writes-extend catalog_magic;
        reads = Reads-bytes catalog_magic;
      } in
      Coded-then _ magic (
        (Coded-then _ (Coded-le 2 catalog_version (omega arith)) (
          (Coded-then _ (Coded-le 8 c.next_relation_id h.next_relation_id) (
            Coded-then _ (Coded-le 8 c.next_page_id h.next_page_id) (
              Coded-then _ (Coded-len 4 (length c.relations) h.relation_count) (
                Coded-then _
                  (Coded-each IsRelation encode_relation (decode_relation is_utf8) relation-Coded
                    c.relations h.relations)
                  (Coded-more (decode_extensions is_utf8) _ (extensions-Coded c h)
                    (extensions_pos c h)))))))))

  encode_catalog-Coded :
      (c : Catalog) (h : IsCatalog c) → encode_catalog c ≡ ok (catalog-Coded c h).bytes
  unfolding encode_catalog
  encode_catalog-Coded c h = ap (λ r. bytes_written r.0 r.1) ((catalog-Coded c h).writes.run [])

  -- A catalog of 64-bit ids, valid UTF-8 texts and counts that their fields hold is encoded.
  pub encode_catalog_ok :
      (c : Catalog) → IsCatalog c → (bytes : List ℕ) × (encode_catalog c ≡ ok bytes)
  encode_catalog_ok c h = ((catalog-Coded c h).bytes, encode_catalog-Coded c h)

  -- Decoding the encoded bytes of such a catalog, where they are fewer than 2 ^ 64, gives it back.
  pub decode-encode_catalog :
      (c : Catalog) (bytes : List ℕ)
      → IsCatalog c
      → encode_catalog c ≡ ok bytes
      → length bytes < 2 ^ 64
      → decode_catalog is_utf8 bytes ≡ ok c
  unfolding decode_catalog
  decode-encode_catalog c bytes h run small =
      let same : (catalog-Coded c h).bytes ≡ bytes = cc (encode_catalog-Coded c h, run) in
      rw same at (Coded-finish (catalog-Coded c h) (rw same small)).1
