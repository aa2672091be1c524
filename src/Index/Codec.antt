-- ===== src/Index/Codec.antt =====
-- The codec of the B+tree's nodes, crates/rdbms_index/src/lib.rs, over the shared cursor.
use rdbms.Prelude.{
  ℕ, ◌-◌, ◌^◌, Bool, not, Option, none, some, List, [], length, ltb, ◌==◌, if◌then◌else◌,
}
use rdbms.Core.{PageId, RowId, ℤ, pos, negsuc, DbResult, ok, err, panicked, corruption, reject}
use rdbms.Core
use rdbms.Exec.{Exec, pure, lift, ◌>>=◌, ◌>>◌}
use rdbms.Codec.{
  extend, append_le, append_len, write_each, DecodeCursor, read_bytes, take_le, read_each,
  read_string, write_string, finish,
}
use rdbms.Page.Format.{PageType, Page, header, read_record}
use rdbms.Page.Ops.{new}
use rdbms.Catalog.Format.{text_eq}
use rdbms.Catalog.Encode.{bytes_written}
use rdbms.Catalog.Scan.{insert_into}
use rdbms.Index.Format.{
  index_node_magic, index_node_version, node_leaf, node_internal, key_integer, key_text, IndexKey,
  integer, text, IndexEntry, BTreeNode, leaf, internal, validate_internal_shape,
}

-- The 64 bits of an `i64`, in two's complement.
unfoldable pub to_bits : ℤ → ℕ
to_bits (pos n) = n
to_bits (negsuc n) = 2 ^ 64 - 1 - n

unfoldable pub from_bits : ℕ → ℤ
from_bits b = if ltb b (2 ^ 63) then pos b else negsuc (2 ^ 64 - 1 - b)

unfoldable pub encode_key : IndexKey → Exec (List ℕ) (Unit {0})
encode_key (integer value) = do append_le 1 key_integer; append_le 8 (to_bits value)
encode_key (text value) = do append_le 1 key_text; write_string value

unfoldable pub encode_entry : IndexEntry → Exec (List ℕ) (Unit {0})
encode_entry entry = do
  encode_key entry.key
  append_le 8 entry.row_id.page_id
  append_le 2 entry.row_id.slot_id

unfoldable pub encode_next : Option PageId → Exec (List ℕ) (Unit {0})
encode_next (some page_id) = do append_le 1 1; append_le 8 page_id
encode_next none = do append_le 1 0; append_le 8 0

-- The arms of the match on the node, with its tag.
unfoldable pub encode_body : BTreeNode → Exec (List ℕ) (Unit {0})
encode_body (leaf next_leaf entries) = do
  append_le 1 node_leaf
  encode_next next_leaf
  append_len 2 (length entries)
  write_each encode_entry entries
encode_body (internal keys children) = do
  lift (validate_internal_shape keys children)
  append_le 1 node_internal
  append_len 2 (length keys)
  write_each encode_key keys
  append_len 2 (length children)
  write_each (append_le 8) children

unfoldable pub encode_node_into : BTreeNode → Exec (List ℕ) (Unit {0})
encode_node_into node = do extend index_node_magic; append_le 2 index_node_version; encode_body node

unfoldable pub encode_node : BTreeNode → DbResult (List ℕ)
encode_node node = bytes_written (encode_node_into node []).0 (encode_node_into node []).1

-- `String::from_utf8` is the parameter `is_utf8`.
module _ (is_utf8 : List ℕ → Bool) where
  unfoldable pub decode_key_of : ℕ → Exec DecodeCursor IndexKey
  decode_key_of tag =
      if tag == key_integer
      then (do bits ← take_le 8; pure (integer (from_bits bits)))
      else if tag == key_text
      then (do value ← read_string is_utf8; pure (text value))
      else lift (err corruption)

  unfoldable pub decode_key : Exec DecodeCursor IndexKey
  decode_key = do tag ← take_le 1; decode_key_of tag

  unfoldable pub decode_entry : Exec DecodeCursor IndexEntry
  decode_entry = do
    key ← decode_key
    page_id ← take_le 8
    slot_id ← take_le 2
    pure (record { key = key; row_id = record { page_id = page_id; slot_id = slot_id } })

  unfoldable pub next_of : ℕ → PageId → DbResult (Option PageId)
  next_of has_next next_page_id =
      if has_next == 0
      then ok none
      else if has_next == 1
      then ok (some next_page_id)
      else err corruption

  unfoldable pub decode_leaf : Exec DecodeCursor BTreeNode
  decode_leaf = do
    has_next ← take_le 1
    next_page_id ← take_le 8
    next_leaf ← lift (next_of has_next next_page_id)
    count ← take_le 2
    entries ← read_each count decode_entry
    pure (leaf next_leaf entries)

  unfoldable pub decode_internal : Exec DecodeCursor BTreeNode
  decode_internal = do
    key_count ← take_le 2
    keys ← read_each key_count decode_key
    child_count ← take_le 2
    children ← read_each child_count (take_le 8)
    lift (validate_internal_shape keys children)
    pure (internal keys children)

  unfoldable pub decode_body : ℕ → Exec DecodeCursor BTreeNode
  decode_body kind =
      if kind == node_leaf
      then decode_leaf
      else if kind == node_internal
      then decode_internal
      else lift (err corruption)

  unfoldable pub decode_node_from : Exec DecodeCursor BTreeNode
  decode_node_from = do
    magic ← read_bytes 4
    lift (reject (not (text_eq magic index_node_magic)) corruption)
    version ← take_le 2
    lift (reject (not (version == index_node_version)) corruption)
    kind ← take_le 1
    decode_body kind

  unfoldable pub decode_node : List ℕ → DbResult BTreeNode
  decode_node bytes =
      ((decode_node_from >>= λ node. finish >> pure node) (record { bytes = bytes; offset = 0 })).0

abbrev pub is_index_page : PageType → Bool
is_index_page PageType.index = Bool.true
is_index_page _ = Bool.false

unfoldable pub node_to_page : PageId → BTreeNode → DbResult Page
node_to_page page_id node =
    Core.◌>>=◌ (encode_node node)
      (λ bytes. Core.◌>>=◌ (insert_into bytes (new page_id PageType.index)) (λ stored. ok stored.1))

unfoldable pub node_from_page : (List ℕ → Bool) → Page → DbResult BTreeNode
node_from_page is_utf8 page = Core.◌>>=◌ (header page) (λ h.
    Core.◌>>=◌ (reject (not (is_index_page h.page_type)) corruption) (λ _.
      Core.◌>>=◌ (read_record page 0)
        (λ found. Core.◌>>=◌ (Core.ok_or found corruption) (decode_node is_utf8))))
