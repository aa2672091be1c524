-- ===== src/Index/RoundTrip.antt =====
-- A node that is encoded decodes to itself.
use rdbms.Prelude.{
  ℕ, ◌+◌, ◌-◌, ◌^◌, ◌<◌, ◌≡◌, refl, arith, Bool, false, Option, none, some, List, length, All, ltb,
  ==_refl,
}
use rdbms.Core.{PageId, ℤ, pos, negsuc, ok}
use rdbms.Exec.{pure, ◌>>=◌, ◌>>◌}
use rdbms.Codec.{append_le, append_len, take_le, read_each, write_each, read_bytes, extend}
use rdbms.Codec.Rules.{
  Coded, Coded-then, Coded-result, Coded-last, Coded-le, Coded-len, Coded-string, Coded-each,
  Coded-assoc, Reads-pure, Reads-bytes, Writes-extend,
}
use rdbms.Catalog.Format.{text_eq}
use rdbms.Catalog.RoundTrip.{IsText}
use rdbms.Index.Format.{
  index_node_magic, index_node_version, IndexKey, integer, text, IndexEntry, BTreeNode, leaf,
  internal, validate_internal_shape,
}
use rdbms.Index.Codec.{
  to_bits, from_bits, encode_key, encode_entry, encode_next, encode_body, encode_node_into,
  decode_key_of, decode_key, decode_entry, next_of, decode_leaf, decode_internal, decode_body,
  decode_node_from,
}

-- The range of an `i64`.
abbrev pub IsI64 : ℤ → Type 0
IsI64 (pos n) = n < 2 ^ 63
IsI64 (negsuc n) = n < 2 ^ 63

from-to_bits : (v : ℤ) → IsI64 v → from_bits (to_bits v) ≡ v
unfolding from_bits to_bits
from-to_bits (pos n) h = ground (arith, h)
from-to_bits (negsuc n) h =
    let big : ltb (2 ^ 64 - 1 - n) (2 ^ 63) ≡ false = ground (arith, h) in
    let back : 2 ^ 64 - 1 - (2 ^ 64 - 1 - n) ≡ n = omega arith in rw (big, back) refl

to_bits-lt : (v : ℤ) → IsI64 v → to_bits v < 2 ^ 64
unfolding to_bits
to_bits-lt (pos n) h = omega arith
to_bits-lt (negsuc n) h = omega arith

module _ (is_utf8 : List ℕ → Bool) where
  abbrev pub IsKey : IndexKey → Type 0
  IsKey (integer v) = IsI64 v
  IsKey (text s) = IsText is_utf8 s

  pub record IsEntry (e : IndexEntry) : Type 0 where
    pub key : IsKey e.key
    pub page : e.row_id.page_id < 2 ^ 64
    pub slot : e.row_id.slot_id < 2 ^ 16

  abbrev pub IsNext : Option PageId → Type 0
  IsNext none = Unit
  IsNext (some p) = p < 2 ^ 64

  abbrev pub IsNode : BTreeNode → Type 0
  IsNode (leaf nxt entries) = IsNext nxt × (length entries < 2 ^ 16) × All IsEntry entries
  IsNode (internal keys children) =
      (length children ≡ length keys + 1)
      × (length children < 2 ^ 16)
      × All IsKey keys
      × All (λ (p : ℕ). p < 2 ^ 64) children

  pub key-Coded : (k : IndexKey) → IsKey k → Coded (encode_key k) (decode_key is_utf8) k
  unfolding encode_key decode_key decode_key_of
  key-Coded (integer v) h =
      let value : Coded (append_le 8 (to_bits v))
          (take_le 8 >>= λ bits. pure (integer (from_bits bits))) (integer v) =
        rw (from-to_bits v h) at (
          Coded-last (λ bits. integer (from_bits bits))
            (Coded-le 8 (to_bits v) (to_bits-lt v h))) in
      Coded-then _ (Coded-le 1 1 (omega arith)) value
  key-Coded (text s) h =
      Coded-then _ (Coded-le 1 2 (omega arith)) (Coded-last text (Coded-string is_utf8 s h.0 h.1))

  entry-Coded : (e : IndexEntry) → IsEntry e → Coded (encode_entry e) (decode_entry is_utf8) e
  unfolding encode_entry decode_entry
  entry-Coded e h = Coded-then _ (key-Coded e.key h.key) (
      Coded-then _ (Coded-le 8 e.row_id.page_id h.page)
        (Coded-last _ (Coded-le 2 e.row_id.slot_id h.slot)))

  leaf_rest-Coded :
      (nxt : Option PageId) (entries : List IndexEntry)
      → length entries < 2 ^ 16
      → All IsEntry entries
      → Coded
          (append_len 2 (length entries) >> write_each encode_entry entries)
          (take_le 2 >>= λ count.
            read_each count (decode_entry is_utf8) >>= λ es. pure (leaf nxt es))
          (leaf nxt entries)
  leaf_rest-Coded nxt entries count h =
      Coded-then _ (Coded-len 2 (length entries) count) (
        Coded-last _ (Coded-each IsEntry encode_entry (decode_entry is_utf8) entry-Coded entries h))

  leaf-Coded :
      (nxt : Option PageId) (entries : List IndexEntry)
      → IsNode (leaf nxt entries)
      → Coded
          (encode_next nxt >> (append_len 2 (length entries) >> write_each encode_entry entries))
          (decode_leaf is_utf8)
          (leaf nxt entries)
  unfolding encode_next decode_leaf next_of
  leaf-Coded none entries (n, count, h) = Coded-assoc (append_le 1 0) (append_le 8 0) _ (
      Coded-then _ (Coded-le 1 0 (omega arith))
        (Coded-then _ (Coded-le 8 0 (omega arith)) (leaf_rest-Coded none entries count h)))
  leaf-Coded (some p) entries (n, count, h) = Coded-assoc (append_le 1 1) (append_le 8 p) _ (
      Coded-then _ (Coded-le 1 1 (omega arith))
        (Coded-then _ (Coded-le 8 p n) (leaf_rest-Coded (some p) entries count h)))

  shape_ok :
      (keys : List IndexKey) (children : List PageId)
      → length children ≡ length keys + 1
      → validate_internal_shape keys children ≡ ok tt
  unfolding validate_internal_shape
  shape_ok keys children h = rw (h, ==_refl (length keys + 1)) refl

  internal-Coded :
      (keys : List IndexKey) (children : List PageId)
      → IsNode (internal keys children)
      → Coded
          (append_len 2 (length keys)
            >> (write_each encode_key keys
                >> (append_len 2 (length children) >> write_each (append_le 8) children)))
          (decode_internal is_utf8)
          (internal keys children)
  unfolding decode_internal
  internal-Coded keys children (shape, count, ks, cs) =
      Coded-then _ (Coded-len 2 (length keys) (omega (arith, shape, count))) (
        Coded-then _ (Coded-each IsKey encode_key (decode_key is_utf8) key-Coded keys ks) (
          Coded-then _ (Coded-len 2 (length children) count) (
            Coded-result _
              (Coded-each (λ (p : ℕ). p < 2 ^ 64) (append_le 8) (take_le 8) (Coded-le 8) children
                cs)
              (rw (shape_ok keys children shape) (Reads-pure (internal keys children))))))

  body-Coded :
      (node : BTreeNode)
      → IsNode node
      → Coded (encode_body node) (take_le 1 >>= decode_body is_utf8) node
  unfolding encode_body decode_body
  body-Coded (leaf nxt entries) h =
      Coded-then _ (Coded-le 1 1 (omega arith)) (leaf-Coded nxt entries h)
  body-Coded (internal keys children) h =
      rw (shape_ok keys children h.0)
        (Coded-then _ (Coded-le 1 2 (omega arith)) (internal-Coded keys children h))

  pub node-Coded :
      (node : BTreeNode)
      → IsNode node
      → Coded (encode_node_into node) (decode_node_from is_utf8) node
  unfolding encode_node_into decode_node_from text_eq
  node-Coded node h =
      let magic : Coded (extend index_node_magic) (read_bytes 4) index_node_magic = record {
        bytes = index_node_magic;
        writes = Writes-extend index_node_magic;
        reads = Reads-bytes index_node_magic;
      } in
      Coded-then _ magic
        (Coded-then _ (Coded-le 2 index_node_version (omega arith)) (body-Coded node h))
