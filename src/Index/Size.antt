-- ===== src/Index/Size.antt =====
-- How many bytes a node takes, and that it fits into a page.
use rdbms.Prelude.{
  ℕ, ◌+◌, ◌-◌, ◌*◌, ◌^◌, ◌≤◌, ◌<◌, ◌≡◌, refl, arith, Bool, Option, none, some, List, [], ◌∷◌,
  length, length-append, All, All-append,
}
use rdbms.Core.{PageId, ok, DbResult}
use rdbms.Exec.{Exec, lift, ◌>>◌, bind-post}
use rdbms.Bytes.{IsByte, to_le_bytes}
use rdbms.Bytes.Words.{length-to_le_bytes, to_le_bytes-IsByte}
use rdbms.Codec.{extend, append_le, append_len, write_each, write_string}
use rdbms.Page.Format.{PageType, Page}
use rdbms.Page.Shape.{page_id, IsWellFormed, header_ok}
use rdbms.Catalog.Saved.{fresh_room, insert_into-new}
use rdbms.Index.Format.{
  max_keys, index_node_magic, IndexKey, integer, text, IndexEntry, BTreeNode, leaf, internal,
}
use rdbms.Index.Codec.{
  encode_key, encode_entry, encode_next, encode_body, encode_node_into, encode_node, decode_node,
  to_bits, node_to_page, node_from_page,
}
use rdbms.Codec.Rules.{Coded-finish}
use rdbms.Index.RoundTrip.{IsNode, node-Coded}

-- A writer that appends bytes, at most n of them.
record Appends (w : Exec (List ℕ) (Unit {0})) (n : ℕ) : Type 0 where
  run :
      (bytes : List ℕ)
      → All IsByte bytes
      → (length (w bytes).1 ≤ length bytes + n) × All IsByte (w bytes).1

Appends-then :
    (w x : Exec (List ℕ) (Unit {0})) (n m : ℕ)
    → Appends w n
    → Appends x m
    → Appends (w >> x) (n + m)
Appends-then w x n m a b = record {
  run = λ bytes h.
      let one = a.run bytes h in
      let two = b.run (w bytes).1 one.1 in
      bind-post (λ l. (length l ≤ length bytes + (n + m)) × All IsByte l) w (λ _. x) bytes
        (omega (arith, one.0), one.1) (λ _. (omega (arith, one.0, two.0), two.1));
}

Appends-extend : (d : List ℕ) → All IsByte d → Appends (extend d) (length d)
Appends-extend d h = record {
  run = λ bytes b. (omega (arith, length-append bytes d), All-append IsByte bytes d b h);
}

Appends-lift : (r : DbResult (Unit {0})) → Appends (lift r) 0
Appends-lift r = record { run = λ bytes b. (omega arith, b) }

Appends-le : (n v : ℕ) → Appends (append_le n v) n
unfolding append_le
Appends-le n v =
    rw (length-to_le_bytes n v) at (Appends-extend (to_le_bytes n v) (to_le_bytes-IsByte n v))

Appends-weaken : (w : Exec (List ℕ) (Unit {0})) (n m : ℕ) → n ≤ m → Appends w n → Appends w m
Appends-weaken w n m le a = record {
  run = λ bytes h. (omega (arith, (a.run bytes h).0, le), (a.run bytes h).1);
}

Appends-len : (n v : ℕ) → Appends (append_len n v) n
unfolding append_len
Appends-len n v =
    Appends-weaken _ (0 + n) n (omega arith)
      (Appends-then _ _ 0 n (Appends-lift _) (Appends-le n v))

module _ {A : Type 0} (P : A → Type 0) (w : A → Exec (List ℕ) (Unit {0})) (n : ℕ)
    (one : (x : A) → P x → Appends (w x) n) where
  Appends-each : (xs : List A) → All P xs → Appends (write_each w xs) (length xs * n)
  unfolding write_each
  Appends-each [] h = record { run = λ bytes b. (omega arith, b) }
  Appends-each (x ∷ xs) h =
      Appends-weaken _ (n + length xs * n) _ (grind arith)
        (Appends-then (w x) (write_each w xs) n (length xs * n) (one x h.0) (Appends-each xs h.1))

all_unit : {A : Type 0} → (xs : List A) → All {0, 0} (λ _. Unit) xs
all_unit [] = tt
all_unit (x ∷ xs) = (tt, all_unit xs)

-- The longest text of a key with which every node fits into a page.
abbrev pub max_text : ℕ
max_text = 996

abbrev pub IsShort : IndexKey → Type 0
IsShort (integer v) = Unit
IsShort (text s) = (length s ≤ max_text) × All IsByte s

key-Appends : (k : IndexKey) → IsShort k → Appends (encode_key k) (3 + max_text)
unfolding encode_key write_string
key-Appends (integer v) h =
    Appends-weaken _ (1 + 8) _ (omega arith)
      (Appends-then _ _ 1 8 (Appends-le 1 1) (Appends-le 8 (to_bits v)))
key-Appends (text s) h = Appends-weaken _ (1 + (2 + length s)) _ (omega (arith, h.0)) (
    Appends-then _ _ 1 (2 + length s) (Appends-le 1 2)
      (Appends-then _ _ 2 (length s) (Appends-len 2 (length s)) (Appends-extend s h.1)))

entry-Appends : (e : IndexEntry) → IsShort e.key → Appends (encode_entry e) (13 + max_text)
unfolding encode_entry
entry-Appends e h = Appends-weaken _ ((3 + max_text) + (8 + 2)) _ (omega arith) (
    Appends-then _ _ (3 + max_text) (8 + 2) (key-Appends e.key h)
      (Appends-then _ _ 8 2 (Appends-le 8 e.row_id.page_id) (Appends-le 2 e.row_id.slot_id)))

next-Appends : (nxt : Option PageId) → Appends (encode_next nxt) 9
unfolding encode_next
next-Appends (some p) = Appends-then _ _ 1 8 (Appends-le 1 1) (Appends-le 8 p)
next-Appends none = Appends-then _ _ 1 8 (Appends-le 1 0) (Appends-le 8 0)

-- A node of at most `max_keys` keys, which are short.
abbrev pub IsSmall : BTreeNode → Type 0
IsSmall (leaf nxt entries) =
    (length entries ≤ max_keys) × All (λ (e : IndexEntry). IsShort e.key) entries
IsSmall (internal keys children) =
    (length keys ≤ max_keys) × (length children ≤ max_keys + 1) × All IsShort keys

body-Appends : (node : BTreeNode) → IsSmall node → Appends (encode_body node) (fresh_room - 6)
unfolding encode_body
body-Appends (leaf nxt entries) (few, short) =
    Appends-weaken _ (1 + (9 + (2 + length entries * (13 + max_text)))) _ (omega (arith, few)) (
      Appends-then _ _ 1 _ (Appends-le 1 1) (
        Appends-then _ _ 9 _ (next-Appends nxt) (
          Appends-then _ _ 2 _ (Appends-len 2 (length entries)) (
            Appends-each (λ (e : IndexEntry). IsShort e.key) encode_entry (13 + max_text)
              entry-Appends entries short))))
body-Appends (internal keys children) (few, fewer, short) =
    Appends-weaken _ (0 + (1 + (2 + (length keys * (3 + max_text) + (2 + length children * 8))))) _
      (omega (arith, few, fewer))
      (Appends-then _ _ 0 _ (Appends-lift _) (
        Appends-then _ _ 1 _ (Appends-le 1 2) (
          Appends-then _ _ 2 _ (Appends-len 2 (length keys)) (
            Appends-then _ _ _ _
              (Appends-each IsShort encode_key (3 + max_text) key-Appends keys short)
              (Appends-then _ _ 2 _ (Appends-len 2 (length children)) (
                Appends-each (λ _. Unit) (append_le 8) 8 (λ p u. Appends-le 8 p) children
                  (all_unit children)))))))

node-Appends : (node : BTreeNode) → IsSmall node → Appends (encode_node_into node) fresh_room
unfolding encode_node_into
node-Appends node small = Appends-weaken _ (4 + (2 + (fresh_room - 6))) _ (omega arith) (
    Appends-then _ _ 4 _ (Appends-extend index_node_magic (omega arith))
      (Appends-then _ _ 2 _ (Appends-le 2 1) (body-Appends node small)))

module _ (is_utf8 : List ℕ → Bool) where
  -- A node with at most `max_keys` keys of at most 996 bytes, with ids and texts in range, is stored in
  -- a page of its own, which is well formed, and read back from it.
  pub node_from_page-node_to_page :
      (id : PageId) (node : BTreeNode)
      → id < 2 ^ 64
      → IsNode is_utf8 node
      → IsSmall node
      → (q : Page) × (node_to_page id node ≡ ok q)
        × IsWellFormed q PageType.index
        × (page_id q ≡ id)
        × (node_from_page is_utf8 q ≡ ok node)
  unfolding node_to_page node_from_page encode_node decode_node
  node_from_page-node_to_page id node small is few =
      let coded = node-Coded is_utf8 node is in
      let wrote = coded.writes.run [] in
      let size = rw wrote at ((node-Appends node few).run [] tt) in
      let (q, stored, holds) =
        insert_into-new id PageType.index small coded.bytes size.1 (omega (arith, size.0)) in
      let back = (Coded-finish coded (omega (arith, size.0))).1 in
      (
        q,
        rw (wrote, stored) refl,
        holds.well,
        holds.named,
        rw (header_ok q holds.well.formatted, holds.stored) back,
      )
