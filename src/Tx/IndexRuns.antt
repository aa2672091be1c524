-- ===== src/Tx/IndexRuns.antt =====
-- The theorems of the indexes at a transaction over an empty file in memory, whose staged pages hold an
-- index: one full leaf.
use Prim.Native.Nat.Ordering.{eq}
use rdbms.Prelude.{ℕ, ◌^◌, ◌<◌, ◌≡◌, ◌≢◌, ◌⊎◌, refl, arith, Bool, true, none, some, List, [], ◌∷◌}
use rdbms.Core.{PageId, RowId, pos, DbResult, ok}
use rdbms.Page.Format.{PageType, Page}
use rdbms.Page.Ops.{new}
use rdbms.Page.Shape.{IsWellFormed, page_id}
use rdbms.Vfs.Memory.{memory}
use rdbms.Index.Format.{integer, IndexEntry, leaf, cmp_key, cmp_int, cmp_row, compare_entry}
use rdbms.Index.RoundTrip.{IsEntry}
use rdbms.Index.Codec.{node_to_page, node_from_page}
use rdbms.Index.Size.{node_from_page-node_to_page}
use rdbms.Index.Tree.{initialize_root, insert, lookup}
use rdbms.Index.Forest.{Tree, leaf_at, root, entries_of, size}
use rdbms.Index.Every.{Every}
use rdbms.Index.Ordered.{IsOrdered, IsSorted}
use rdbms.Index.Inserted.{Inserts}
use rdbms.Index.Fresh.{In, IsDistinct}
use rdbms.Index.Narrow.{IsNarrow}
use rdbms.Index.Stored.{IsPageStore, Rep}
use rdbms.Index.Leaves.{rows_of}
use rdbms.Index.Contract.{insert-IsIndex, lookup-IsIndex, lookup-insert}
use rdbms.Index.Root.{IsIndex, initialize_root-IsIndex}
use rdbms.Tx.Index.{transaction_store, staged_view, transaction_store-IsPageStore}
use rdbms.Tx.State.{Transaction, active}
use rdbms.Tx.Pages.{DirtyPages, get_page}
use rdbms.Tx.Work.{load_page}

abbrev any_text : List ℕ → Bool
any_text bytes = true

abbrev entry_of : ℕ → PageId → IndexEntry
entry_of k p = record { key = integer (pos k); row_id = record { page_id = p; slot_id = 0 } }

-- Key 2 stands twice.
abbrev full : List IndexEntry
full = entry_of 1 9 ∷ entry_of 2 8 ∷ entry_of 2 9 ∷ entry_of 4 7 ∷ []

abbrev page_or_new : DbResult Page → Page
page_or_new (ok p) = p
page_or_new _ = new 0 PageType.index

abbrev full_page : Page
full_page = page_or_new (node_to_page 3 (leaf none full))

abbrev File : Type 0
File = List ℕ

abbrev staged : DirtyPages → Transaction File
staged pages = record {
  manager = record {
    store = record {
      page_file = [];
      catalog = record { next_relation_id = 1; next_page_id = 4; relations = []; extensions = [] };
    };
    wal = record { file = []; allocator = record { next = 1 } };
    next_tx_id = 2;
    active_writer = true;
  };
  tx_id = 1;
  working_catalog = record {
    next_relation_id = 1;
    next_page_id = 4;
    relations = [];
    extensions = [];
  };
  dirty_pages = pages;
  state = active;
}

abbrev indexed : Transaction File
indexed = staged ((3, full_page) ∷ [])

entry_of-IsEntry : (k : ℕ) (p : PageId) → k < 2 ^ 63 → p < 2 ^ 64 → IsEntry any_text (entry_of k p)
entry_of-IsEntry k p a b = record { key = a; page = b; slot = omega arith }

full_fits :
    (q : Page) × (node_to_page 3 (leaf none full) ≡ ok q)
    × IsWellFormed q PageType.index
    × (page_id q ≡ 3)
    × (node_from_page any_text q ≡ ok (leaf none full))
full_fits =
    node_from_page-node_to_page any_text 3 (leaf none full) (omega arith)
      (
        tt,
        omega arith,
        (
          entry_of-IsEntry 1 9 (omega arith) (omega arith),
          (
            entry_of-IsEntry 2 8 (omega arith) (omega arith),
            (
              entry_of-IsEntry 2 9 (omega arith) (omega arith),
              (entry_of-IsEntry 4 7 (omega arith) (omega arith), tt),
            ),
          ),
        ),
      )
      (omega arith, (tt, (tt, (tt, (tt, tt)))))

full_read : node_from_page any_text full_page ≡ ok (leaf none full)
full_read = let (q, encoded, well, named, read) = full_fits in rw encoded read

indexed-IsIndex :
    IsIndex any_text
      (transaction_store memory)
      (staged_view memory)
      (transaction_store-IsPageStore memory)
      indexed
      (leaf_at 3 full)
unfolding In IsDistinct IsNarrow Every IsOrdered IsSorted Rep load_page get_page compare_entry
    cmp_key cmp_int cmp_row
indexed-IsIndex = record {
  valid = (tt, tt);
  sound = record {
    distinct = tt;
    below = λ i p. omega (arith, p);
    narrow = omega arith;
    fit = (
      (entry_of-IsEntry 1 9 (omega arith) (omega arith), tt),
      (
        (entry_of-IsEntry 2 8 (omega arith) (omega arith), tt),
        (
          (entry_of-IsEntry 2 9 (omega arith) (omega arith), tt),
          ((entry_of-IsEntry 4 7 (omega arith) (omega arith), tt), tt),
        ),
      ),
    );
  };
  ordered = ((refl, (refl, (refl, tt))), ((refl, (refl, tt)), ((refl, tt), (tt, tt))));
  rep = record { page = full_page; held = refl; read = full_read };
}

node_from_page-node_to_page_example :
    (q : Page) × (node_to_page 3 (leaf (some 5) full) ≡ ok q)
    × IsWellFormed q PageType.index
    × (page_id q ≡ 3)
    × (node_from_page any_text q ≡ ok (leaf (some 5) full))
node_from_page-node_to_page_example =
    node_from_page-node_to_page any_text 3 (leaf (some 5) full) (omega arith)
      (
        omega arith,
        omega arith,
        (
          entry_of-IsEntry 1 9 (omega arith) (omega arith),
          (
            entry_of-IsEntry 2 8 (omega arith) (omega arith),
            (
              entry_of-IsEntry 2 9 (omega arith) (omega arith),
              (entry_of-IsEntry 4 7 (omega arith) (omega arith), tt),
            ),
          ),
        ),
      )
      (omega arith, (tt, (tt, (tt, (tt, tt)))))

transaction_store-IsPageStore_example : IsPageStore (transaction_store memory) (staged_view memory)
transaction_store-IsPageStore_example = transaction_store-IsPageStore memory

initialize_root-IsIndex_example :
    (s' : Transaction File) × (initialize_root any_text (transaction_store memory) 3 (staged [])
      ≡ (ok tt, s'))
    × IsIndex any_text
        (transaction_store memory)
        (staged_view memory)
        (transaction_store-IsPageStore memory)
        s'
        (leaf_at 3 [])
initialize_root-IsIndex_example =
    initialize_root-IsIndex any_text (transaction_store memory) (staged_view memory)
      (transaction_store-IsPageStore memory) (staged []) 3 tt (omega arith) (omega arith)

-- The leaf is split and gets a root above it.
insert-IsIndex_example :
    (s' : Transaction File) × (t' : Tree) × (insert any_text
        (transaction_store memory)
        1
        3
        (entry_of 2 7)
        indexed
      ≡ (ok (root t'), s'))
    × IsIndex any_text
        (transaction_store memory)
        (staged_view memory)
        (transaction_store-IsPageStore memory)
        s'
        t'
    × Inserts (entry_of 2 7) full (entries_of t')
unfolding size entries_of
insert-IsIndex_example =
    insert-IsIndex any_text (transaction_store memory) (staged_view memory)
      (transaction_store-IsPageStore memory) indexed (leaf_at 3 full) (entry_of 2 7) 1
      indexed-IsIndex (entry_of-IsEntry 2 7 (omega arith) (omega arith), tt) (omega arith)
      (omega arith)

lookup-IsIndex_example :
    lookup any_text (transaction_store memory) 1 3 (integer (pos 2)) indexed
    ≡ (ok (rows_of (integer (pos 2)) full), indexed)
unfolding size entries_of
lookup-IsIndex_example =
    lookup-IsIndex any_text (transaction_store memory) (staged_view memory)
      (transaction_store-IsPageStore memory) indexed (leaf_at 3 full) (integer (pos 2)) 1
      indexed-IsIndex (omega arith)

lookup-insert_example :
    (s' : Transaction File) × (new_root : PageId) × (more_fuel : ℕ) × (rows : List RowId)
    × (new_rows : List RowId) × (lookup any_text
          (transaction_store memory)
          1
          3
          (integer (pos 2))
          indexed
        ≡ (ok rows, indexed))
    × (insert any_text (transaction_store memory) 1 3 (entry_of 2 7) indexed ≡ (ok new_root, s'))
    × (lookup any_text (transaction_store memory) more_fuel new_root (integer (pos 2)) s'
        ≡ (ok new_rows, s'))
    × (((cmp_key (integer (pos 2)) (integer (pos 2)) ≡ eq)
          × Inserts (record { page_id = 7; slot_id = 0 }) rows new_rows)
        ⊎ ((cmp_key (integer (pos 2)) (integer (pos 2)) ≢ eq) × (new_rows ≡ rows)))
unfolding size
lookup-insert_example =
    lookup-insert any_text (transaction_store memory) (staged_view memory)
      (transaction_store-IsPageStore memory) indexed (leaf_at 3 full) (entry_of 2 7) 1
      (integer (pos 2)) indexed-IsIndex (entry_of-IsEntry 2 7 (omega arith) (omega arith), tt)
      (omega arith) (omega arith)
