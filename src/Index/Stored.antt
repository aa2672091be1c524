-- ===== src/Index/Stored.antt =====
-- crates/rdbms_index/src/lib.rs: what the tree asks of its page store, and the pages that stand for a
-- tree.
use rdbms.Prelude.{ℕ, ◌+◌, ◌^◌, ◌<◌, ◌≡◌, ◌≢◌, refl, ap, ◌∙◌, Bool, inl, inr, Option, some, List}
use rdbms.Core.{PageId, ok}
use rdbms.Exec.{bind_run, lift}
use rdbms.Page.Format.{Page, PageType}
use rdbms.Page.Shape.{IsWellFormed, page_id}
use rdbms.Index.Format.{IndexKey, IndexEntry, BTreeNode, leaf, internal}
use rdbms.Index.Codec.{node_from_page, node_to_page}
use rdbms.Index.RoundTrip.{IsKey, IsEntry, IsNode}
use rdbms.Index.Size.{IsShort, IsSmall, node_from_page-node_to_page}
use rdbms.Index.Tree.{BPlusTreePageStore, load_node, store_node}
use rdbms.Index.Forest.{
  Tree, leaf_at, node_at, Forest, last, more, Grown, one, two, keys_of, children_of, leftmost,
  leftmost_in,
}
use rdbms.Index.Fresh.{In, InForest}

-- How the states of a store are read: the valid ones, the pages in them and the next fresh page id.
pub record PageView (S : Type 0) : Type 1 where
  pub IsValid : S → Type 0
  pub Holds : S → PageId → Page → Type 0
  pub next : S → PageId

-- What the tree relies on: the store keeps what it is given, under the page's own id, and hands out
-- page ids in ascending order.
pub record IsPageStore {S : Type 0} (store : BPlusTreePageStore S) (view : PageView S)
    : Type 0 where
  pub loads :
      (s : S) (id : PageId) (p : Page)
      → view.IsValid s
      → view.Holds s id p
      → store.load_page id s ≡ (ok p, s)
  pub stores :
      (s : S) (p : Page)
      → view.IsValid s
      → IsWellFormed p PageType.index
      → (s' : S) × (store.store_page p s ≡ (ok tt, s'))
        × view.IsValid s'
        × (view.next s' ≡ view.next s)
        × view.Holds s' (page_id p) p
        × ((i : PageId) (q : Page) → i ≢ page_id p → view.Holds s i q → view.Holds s' i q)
  pub allocates :
      (s : S)
      → view.IsValid s
      → view.next s + 1 < 2 ^ 64
      → (s' : S) × (store.allocate_page s ≡ (ok (view.next s), s'))
        × view.IsValid s'
        × (view.next s' ≡ view.next s + 1)
        × ((i : PageId) (q : Page) → view.Holds s i q → view.Holds s' i q)

-- Keys and entries that are in range and fit, four to a page.
abbrev pub IsFitKey : (List ℕ → Bool) → IndexKey → Type 0
IsFitKey is_utf8 k = IsKey is_utf8 k × IsShort k

abbrev pub IsFitEntry : (List ℕ → Bool) → IndexEntry → Type 0
IsFitEntry is_utf8 e = IsEntry is_utf8 e × IsShort e.key

module _ {S : Type 0} (is_utf8 : List ℕ → Bool) (store : BPlusTreePageStore S) (view : PageView S)
    (laws : IsPageStore store view) where
  -- The page with the id holds the node.
  pub record Has (s : S) (id : PageId) (node : BTreeNode) : Type 0 where
    pub page : Page
    pub held : view.Holds s id page
    pub read : node_from_page is_utf8 page ≡ ok node

  pub load_node_run :
      (s : S) (id : PageId) (node : BTreeNode)
      → view.IsValid s
      → Has s id node
      → load_node is_utf8 store id s ≡ (ok node, s)
  unfolding load_node
  load_node_run s id node valid h =
      bind_run (store.load_page id) _ s s h.page (laws.loads s id h.page valid h.held)
      ∙ ap (λ r. (r, s)) h.read

  pub record Stored (s s' : S) (id : PageId) (node : BTreeNode) : Type 0 where
    pub run : store_node is_utf8 store id node s ≡ (ok tt, s')
    pub valid : view.IsValid s'
    pub next : view.next s' ≡ view.next s
    pub has : Has s' id node
    pub others : (i : PageId) (m : BTreeNode) → i ≢ id → Has s i m → Has s' i m

  pub store_node_run :
      (s : S) (id : PageId) (node : BTreeNode)
      → view.IsValid s
      → id < 2 ^ 64
      → IsNode is_utf8 node
      → IsSmall node
      → (s' : S) × Stored s s' id node
  unfolding store_node
  store_node_run s id node valid lt is small =
      let (q, encoded, well, named, read) =
        node_from_page-node_to_page is_utf8 id node lt is small in
      let (s', run, valid', next', held, others) = laws.stores s q valid well in
      (
        s',
        record {
          run =
              bind_run (lift (node_to_page id node)) store.store_page s s q
                (ap (λ r. (r, s)) encoded)
              ∙ run;
          valid = valid';
          next = next';
          has = record { page = q; held = rw named at held; read = read };
          others = λ i m ne h. record {
            page = h.page;
            held = others i h.page (rw named ne) h.held;
            read = h.read;
          };
        },
      )

  -- The pages of a tree whose rightmost leaf has the given successor.
  unfoldable mutual
    pub Rep : S → Tree → Option PageId → Type 0
    Rep s (leaf_at id entries) nxt = Has s id (leaf nxt entries)
    Rep s (node_at id f) nxt = Has s id (internal (keys_of f) (children_of f)) × RepIn s f nxt

    pub RepIn : S → Forest → Option PageId → Type 0
    RepIn s (last t) nxt = Rep s t nxt
    RepIn s (more t k f) nxt = Rep s t (some (leftmost_in f)) × RepIn s f nxt

  abbrev pub RepOf : S → Grown → Option PageId → Type 0
  RepOf s (one t) nxt = Rep s t nxt
  RepOf s (two a k b) nxt = Rep s a (some (leftmost b)) × Rep s b nxt

  -- A tree whose pages are kept is kept.
  mutual
    unfolding Rep In

    pub Rep-frame :
        (s s' : S) (t : Tree) (nxt : Option PageId)
        → ((i : PageId) (m : BTreeNode) → In i t → Has s i m → Has s' i m)
        → Rep s t nxt
        → Rep s' t nxt
    Rep-frame s s' (leaf_at id es) nxt keeps h = keeps id _ refl h
    Rep-frame s s' (node_at id f) nxt keeps (h, hs) =
        (keeps id _ (inl refl) h, RepIn-frame s s' f nxt (λ i m p. keeps i m (inr p)) hs)

    pub RepIn-frame :
        (s s' : S) (f : Forest) (nxt : Option PageId)
        → ((i : PageId) (m : BTreeNode) → InForest i f → Has s i m → Has s' i m)
        → RepIn s f nxt
        → RepIn s' f nxt
    RepIn-frame s s' (last t) nxt keeps h = Rep-frame s s' t nxt keeps h
    RepIn-frame s s' (more t k f) nxt keeps (h, hs) = (
      Rep-frame s s' t _ (λ i m p. keeps i m (inl p)) h,
      RepIn-frame s s' f nxt (λ i m p. keeps i m (inr p)) hs,
    )
