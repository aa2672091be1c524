-- ===== src/Index/Walk.antt =====
-- crates/rdbms_index/src/lib.rs: the walk of `lookup` along the leaves.
use mathlib.Core.List.{append_assoc, append-nil}
use rdbms.Prelude.{
  ℕ, zero, suc, ◌≤◌, ◌≡◌, refl, sym, ap, ◌∙◌, arith, Bool, Bool-cases, inl, inr, true, false,
  Option, none, some, List, [], ◌∷◌, ◌++◌, length,
}
use rdbms.Core.{PageId, RowId, DbResult, ok}
use rdbms.Exec.{Exec, bind_run, pure}
use rdbms.Index.Format.{IndexKey, IndexEntry, leaf}
use rdbms.Index.Tree.{BPlusTreePageStore, scan_entries, load_node, walk}
use rdbms.Index.Forest.{Tree, leaf_at, node_at, Forest, last, more, leftmost, leftmost_in}
use rdbms.Index.Stored.{PageView, IsPageStore, Has, Rep, RepIn, load_node_run}
use rdbms.Index.Leaves.{rows_of, rows_of-append, IsAscending, LeafPage, leaves_of, leaves_in, flat}
use rdbms.Index.Scan.{scan_stopped, scan_passed, IsAscending-back}

unfoldable pub first_page : List LeafPage → Option PageId → Option PageId
first_page [] nxt = nxt
first_page (l ∷ ls) nxt = some l.page

first_page-append :
    (ls ls' : List LeafPage) (nxt : Option PageId)
    → first_page (ls ++ ls') nxt ≡ first_page ls (first_page ls' nxt)
unfolding first_page
first_page-append [] ls' nxt = refl
first_page-append (l ∷ ls) ls' nxt = refl

mutual
  unfolding leaves_of leftmost first_page

  first_page-leaves_of :
      (t : Tree) (nxt : Option PageId) → first_page (leaves_of t) nxt ≡ some (leftmost t)
  first_page-leaves_of (leaf_at id es) nxt = refl
  first_page-leaves_of (node_at id f) nxt = first_page-leaves_in f nxt

  first_page-leaves_in :
      (f : Forest) (nxt : Option PageId) → first_page (leaves_in f) nxt ≡ some (leftmost_in f)
  first_page-leaves_in (last t) nxt = first_page-leaves_of t nxt
  first_page-leaves_in (more t k f) nxt =
      first_page-append (leaves_of t) (leaves_in f) nxt
      ∙ first_page-leaves_of t (first_page (leaves_in f) nxt)

module _ {S : Type 0} (is_utf8 : List ℕ → Bool) (store : BPlusTreePageStore S) (view : PageView S)
    (laws : IsPageStore store view) where
  -- Each leaf names the next one.
  unfoldable pub Chain : S → List LeafPage → Option PageId → Type 0
  Chain s [] nxt = Unit
  Chain s (l ∷ ls) nxt =
      Has is_utf8 store view laws s l.page (leaf (first_page ls nxt) l.entries) × Chain s ls nxt

  Chain-append :
      (s : S) (ls ls' : List LeafPage) (nxt : Option PageId)
      → Chain s ls (first_page ls' nxt)
      → Chain s ls' nxt
      → Chain s (ls ++ ls') nxt
  unfolding Chain
  Chain-append s [] ls' nxt h k = k
  Chain-append s (l ∷ ls) ls' nxt h k =
      (rw (first_page-append ls ls' nxt) h.0, Chain-append s ls ls' nxt h.1 k)

  pub Chain-back :
      (s : S) (ls ls' : List LeafPage) (nxt : Option PageId)
      → Chain s (ls ++ ls') nxt
      → Chain s ls' nxt
  unfolding Chain
  Chain-back s [] ls' nxt h = h
  Chain-back s (l ∷ ls) ls' nxt h = Chain-back s ls ls' nxt h.1

  mutual
    unfolding Rep leaves_of Chain first_page

    pub Rep-Chain :
        (s : S) (t : Tree) (nxt : Option PageId)
        → Rep is_utf8 store view laws s t nxt
        → Chain s (leaves_of t) nxt
    Rep-Chain s (leaf_at id es) nxt h = (h, tt)
    Rep-Chain s (node_at id f) nxt h = RepIn-Chain s f nxt h.1

    RepIn-Chain :
        (s : S) (f : Forest) (nxt : Option PageId)
        → RepIn is_utf8 store view laws s f nxt
        → Chain s (leaves_in f) nxt
    RepIn-Chain s (last t) nxt h = Rep-Chain s t nxt h
    RepIn-Chain s (more t k f) nxt h =
        Chain-append s (leaves_of t) (leaves_in f) nxt
          (rw (first_page-leaves_in f nxt) (Rep-Chain s t (some (leftmost_in f)) h.0))
          (RepIn-Chain s f nxt h.1)

  module _ (fuel : ℕ) (s : S) (page : PageId) (entries : List IndexEntry) (key : IndexKey)
      (found : List RowId) (valid : view.IsValid s) where
    -- A leaf after which the walk ends, with or without a greater key in it.
    walk_ends :
        (nxt : Option PageId)
        → Has is_utf8 store view laws s page (leaf nxt entries)
        → (scan_entries key entries).1 ≡ true
        → walk is_utf8 store (suc fuel) page key found s
          ≡ (ok (found ++ (scan_entries key entries).0), s)
    unfolding walk
    walk_ends nxt has h =
        bind_run (load_node is_utf8 store page) _ s s (leaf nxt entries)
          (load_node_run is_utf8 store view laws s page _ valid has)
        ∙ ap
            (λ b.
              (elim b as (λ _. Exec S (List RowId)) [
                | true ↦ pure (found ++ (scan_entries key entries).0)
                | false ↦ elim nxt as (λ _. Exec S (List RowId)) [
                  | none ↦ pure (found ++ (scan_entries key entries).0)
                  | some next_page_id ↦
                      walk is_utf8 store fuel next_page_id key
                        (found ++ (scan_entries key entries).0)
                ]
              ])
                s)
            h

    walk_goes :
        (nxt : Option PageId)
        → Has is_utf8 store view laws s page (leaf nxt entries)
        → (scan_entries key entries).1 ≡ false
        → walk is_utf8 store (suc fuel) page key found s
          ≡ (elim nxt as (λ _. Exec S (List RowId)) [
            | none ↦ pure (found ++ (scan_entries key entries).0)
            | some next_page_id ↦
                walk is_utf8 store fuel next_page_id key (found ++ (scan_entries key entries).0)
          ])
              s
    unfolding walk
    walk_goes nxt has h =
        bind_run (load_node is_utf8 store page) _ s s (leaf nxt entries)
          (load_node_run is_utf8 store view laws s page _ valid has)
        ∙ ap
            (λ b.
              (elim b as (λ _. Exec S (List RowId)) [
                | true ↦ pure (found ++ (scan_entries key entries).0)
                | false ↦ elim nxt as (λ _. Exec S (List RowId)) [
                  | none ↦ pure (found ++ (scan_entries key entries).0)
                  | some next_page_id ↦
                      walk is_utf8 store fuel next_page_id key
                        (found ++ (scan_entries key entries).0)
                ]
              ])
                s)
            h

  same_rows :
      (s : S) (found rows rows' : List RowId)
      → rows ≡ rows'
      → ◌≡◌ {A = DbResult (List RowId) × S} (ok (found ++ rows), s) (ok (found ++ rows'), s)
  same_rows s found rows rows' h = ap (λ r. (ok (found ++ r), s)) h

  -- On ascending leaves the walk finds the rows of all entries with the key.
  pub walk_run :
      (fuel : ℕ) (s : S) (l : LeafPage) (ls : List LeafPage) (key : IndexKey) (found : List RowId)
      → view.IsValid s
      → Chain s (l ∷ ls) none
      → IsAscending (flat (l ∷ ls))
      → length (l ∷ ls) ≤ fuel
      → walk is_utf8 store fuel l.page key found s ≡ (ok (found ++ rows_of key (flat (l ∷ ls))), s)
  unfolding Chain flat first_page
  walk_run zero s l ls key found valid chain up enough = absurd (omega (arith, enough))
  walk_run (suc fuel) s l [] key found valid chain up enough =
      elim (Bool-cases (scan_entries key l.entries).1) [
        | inl stop ↦
            walk_ends fuel s l.page l.entries key found valid none chain.0 stop
            ∙ same_rows s found _ _ (sym (scan_stopped key l.entries [] up stop))
        | inr go ↦
            walk_goes fuel s l.page l.entries key found valid none chain.0 go
            ∙ same_rows s found _ _
                (sym (ap (rows_of key) (append-nil l.entries) ∙ scan_passed key l.entries go))
      ]
  walk_run (suc fuel) s l (l' ∷ ls) key found valid chain up enough =
      let later = flat (l' ∷ ls) in
      let rest =
        walk_run fuel s l' ls key (found ++ (scan_entries key l.entries).0) valid chain.1
          (IsAscending-back l.entries later up) (omega (arith, enough)) in
      elim (Bool-cases (scan_entries key l.entries).1) [
        | inl stop ↦
            walk_ends fuel s l.page l.entries key found valid (some l'.page) chain.0 stop
            ∙ same_rows s found _ _ (sym (scan_stopped key l.entries later up stop))
        | inr go ↦
            walk_goes fuel s l.page l.entries key found valid (some l'.page) chain.0 go
            ∙ (rest
                ∙ (ap (λ r. (ok r, s))
                      (append_assoc found (scan_entries key l.entries).0 (rows_of key later))
                    ∙ same_rows s found _ _ (
                        ap (λ r. r ++ rows_of key later) (sym (scan_passed key l.entries go))
                        ∙ sym (rows_of-append key l.entries later))))
      ]
