-- ===== src/Tx/Stages.antt =====
-- The calls of a transaction before it ends, crates/rdbms_tx/src/lib.rs, and the store that it holds.
use rdbms.Prelude.{ℕ, ◌≡◌, refl, ◌∙◌, Bool, true, false, if◌then◌else◌, List, [], ◌∷◌}
use rdbms.Core.{PageId, RelationId, RowId, DbResult}
use rdbms.Exec.{bind-post, Exec, pure, lift, gets, modify, ◌>>=◌}
use rdbms.Page.Format.{Page}
use rdbms.Vfs.File.{VfsFile}
use rdbms.Catalog.Format.{Text, ColumnDef, Catalog}
use rdbms.Catalog.Scan.{insert_into}
use rdbms.Catalog.Store.{Attempt, stored, next, attempt}
use rdbms.Tx.State.{Transaction}
use rdbms.Tx.Work.{
  stage, mark_catalog_dirty, register_extension, create_table, stage_row, insert_new_page,
  load_page, insert_in_pages, insert_row, on_working,
}

-- An action that leaves the store, the id and the state of its transaction alone.
module _ {F : Type 0} where
  abbrev pub IsKept : Transaction F → Transaction F → Type 0
  IsKept t u = (u.manager ≡ t.manager) × (u.tx_id ≡ t.tx_id) × (u.state ≡ t.state)

  pub record Stages {A : Type 0} (m : Exec (Transaction F) A) : Type 0 where
    pub keeps : (t : Transaction F) → IsKept t (m t).1

  IsKept-trans : (t u v : Transaction F) → IsKept t u → IsKept u v → IsKept t v
  IsKept-trans t u v (a, b, c) (x, y, z) = (x ∙ a, y ∙ b, z ∙ c)

  pub Stages-bind :
      {A B : Type 0} (m : Exec (Transaction F) A) (k : A → Exec (Transaction F) B)
      → Stages m
      → ((a : A) → Stages (k a))
      → Stages (m >>= k)
  Stages-bind m k x y = record {
    keeps = λ t.
        bind-post (IsKept t) m k t (x.keeps t)
          (λ a. IsKept-trans t (m t).1 (k a (m t).1).1 (x.keeps t) ((y a).keeps (m t).1));
  }

  pub Stages-gets : {A : Type 0} (f : Transaction F → DbResult A) → Stages (gets f)
  Stages-gets f = record { keeps = λ t. (refl, refl, refl) }

  pub Stages-lift : {A : Type 0} (r : DbResult A) → Stages (lift r)
  Stages-lift r = record { keeps = λ t. (refl, refl, refl) }

  pub Stages-pure : {A : Type 0} (a : A) → Stages (pure a)
  Stages-pure a = record { keeps = λ t. (refl, refl, refl) }

  pub Stages-stage : (id : PageId) (page : Page) → Stages (modify (stage id page))
  unfolding stage
  Stages-stage id page = record { keeps = λ t. (refl, refl, refl) }

  pub Stages-working : {A : Type 0} (m : Exec Catalog A) → Stages (on_working m)
  Stages-working m = record { keeps = λ t. (refl, refl, refl) }

  pub ruleset staging =
      (Stages-bind, Stages-gets, Stages-lift, Stages-pure, Stages-stage, Stages-working)

  pub mark_catalog_dirty-Stages : Stages mark_catalog_dirty
  unfolding mark_catalog_dirty
  mark_catalog_dirty-Stages = search staging

  pub create_table-Stages :
      (name : Text) (columns : List ColumnDef) → Stages (create_table name columns)
  unfolding create_table
  create_table-Stages name columns = search (staging, mark_catalog_dirty-Stages)

  pub Stages-if :
      {A : Type 0} (b : Bool) (m n : Exec (Transaction F) A)
      → Stages m
      → Stages n
      → Stages (if b then m else n)
  Stages-if true m n x y = x
  Stages-if false m n x y = y

  pub register_extension-Stages :
      (name : Text) (abi_version : ℕ) (kind : Text)
      → Stages (register_extension name abi_version kind)
  unfolding register_extension
  register_extension-Stages name abi_version kind =
      search (staging, Stages-if, mark_catalog_dirty-Stages)

  insert_new_page-Stages :
      (relation_id : RelationId) (bytes : List ℕ) → Stages (insert_new_page relation_id bytes)
  unfolding insert_new_page
  insert_new_page-Stages relation_id bytes = search (staging, mark_catalog_dirty-Stages) depth 12

  stage_row-Stages :
      (outcome : Attempt) (id : PageId) (others : Exec (Transaction F) RowId)
      → Stages others
      → Stages (stage_row outcome id others)
  unfolding stage_row
  stage_row-Stages (stored slot_id page) id others x = search staging
  stage_row-Stages next id others x = x

module _ (vfs : VfsFile) where
  open vfs use {File}

  insert_in_pages-Stages :
      (relation_id : RelationId) (bytes : List ℕ) (ids : List PageId)
      → Stages (insert_in_pages vfs relation_id bytes ids)
  unfolding insert_in_pages
  insert_in_pages-Stages relation_id bytes [] = insert_new_page-Stages relation_id bytes
  insert_in_pages-Stages relation_id bytes (id ∷ ids) =
      Stages-bind (gets (load_page vfs id)) _ (Stages-gets (load_page vfs id)) (λ page.
        Stages-bind (lift (attempt (insert_into bytes page))) _ (Stages-lift _)
          (λ outcome. stage_row-Stages outcome id _ (insert_in_pages-Stages relation_id bytes ids)))

  pub insert_row-Stages :
      (relation_id : RelationId) (bytes : List ℕ) → Stages (insert_row vfs relation_id bytes)
  unfolding insert_row
  insert_row-Stages relation_id bytes = search (staging, insert_in_pages-Stages)
