-- ===== src/Tx/Pages.antt =====
-- `BTreeMap<PageId, Page>`, the staged pages of a transaction: the pairs in the order of their keys.
use rdbms.Prelude.{Option, none, some, List, [], ◌∷◌, ltb, ◌==◌, if◌then◌else◌}
use rdbms.Core.{PageId}
use rdbms.Page.Format.{Page}

abbrev pub DirtyPages : Type 0
DirtyPages = List (PageId × Page)

unfoldable pub get_page : PageId → DirtyPages → Option Page
get_page id [] = none
get_page id ((k, page) ∷ pages) = if k == id then some page else get_page id pages

unfoldable pub insert_page : PageId → Page → DirtyPages → DirtyPages
insert_page id new [] = (id, new) ∷ []
insert_page id new ((k, page) ∷ pages) =
    if ltb id k
    then (id, new) ∷ (k, page) ∷ pages
    else if k == id
    then (id, new) ∷ pages
    else (k, page) ∷ insert_page id new pages

-- `dirty_pages.values()`
unfoldable pub values : DirtyPages → List Page
values [] = []
values ((k, page) ∷ pages) = page ∷ values pages
