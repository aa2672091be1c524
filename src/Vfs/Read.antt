-- ===== src/Vfs/Read.antt =====
-- The methods of `PageFile` on `&self`, crates/rdbms_vfs/src/lib.rs.
use rdbms.Prelude.{ℕ, ◌*◌, ◌^◌, not, ltb, ◌==◌, if◌then◌else◌}
use rdbms.Core.{PageId, DbResult, ok, err, user, corruption, reject, ◌>>=◌, ◌>>◌}
use rdbms.Page.Format.{page_size, Page, header, from_bytes}
use rdbms.Vfs.File.{VfsFile}

-- Page `N` starts at offset `N * PAGE_SIZE`.
unfoldable pub page_offset : PageId → DbResult ℕ
page_offset page_id =
    if ltb (page_id * page_size) (2 ^ 64) then ok (page_id * page_size) else err user

module _ (vfs : VfsFile) where
  open vfs use {File, read_exact_at}

  unfoldable pub read_page : PageId → File → DbResult Page
  read_page page_id file = do
    offset ← page_offset page_id
    bytes ← read_exact_at offset page_size file
    page ← from_bytes bytes
    h ← header page
    reject (not (h.page_id == page_id)) corruption
    ok page
