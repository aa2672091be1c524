-- ===== src/Vfs/PageFile.antt =====
-- The methods of `PageFile` on `&mut self`, crates/rdbms_vfs/src/lib.rs.
use rdbms.Prelude.{not, ◌==◌}
use rdbms.Core.{PageId, user, reject}
use rdbms.Exec.{Exec, lift, ◌>>=◌, ◌>>◌}
use rdbms.Page.Format.{Page, header, validate}
use rdbms.Vfs.File.{VfsFile}
use rdbms.Vfs.Read.{page_offset}

module _ (vfs : VfsFile) where
  open vfs use {File, write_all_at}

  unfoldable pub write_page_at : PageId → Page → Exec File (Unit {0})
  write_page_at page_id page = do
    lift (validate page)
    h ← lift (header page)
    lift (reject (not (h.page_id == page_id)) user)
    offset ← lift (page_offset page_id)
    write_all_at offset page.bytes

  unfoldable pub write_page : Page → Exec File (Unit {0})
  write_page page = do h ← lift (header page); write_page_at h.page_id page
