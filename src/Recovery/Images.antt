-- ===== src/Recovery/Images.antt =====
-- The images that the writer logs are those that a recovery can replay.
use rdbms.Prelude.{◌+◌, ◌*◌, ◌^◌, ◌<◌, ◌≡◌, refl, arith}
use rdbms.Core.{TxId, ok}
use rdbms.Bytes.Words.{read_le-lt}
use rdbms.Page.Format.{page_size, Page, off_page_id, PageType}
use rdbms.Page.Shape.{page_id, header_of, header_ok, validate_ok, IsWellFormed}
use rdbms.Vfs.File.{max_offset}
use rdbms.Wal.Format.{page_image, image_of_page}
use rdbms.Wal.Codec.{IsKind}
use rdbms.Recovery.Total.{IsImage}

-- A well-formed page has a log record, of its own id and bytes, that can be encoded and, where the
-- page lies below the largest offset of a file, replayed.
pub image_of_page-IsImage :
    (tx_id : TxId) (p : Page) (t : PageType)
    → tx_id < 2 ^ 64
    → IsWellFormed p t
    → page_id p * page_size + page_size < max_offset
    → (image_of_page tx_id p ≡ ok (page_image tx_id (page_id p) p.bytes))
      × IsKind (page_image tx_id (page_id p) p.bytes)
      × IsImage (page_image tx_id (page_id p) p.bytes)
unfolding image_of_page
image_of_page-IsImage tx_id p t small w room =
    let valid = validate_ok p t w in
    let parsed = header_ok p w.formatted in
    (
      rw (valid, parsed) refl,
      (
        small,
        read_le-lt 8 p.bytes off_page_id (omega (arith, w.page.sized)) w.page.in_range,
        w.page.sized,
      ),
      (header_of p t, valid, parsed, refl, omega (arith, room, w.page.sized)),
    )
