-- ===== src/Vfs/Runs.antt =====
-- The theorems of the page file at a file in memory.
use rdbms.Prelude.{ℕ, ◌≤◌, ◌≡◌, ap, arith, List, []}
use rdbms.Core.{ok}
use rdbms.Page.Format.{heap, PageHeader, header, validate}
use rdbms.Page.Ops.{new}
use rdbms.Page.Shape.{header_of, header_ok, validate_ok}
use rdbms.Page.New.{new-IsWellFormed}
use rdbms.Vfs.Read.{read_page}
use rdbms.Vfs.PageFile.{write_page_at}
use rdbms.Vfs.RoundTrip.{
  write_page_at_ok, read_page_sound, read_page-write_page_at_self, read_page-write_page_at_other,
}
use rdbms.Vfs.Memory.{memory, memory_laws, memory_healthy}

wrote :
    (id : ℕ) (f : List ℕ) (small : id ≤ 100) → (write_page_at memory id (new id heap) f).0 ≡ ok tt
wrote id f small =
    let (well, same, empty, room) = new-IsWellFormed id heap (omega arith) in
    ap (λ r. r.0)
      (write_page_at_ok memory id (new id heap) f (header_of (new id heap) heap)
        (validate_ok (new id heap) heap well) (header_ok (new id heap) well.formatted) same
        (omega arith))

-- A file with one page, the page 1.
one_page : List ℕ
one_page = (write_page_at memory 1 (new 1 heap) []).1

one_page_read : read_page memory 1 one_page ≡ ok (new 1 heap)
unfolding one_page
one_page_read =
    read_page-write_page_at_self memory memory_laws memory_healthy 1 (new 1 heap) []
      (new-IsWellFormed 1 heap (omega arith)).0.page.sized (wrote 1 [] (omega arith))

read_page-write_page_at_self_example :
    read_page memory 0 (write_page_at memory 0 (new 0 heap) one_page).1 ≡ ok (new 0 heap)
read_page-write_page_at_self_example =
    read_page-write_page_at_self memory memory_laws memory_healthy 0 (new 0 heap) one_page
      (new-IsWellFormed 0 heap (omega arith)).0.page.sized (wrote 0 one_page (omega arith))

read_page-write_page_at_other_example :
    read_page memory 1 (write_page_at memory 0 (new 0 heap) one_page).1 ≡ ok (new 1 heap)
read_page-write_page_at_other_example =
    read_page-write_page_at_other memory memory_laws memory_healthy 0 1 (new 0 heap) (new 1 heap)
      one_page (λ e. omega arith) (new-IsWellFormed 0 heap (omega arith)).0.page.sized
      (wrote 0 one_page (omega arith)) one_page_read

read_page_sound_example :
    (validate (new 1 heap) ≡ ok tt)
    × ((h : PageHeader) → header (new 1 heap) ≡ ok h → h.page_id ≡ 1)
read_page_sound_example = read_page_sound memory 1 (new 1 heap) one_page one_page_read
