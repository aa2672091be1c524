-- ===== src/Vfs/RoundTrip.antt =====
-- What `read_page` returns after `write_page_at`.
use rdbms.Prelude.{◌+◌, ◌*◌, ◌^◌, ◌<◌, ◌≡◌, ◌≢◌, sym, ap, ◌∙◌, arith, length, lt→ltb, ==_refl}
use rdbms.Core.{PageId, ok}
use rdbms.Bytes.{slice}
use rdbms.Page.Shape.{page_id, header_of, header_ok, validate_ok, IsWellFormed}
use rdbms.Page.Format.{PageType, page_size, PageHeader, Page, header, validate, from_bytes}
use rdbms.Vfs.Overlay.{overlay, slice-overlay_self, slice-overlay_other, length-overlay}
use rdbms.Vfs.File.{VfsFile, FileLaws, NeverFails, max_offset}
use rdbms.Vfs.Read.{page_offset, read_page}
use rdbms.Vfs.PageFile.{write_page, write_page_at}

offset_small : (id : PageId) → page_offset id ≡ ok (id * page_size) → id * page_size < 2 ^ 64
unfolding page_offset
offset_small id e = ground arith

module _ (vfs : VfsFile) where
  open vfs use {File, read_exact_at, write_all_at}

  -- What a successful `write_page_at` has checked, and the one write that it has made.
  pub record Wrote (page_id : PageId) (p : Page) (f g : File) : Type 0 where
    pub valid : validate p ≡ ok tt
    pub parsed : (h : PageHeader) × (header p ≡ ok h) × (h.page_id ≡ page_id)
    pub offset : page_offset page_id ≡ ok (page_id * page_size)
    pub written : (write_all_at (page_id * page_size) p.bytes f).0 ≡ ok tt
    pub after : g ≡ (write_all_at (page_id * page_size) p.bytes f).1

  pub write_page_at_inv :
      (id : PageId) (p : Page) (f : File)
      → (write_page_at vfs id p f).0 ≡ ok tt
      → Wrote id p f (write_page_at vfs id p f).1
  unfolding write_page_at page_offset
  write_page_at_inv id p f e = ground arith

  pub write_page_at_ok :
      (id : PageId) (p : Page) (f : File) (h : PageHeader)
      → validate p ≡ ok tt
      → header p ≡ ok h
      → h.page_id ≡ id
      → id * page_size < 2 ^ 64
      → write_page_at vfs id p f ≡ write_all_at (id * page_size) p.bytes f
  unfolding write_page_at page_offset
  write_page_at_ok id p f h v e i small = rw (v, e, i, ==_refl id, lt→ltb _ _ small)

  -- Whatever `read_page` returns is valid and carries the requested id.
  pub read_page_sound :
      (id : PageId) (p : Page) (f : File)
      → read_page vfs id f ≡ ok p
      → (validate p ≡ ok tt) × ((h : PageHeader) → header p ≡ ok h → h.page_id ≡ id)
  unfolding read_page from_bytes
  read_page_sound id p f e = (ground arith, λ h e'. ground arith)

  read_page_bytes :
      (id : PageId) (p : Page) (f : File)
      → read_page vfs id f ≡ ok p
      → read_exact_at (id * page_size) page_size f ≡ ok p.bytes
  unfolding read_page from_bytes page_offset
  read_page_bytes id p f e = ground arith

  read_page_congr :
      (id : PageId) (f g : File)
      → read_exact_at (id * page_size) page_size f ≡ read_exact_at (id * page_size) page_size g
      → read_page vfs id f ≡ read_page vfs id g
  unfolding read_page from_bytes page_offset
  read_page_congr id f g e = ground arith

  read_page_ok :
      (id : PageId) (p : Page) (f : File) (h : PageHeader)
      → validate p ≡ ok tt
      → header p ≡ ok h
      → h.page_id ≡ id
      → id * page_size < 2 ^ 64
      → read_exact_at (id * page_size) page_size f ≡ ok p.bytes
      → read_page vfs id f ≡ ok p
  unfolding read_page from_bytes page_offset
  read_page_ok id p f h v e i small r = rw (lt→ltb _ _ small, r, v, e, i, ==_refl id)

module _ (vfs : VfsFile) (laws : FileLaws vfs) (healthy : NeverFails vfs laws) where
  open vfs use {File, read_exact_at, write_all_at}
  open laws use {content, write_is_overlay, read_is_slice}

  content_after :
      (id : PageId) (p : Page) (f g : File)
      → Wrote vfs id p f g
      → content g ≡ overlay (content f) (id * page_size) p.bytes
  content_after id p f g r =
      ap content r.after ∙ write_is_overlay (id * page_size) p.bytes f r.written

  -- On a disk that does not fail, a page of 4096 bytes that `write_page_at` has written is what
  -- `read_page` returns for its id.
  pub read_page-write_page_at_self :
      (id : PageId) (p : Page) (f : File)
      → length p.bytes ≡ page_size
      → (write_page_at vfs id p f).0 ≡ ok tt
      → read_page vfs id (write_page_at vfs id p f).1 ≡ ok p
  read_page-write_page_at_self id p f sized e =
      let g = (write_page_at vfs id p f).1 in
      let r = write_page_at_inv vfs id p f e in
      let (h, is_header, same) = r.parsed in
      let now = content_after id p f g r in
      let (grows, fits) = length-overlay (content f) (id * page_size) p.bytes in
      let small : id * page_size < 2 ^ 64 = offset_small id r.offset in
      read_page_ok vfs id p g h r.valid is_header same small (
        healthy.reads (id * page_size) page_size g (omega (arith, ap length now, fits))
        ∙ ap ok (
            ap (λ c. slice c (id * page_size) page_size) now
            ∙ rw sized at (slice-overlay_self (content f) (id * page_size) p.bytes)))

  -- On a disk that does not fail, any other page that could be read before it reads the same after.
  pub read_page-write_page_at_other :
      (id other : PageId) (p q : Page) (f : File)
      → other ≢ id
      → length p.bytes ≡ page_size
      → (write_page_at vfs id p f).0 ≡ ok tt
      → read_page vfs other f ≡ ok q
      → read_page vfs other (write_page_at vfs id p f).1 ≡ ok q
  read_page-write_page_at_other id other p q f ne sized e old =
      let g = (write_page_at vfs id p f).1 in
      let now = content_after id p f g (write_page_at_inv vfs id p f e) in
      let before = read_page_bytes vfs other q f old in
      let (there, _) = read_is_slice (other * page_size) page_size f q.bytes before in
      let (grows, _) = length-overlay (content f) (id * page_size) p.bytes in
      let kept : slice (content g) (other * page_size) page_size
          ≡ slice (content f) (other * page_size) page_size =
        ap (λ c. slice c (other * page_size) page_size) now
        ∙ slice-overlay_other (content f) (id * page_size) p.bytes (other * page_size) page_size
            there (ground arith) in
      read_page_congr vfs other g f (
        healthy.reads (other * page_size) page_size g (omega (arith, ap length now))
        ∙ ap ok kept
        ∙ sym (healthy.reads (other * page_size) page_size f there))
      ∙ old

  -- Pages are read from the bytes of the file.
  pub read_page-content :
      (id : PageId) (p : Page) (f g : File)
      → content g ≡ content f
      → read_page vfs id f ≡ ok p
      → read_page vfs id g ≡ ok p
  read_page-content id p f g same old =
      let (there, is) =
        read_is_slice (id * page_size) page_size f p.bytes (read_page_bytes vfs id p f old) in
      read_page_congr vfs id g f (
        healthy.reads (id * page_size) page_size g (omega (arith, ap length same))
        ∙ ap (λ c. ok (slice c (id * page_size) page_size)) same
        ∙ sym (healthy.reads (id * page_size) page_size f there))
      ∙ old

  -- A well-formed page below the largest offset is written, and reads back.
  pub write_page_ok :
      (id : PageId) (p : Page) (t : PageType) (f : File)
      → IsWellFormed p t
      → page_id p ≡ id
      → id * page_size + page_size < max_offset
      → ((write_page vfs p f).0 ≡ ok tt)
        × (content (write_page vfs p f).1 ≡ overlay (content f) (id * page_size) p.bytes)
        × (read_page vfs id (write_page vfs p f).1 ≡ ok p)
  unfolding write_page
  write_page_ok id p t f well named room =
      let parsed = header_ok p well.formatted in
      let at =
        write_page_at_ok vfs id p f (header_of p t) (validate_ok p t well) parsed named
          (omega (arith, room)) in
      let done : (write_page_at vfs id p f).0 ≡ ok tt =
        rw at (healthy.writes (id * page_size) p.bytes f (omega (arith, room, well.page.sized))) in
      rw (parsed, named)
        (
          done,
          content_after id p f (write_page_at vfs id p f).1 (write_page_at_inv vfs id p f done),
          read_page-write_page_at_self id p f well.page.sized done,
        )
