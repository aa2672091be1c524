-- ===== src/Catalog/Saved.antt =====
-- A catalog that is saved is loaded again.
use rdbms.Prelude.{
  ℕ, ◌-◌, ◌*◌, ◌^◌, ◌≤◌, ◌<◌, ◌≡◌, ◌∙◌, ltb, ◌==◌, ◌⊎◌, refl, ap, arith, Bool, false, none, some,
  List, length, All, inl, inr, Bool-cases, leb, leb→le,
}
use rdbms.Core.{PageId, ok, err, user}
use rdbms.Bytes.{IsByte}
use rdbms.Page.Format.{
  page_size, header_size, slot_size, PageType, Page, find_dead_slot, read_record,
}
use rdbms.Page.Ops.{new}
use rdbms.Page.Shape.{page_id, slot_count, header_ok, IsWellFormed}
use rdbms.Page.New.{new-IsWellFormed}
use rdbms.Page.Insert.{insert_record_ok, insert_record_full}
use rdbms.Vfs.Overlay.{length-overlay}
use rdbms.Vfs.File.{VfsFile, FileLaws, NeverFails}
use rdbms.Vfs.Read.{read_page}
use rdbms.Vfs.PageFile.{write_page}
use rdbms.Vfs.RoundTrip.{write_page_ok}
use rdbms.Catalog.Format.{catalog_page_id, Catalog}
use rdbms.Catalog.Encode.{encode_catalog, decode_catalog}
use rdbms.Catalog.RoundTrip.{IsCatalog, decode-encode_catalog}
use rdbms.Catalog.Scan.{insert_into, to_page, load_from_page}
use rdbms.Catalog.Store.{save, load_or_bootstrap}

-- The room for the first record of a page, and its slot.
abbrev pub fresh_room : ℕ
fresh_room = page_size - header_size - slot_size

-- The page that holds one record, in the slot 0.
pub record Holds (id : PageId) (t : PageType) (bytes : List ℕ) (q : Page) : Type 0 where
  pub well : IsWellFormed q t
  pub named : page_id q ≡ id
  pub stored : read_record q 0 ≡ ok (some bytes)

module _ (id : PageId) (t : PageType) (small : id < 2 ^ 64) (bytes : List ℕ)
    (in_range : All IsByte bytes) where
  no_dead : find_dead_slot (new id t) (slot_count (new id t)) 0 ≡ ok none
  unfolding find_dead_slot
  no_dead = rw (new-IsWellFormed id t small).2 refl

  pub insert_into-new :
      length bytes ≤ fresh_room
      → (q : Page) × (insert_into bytes (new id t) ≡ ok (0, q)) × Holds id t bytes q
  unfolding insert_into
  insert_into-new room =
      let (well, named, count, free) = new-IsWellFormed id t small in
      let (q, run, done) =
        insert_record_ok (new id t) t well bytes in_range none no_dead
          (λ j a b. let e : j < 0 = omega (arith, a, b, count) in ground arith)
          (omega (arith, free, room)) in
      (
        q,
        rw (run, count) refl,
        record { well = done.well; named = done.same_id ∙ named; stored = rw count at done.stored },
      )

  pub insert_into_full : fresh_room < length bytes → insert_into bytes (new id t) ≡ err user
  unfolding insert_into
  insert_into_full full =
      let (well, named, count, free) = new-IsWellFormed id t small in
      rw
        (insert_record_full (new id t) t well bytes in_range none no_dead
          (omega (arith, free, full)))
        refl

-- The page 0 of a catalog: with the encoded bytes, where they fit.
module _ (c : Catalog) (bytes : List ℕ) (in_range : All IsByte bytes)
    (coded : encode_catalog c ≡ ok bytes) where
  to_page_ok :
      length bytes ≤ fresh_room
      → (q : Page) × (to_page c ≡ ok q) × Holds catalog_page_id PageType.catalog bytes q
  unfolding to_page
  to_page_ok room =
      let (q, run, holds) =
        insert_into-new catalog_page_id PageType.catalog (omega arith) bytes in_range room in
      (q, rw (coded, run) refl, holds)

  to_page_full : fresh_room < length bytes → to_page c ≡ err user
  unfolding to_page
  to_page_full full =
      rw
        (coded, insert_into_full catalog_page_id PageType.catalog (omega arith) bytes in_range full)
        refl

load_from_page_ok :
    (is_utf8 : List ℕ → Bool) (q : Page) (bytes : List ℕ)
    → Holds catalog_page_id PageType.catalog bytes q
    → load_from_page is_utf8 q ≡ decode_catalog is_utf8 bytes
unfolding load_from_page
load_from_page_ok is_utf8 q bytes holds = rw (header_ok q holds.well.formatted, holds.stored) refl

module _ (vfs : VfsFile) (laws : FileLaws vfs) (healthy : NeverFails vfs laws)
    (is_utf8 : List ℕ → Bool) where
  open vfs use {File}

  load_or_bootstrap_ok :
      (g : File) (q : Page) (bytes : List ℕ)
      → page_size ≤ length (laws.content g)
      → read_page vfs catalog_page_id g ≡ ok q
      → Holds catalog_page_id PageType.catalog bytes q
      → load_or_bootstrap vfs is_utf8 g ≡ (decode_catalog is_utf8 bytes, g)
  unfolding load_or_bootstrap
  load_or_bootstrap_ok g q bytes big read holds =
      let some_bytes : (length (laws.content g) == 0) ≡ false = ground (arith, big) in
      let whole : ltb (length (laws.content g)) page_size ≡ false = ground (arith, big) in
      rw (healthy.lens g, some_bytes, whole, read, load_from_page_ok is_utf8 q bytes holds) refl

  -- On a disk that does not fail, a catalog that can be encoded, to bytes that fit beside the header of
  -- one page and a slot, is saved, and loading the file gives it back. A larger one is a user error that
  -- leaves the file as it was.
  pub load_or_bootstrap-save :
      (c : Catalog) (bytes : List ℕ) (f : File)
      → IsCatalog is_utf8 c
      → encode_catalog c ≡ ok bytes
      → All IsByte bytes
      → ((length bytes ≤ fresh_room)
          × ((save vfs c f).0 ≡ ok tt)
          × (load_or_bootstrap vfs is_utf8 (save vfs c f).1 ≡ (ok c, (save vfs c f).1)))
        ⊎ ((fresh_room < length bytes) × (save vfs c f ≡ (err user, f)))
  unfolding save
  load_or_bootstrap-save c bytes f is coded in_range =
      elim (Bool-cases (leb (length bytes) fresh_room)) [
        | inl y ↦
            let room = leb→le _ _ y in
            let (q, run, holds) = to_page_ok c bytes in_range coded room in
            let (done, after, back) =
              write_page_ok vfs laws healthy catalog_page_id q PageType.catalog f holds.well
                holds.named (omega arith) in
            let (grows, fits) =
              length-overlay (laws.content f) (catalog_page_id * page_size) q.bytes in
            let big : page_size ≤ length (laws.content (write_page vfs q f).1) =
              omega (arith, ap length after, fits, holds.well.page.sized) in
            inl (
              room,
              rw run done,
              rw
                  (
                    run,
                    load_or_bootstrap_ok (write_page vfs q f).1 q bytes big back holds,
                    decode-encode_catalog is_utf8 c bytes is coded (omega (arith, room)),
                  )
                  refl,
            )
        | inr n ↦
            let full : fresh_room < length bytes = ground (arith, n) in
            inr (full, rw (to_page_full c bytes in_range coded full) refl)
      ]
