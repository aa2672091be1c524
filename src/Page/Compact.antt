-- ===== src/Page/Compact.antt =====
-- `compact` of crates/rdbms_page/src/lib.rs: it repacks the live records and keeps their slots.
pub mod Collect
pub mod Place
use rdbms.Prelude.{
  ℕ, zero, suc, ◌+◌, ◌-◌, ◌*◌, ◌^◌, ◌≤◌, ◌<◌, ◌≡◌, ◌≢◌, refl, ap, sym, ◌∙◌, arith, Bool, true,
  false, ◌==◌, if◌then◌else◌, Option, none, some, List, [], ◌∷◌, ◌++◌, length, replicate,
  length-replicate, All, All-replicate, ◌⊎◌, inl, inr, Bool-cases, Option-cases, ==_iff,
}
use rdbms.Core.{DbResult, ok, panicked}
use rdbms.Exec.{lift, gets, modify, pure, ◌>>=◌, ◌>>◌, bind-panicked}
use rdbms.Bytes.{IsByte, slice, read_le}
use rdbms.Page.Format.{
  page_size, header_size, slot_size, slot_live, off_magic, off_version, off_page_type, off_page_id,
  off_free_start, off_free_end, off_slot_count, PageType, is_live, Page, IsPage, header,
  read_record,
}
use rdbms.Page.Ops.{put_bytes, put_le, refresh_checksum, live_records, place_records, compact}
use rdbms.Page.Shape.{
  page_id, free_start, free_end, slot_count, slot_at, entry, IsFormatted, IsSlot, IsWellFormed,
  header_ok,
}
use rdbms.Page.Frame.{
  AgreeOn, Outside, AgreeOn-trans, agree_read, agree_entry, agree-put_bytes, agree-put_le,
  agree-refresh, put_bytes-IsPage, put_le-IsPage, read-put_le, refresh-IsPage, refresh-checked,
}
use rdbms.Page.Lookup.{held, read_record-held}
use Collect.{lives, total, lives-IsOrdered, find_in, find_in-lives, live_records_lem}
use Place.{Holds, Placed, place_records_lem, place_panics}

-- The bytes that the live records of a page take.
abbrev pub live_bytes : Page → ℕ
live_bytes p = total (lives p (slot_count p) 0)

-- What `compact` promises: the page stays well formed, with the same id and slots, every slot reads
-- as before, and all bytes but those of the directory and the live records are free.
pub record Compacted (p q : Page) (t : PageType) : Type 0 where
  pub well : IsWellFormed q t
  pub same_id : page_id q ≡ page_id p
  pub start : free_start q ≡ free_start p
  pub count : slot_count q ≡ slot_count p
  pub end : free_end q + live_bytes p ≡ page_size
  pub kept : (j : ℕ) → j < slot_count p → read_record q j ≡ read_record p j

module _ (p : Page) (t : PageType) (w : IsWellFormed p t) where
  abbrev n : ℕ
  n = slot_count p

  abbrev zeros : List ℕ
  zeros = replicate (page_size - slot_at n) 0

  -- After `fill(0)`.
  abbrev cleared : Page
  cleared = put_bytes (slot_at n) zeros p

  start_in_page : slot_at n ≤ page_size
  start_in_page = omega (arith, w.formatted)

  cleared-IsPage : IsPage cleared
  cleared-IsPage =
      put_bytes-IsPage p w.page (slot_at n) zeros (All-replicate IsByte _ 0 (omega arith))

  agree_cleared : AgreeOn cleared p 0 (slot_at n)
  agree_cleared = agree-put_bytes p 0 (slot_at n) (slot_at n) zeros (inl (omega arith))

  module _ (f : ℕ) (c : Page) (r : Placed cleared c page_size f n (lives p n 0))
      (room : slot_at n + live_bytes p ≤ page_size) where
    abbrev q : Page
    q = refresh_checksum (put_le 2 off_free_end f c)

    -- `q` differs from `c` in `free_end` and the checksum alone.
    agree_c : (a b : ℕ) → Outside a b off_free_end 2 → Outside a b 30 4 → AgreeOn q c a b
    agree_c a b h k =
        AgreeOn-trans q (put_le 2 off_free_end f c) c a b
          (agree-refresh (put_le 2 off_free_end f c) a b k) (agree-put_le c a b 2 off_free_end f h)

    low_read :
        (a b s k : ℕ)
        → Outside a b off_free_end 2
        → b ≤ 30
        → a ≤ s
        → s + k ≤ b
        → read_le k q.bytes s ≡ read_le k p.bytes s
    low_read a b s k out hb lo hi =
        agree_read q c a b s k (agree_c a b out (inl hb)) lo hi
        ∙ agree_read c cleared 0 34 s k r.low (omega arith) (omega arith)
        ∙ agree_read cleared p 0 (slot_at n) s k agree_cleared (omega arith) (omega arith)

    floor : slot_at n ≤ f
    floor = omega (arith, r.sum)

    end_of_q : free_end q ≡ f
    end_of_q =
        agree_read q (put_le 2 off_free_end f c) 26 30 off_free_end 2
          (agree-refresh (put_le 2 off_free_end f c) 26 30 (omega arith)) (omega arith)
          (omega arith)
        ∙ read-put_le c r.page 2 off_free_end f (omega arith) (omega (arith, r.sum))

    count_of_q : slot_count q ≡ n
    count_of_q =
        low_read 28 30 off_slot_count 2 (omega arith) (omega arith) (omega arith) (omega arith)

    start_of_q : free_start q ≡ free_start p
    start_of_q =
        low_read 0 26 off_free_start 2 (omega arith) (omega arith) (omega arith) (omega arith)

    entry_of_q : (j : ℕ) → entry q j ≡ entry c j
    entry_of_q j =
        agree_entry q c j
          (agree_c (slot_at j) (slot_at (suc j)) (inr (omega arith)) (inr (omega arith)))

    Holds-q :
        {j : ℕ} {d : List ℕ}
        → Holds c j d f page_size
        → IsSlot q (entry q j) × (held q (entry q j) ≡ some d)
    Holds-q {j} {d} x = rw (entry_of_q j) (
      record {
        flag = inr (inl x.live);
        above = λ l. omega (arith, end_of_q, x.above);
        inside = λ l. omega (arith, x.below, x.len);
      },
      rw (x.live, x.len)
          (ap some (
            agree_c (slot_at n) page_size (inr (omega arith)) (inr (omega arith)) (entry c j).offset
              (length d) (omega (arith, x.above, floor)) (x.below)
            ∙ x.stored)),
    )

    IsSlot-of_q : (j : ℕ) → j < n → IsSlot q (entry q j) × (held q (entry q j) ≡ held p (entry p j))
    IsSlot-of_q j h = elim (Option-cases (held p (entry p j))) [
      | inl dead ↦
          let e : entry q j ≡ entry p j =
            entry_of_q j
            ∙ r.others j h (find_in-lives w n 0 j (omega arith) (omega arith) (omega arith) ∙ dead)
            ∙ agree_entry cleared p j
                (λ s k lo hi. agree_cleared s k (omega arith) (omega arith)) in
          let idle : is_live (entry p j) ≡ false = ground arith in
          rw e (
            record {
              flag = (w.slots j h).flag;
              above = λ l. absurd (ground arith);
              inside = λ l. absurd (ground arith);
            },
            rw idle,
          )
      | inr (d, live) ↦
          let (s, e) = Holds-q (
            r.moved j d (find_in-lives w n 0 j (omega arith) (omega arith) (omega arith) ∙ live)) in
          (s, e ∙ sym live)
    ]

    compacted-IsFormatted : IsFormatted q t
    compacted-IsFormatted = record {
      magic =
          low_read 0 26 off_magic 4 (omega arith) (omega arith) (omega arith) (omega arith)
          ∙ w.formatted.magic;
      version =
          low_read 0 26 off_version 2 (omega arith) (omega arith) (omega arith) (omega arith)
          ∙ w.formatted.version;
      directory = omega (arith, start_of_q, count_of_q, w.formatted.directory);
      room = omega (arith, start_of_q, end_of_q, floor, w.formatted.directory);
      within = omega (arith, end_of_q, r.sum);
      kind =
          rw (low_read 0 26 off_page_type 2 (omega arith) (omega arith) (omega arith) (omega arith))
            w.formatted.kind;
    }

    compacted-IsWellFormed : IsWellFormed q t
    compacted-IsWellFormed = record {
      page = refresh-IsPage (put_le 2 off_free_end f c) (put_le-IsPage c r.page 2 off_free_end f);
      formatted = compacted-IsFormatted;
      checked =
          refresh-checked (put_le 2 off_free_end f c) (put_le-IsPage c r.page 2 off_free_end f);
      slots = λ j h. (IsSlot-of_q j (omega (arith, count_of_q))).0;
    }

    pub compacted-Compacted : Compacted p q t
    compacted-Compacted = record {
      well = compacted-IsWellFormed;
      same_id = low_read 0 26 off_page_id 8 (omega arith) (omega arith) (omega arith) (omega arith);
      start = start_of_q;
      count = count_of_q;
      end = omega (arith, end_of_q, r.sum);
      kept = λ j h.
          read_record-held compacted-IsWellFormed j (omega (arith, count_of_q))
          ∙ ap ok (IsSlot-of_q j h).1
          ∙ sym (read_record-held w j h);
    }

-- On a well-formed page whose live records, counted one by one, leave room for the slot directory,
-- `compact` succeeds and keeps its promise.
pub compact_ok :
    (p : Page) (t : PageType)
    → IsWellFormed p t
    → slot_at (slot_count p) + live_bytes p ≤ page_size
    → (q : Page) × (compact p ≡ (ok tt, q)) × Compacted p q t
unfolding compact
compact_ok p t w room =
    let (f, c, e, r) =
      place_records_lem (slot_count p) (start_in_page p t w) (lives p (slot_count p) 0) 0 page_size
        (cleared p t w) (cleared-IsPage p t w) (lives-IsOrdered w (slot_count p) 0 (omega arith))
        room (omega arith) in
    (
      refresh_checksum (put_le 2 off_free_end f c),
      rw (header_ok p w.formatted, live_records_lem w (slot_count p) 0 [] (omega arith), e),
      compacted-Compacted p t w f c r room,
    )

-- On a page that `validate` accepts although its live slots overlap, so that the records counted one
-- by one have more bytes than a page, `compact` panics.
pub compact_panics :
    (p : Page) (t : PageType)
    → IsWellFormed p t
    → page_size < live_bytes p
    → (compact p).0 ≡ panicked
unfolding compact
compact_panics p t w many =
    rw (header_ok p w.formatted, live_records_lem w (slot_count p) 0 [] (omega arith))
      (bind-panicked (place_records page_size (lives p (slot_count p) 0)) _ (cleared p t w) (
        place_panics (lives p (slot_count p) 0) 0 (slot_count p) page_size (cleared p t w)
          (start_in_page p t w) (lives-IsOrdered w (slot_count p) 0 (omega arith)) many))
