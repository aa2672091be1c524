-- ===== src/Page/Insert.antt =====
-- `insert_record` of crates/rdbms_page/src/lib.rs: what it does on every branch. `Store` is the
-- part that both ways to claim a slot share.
pub mod Store
use rdbms.Prelude.{
  ℕ, zero, suc, ◌+◌, ◌-◌, ◌*◌, ◌%◌, ◌^◌, ◌≤◌, ◌<◌, ◌≡◌, ◌≢◌, refl, ap, sym, ◌∙◌, arith, Bool, true,
  false, ◌==◌, if◌then◌else◌, Option, none, some, List, [], ◌∷◌, length, All, inl, inr, Bool-cases,
  ==_iff, ltb, leb, leb→le, ◌⊎◌,
}
use rdbms.Core.{DbResult, ok, err, user, reject, checked_add}
use rdbms.Exec.{Exec, pure, lift, gets, modify, ◌>>=◌, ◌>>◌}
use rdbms.Bytes.{IsByte, slice, read_le}
use rdbms.Bytes.Slices.{slice-splice_self}
use rdbms.Page.Format.{
  page_size, header_size, slot_size, off_free_start, off_free_end, off_slot_count, slot_dead,
  PageType, Page, IsPage, slot_offset, header, find_dead_slot, read_record,
}
use rdbms.Page.Ops.{
  put_bytes, put_le, refresh_checksum, put_slot, write_slot_entry, claim_slot, slot_bytes,
  insert_record,
}
use rdbms.Page.Shape.{
  free_start, free_end, slot_count, slot_at, entry, IsWellFormed, header_of, header_ok,
}
use rdbms.Page.Frame.{
  AgreeOn, Outside, AgreeOn-trans, agree_read, agree-put_bytes, agree-put_le, put_bytes-IsPage,
  put_le-IsPage, read-put_le,
}
use rdbms.Page.Lookup.{Found, find_dead_slot_lem}
use Store.{Prepared, Inserted, Prepared-Inserted, live_slot, stored_page}

module _ (p : Page) (payload : List ℕ) where
  -- The payload is in place and `free_end` is lowered.
  abbrev placed : Page
  placed =
      put_le 2 off_free_end (free_end p - length payload)
        (put_bytes (free_end p - length payload) payload p)

  -- The directory has one more slot.
  abbrev grown : Page
  grown =
      put_le 2 off_free_start ((header_size + (slot_count p + 1) * slot_size) % 2 ^ 16)
        (put_le 2 off_slot_count (slot_count p + 1) placed)

module _ (p : Page) (t : PageType) (w : IsWellFormed p t) (payload : List ℕ)
    (small : length payload ≤ 65535) where
  -- The branch that takes a new slot.
  insert_new :
      find_dead_slot p (slot_count p) 0 ≡ ok none
      → length payload + slot_size ≤ free_end p - free_start p
      → insert_record payload p
        ≡ (ok (slot_count p), stored_page p (grown p payload) (slot_count p) payload)
  unfolding insert_record write_slot_entry claim_slot slot_offset
  insert_new none_dead room = ground (arith, header_ok p w.formatted)

  -- The branch that takes a dead slot again.
  insert_reused :
      (i : ℕ)
      → find_dead_slot p (slot_count p) 0 ≡ ok (some i)
      → i < slot_count p
      → length payload ≤ free_end p - free_start p
      → insert_record payload p ≡ (ok i, stored_page p (placed p payload) i payload)
  unfolding insert_record write_slot_entry claim_slot slot_offset
  insert_reused i dead lt room = ground (arith, header_ok p w.formatted)

-- The writes before the slot is claimed, for a page with room for the payload.
module _ (p : Page) (t : PageType) (w : IsWellFormed p t) (payload : List ℕ)
    (bytes : All IsByte payload) (room : length payload ≤ free_end p - free_start p) where
  abbrev new_offset : ℕ
  new_offset = free_end p - length payload

  -- After `copy_from_slice`.
  abbrev copied : Page
  copied = put_bytes new_offset payload p

  copied-IsPage : IsPage copied
  copied-IsPage = put_bytes-IsPage p w.page new_offset payload bytes

  placed-IsPage : IsPage (placed p payload)
  placed-IsPage = put_le-IsPage copied copied-IsPage 2 off_free_end new_offset

  fits :
      (free_start p ≤ free_end p)
      × (free_end p ≤ page_size)
      × (free_start p ≡ slot_at (slot_count p))
  fits = (w.formatted.room, w.formatted.within, w.formatted.directory)

  -- `placed` has the bytes of p but for `free_end` and the new record.
  agree_placed :
      (a b : ℕ)
      → Outside a b new_offset (length payload)
      → Outside a b off_free_end 2
      → AgreeOn (placed p payload) p a b
  agree_placed a b h k =
      AgreeOn-trans (placed p payload) copied p a b
        (agree-put_le copied a b 2 off_free_end new_offset k)
        (agree-put_bytes p a b new_offset payload h)

  placed_end : free_end (placed p payload) ≡ new_offset
  placed_end =
      read-put_le copied copied-IsPage 2 off_free_end new_offset (omega arith) (omega (arith, fits))

  placed_stored : slice (placed p payload).bytes new_offset (length payload) ≡ payload
  unfolding put_bytes
  placed_stored =
      agree-put_le copied new_offset (new_offset + length payload) 2 off_free_end new_offset
        (inr (omega (arith, fits))) new_offset (length payload) (omega arith) (omega arith)
      ∙ slice-splice_self p.bytes new_offset payload (omega (arith, fits, w.page.sized))

  Prepared-placed :
      (i : ℕ) → i < slot_count p → Prepared p (placed p payload) i (slot_count p) payload
  Prepared-placed i h = record {
    page = placed-IsPage;
    fits = omega (arith, fits);
    start =
        agree_read (placed p payload) p 0 26 off_free_start 2
          (agree_placed 0 26 (inl (omega (arith, fits))) (omega arith)) (omega arith) (omega arith)
        ∙ w.formatted.directory;
    end = placed_end;
    count =
        agree_read (placed p payload) p 28 30 off_slot_count 2
          (agree_placed 28 30 (inl (omega (arith, fits))) (omega arith)) (omega arith)
          (omega arith);
    room = omega (arith, fits);
    claimed = h;
    grown = omega arith;
    rest = λ j lt ne. lt;
    low = agree_placed 0 off_free_start (inl (omega (arith, fits))) (omega arith);
    directory = agree_placed header_size (free_start p) (inl (omega (arith, fits))) (omega arith);
    records = agree_placed (free_end p) page_size (inr (omega (arith, fits))) (omega (arith, fits));
    stored = placed_stored;
  }

  module _ (more : length payload + slot_size ≤ free_end p - free_start p) where
    -- After the new slot count.
    abbrev counted : Page
    counted = put_le 2 off_slot_count (slot_count p + 1) (placed p payload)

    abbrev new_start : ℕ
    new_start = (header_size + (slot_count p + 1) * slot_size) % 2 ^ 16

    counted-IsPage : IsPage counted
    counted-IsPage =
        put_le-IsPage (placed p payload) placed-IsPage 2 off_slot_count (slot_count p + 1)

    new_start_lem :
        (new_start ≡ slot_at (slot_count p + 1)) × (slot_at (slot_count p + 1) ≤ new_offset)
    new_start_lem = omega (arith, fits)

    -- `grown` has the bytes of `placed` but for `slot_count` and `free_start`.
    agree_grown :
        (a b : ℕ)
        → Outside a b off_slot_count 2
        → Outside a b off_free_start 2
        → AgreeOn (grown p payload) (placed p payload) a b
    agree_grown a b h k =
        AgreeOn-trans (grown p payload) counted (placed p payload) a b
          (agree-put_le counted a b 2 off_free_start new_start k)
          (agree-put_le (placed p payload) a b 2 off_slot_count (slot_count p + 1) h)

    -- Above the header, `grown` has the bytes of p but for the new record.
    agree_grown_p :
        (a b : ℕ)
        → header_size ≤ a
        → Outside a b new_offset (length payload)
        → AgreeOn (grown p payload) p a b
    agree_grown_p a b h k =
        AgreeOn-trans (grown p payload) (placed p payload) p a b
          (agree_grown a b (inr (omega arith)) (inr (omega arith)))
          (agree_placed a b k (inr (omega arith)))

    Prepared-grown : Prepared p (grown p payload) (slot_count p) (slot_count p + 1) payload
    Prepared-grown = record {
      page = put_le-IsPage counted counted-IsPage 2 off_free_start new_start;
      fits = omega (arith, fits);
      start =
          read-put_le counted counted-IsPage 2 off_free_start new_start (omega arith) (omega arith)
          ∙ new_start_lem.0;
      end =
          agree_read (grown p payload) (placed p payload) 26 28 off_free_end 2
            (agree_grown 26 28 (omega arith) (omega arith)) (omega arith) (omega arith)
          ∙ placed_end;
      count =
          agree_read (grown p payload) counted 26 30 off_slot_count 2
            (agree-put_le counted 26 30 2 off_free_start new_start (omega arith)) (omega arith)
            (omega arith)
          ∙ read-put_le (placed p payload) placed-IsPage 2 off_slot_count (slot_count p + 1)
              (omega arith) (omega (arith, fits));
      room = new_start_lem.1;
      claimed = omega arith;
      grown = omega arith;
      rest = λ j lt ne. ground arith;
      low =
          AgreeOn-trans (grown p payload) (placed p payload) p 0 off_free_start
            (agree_grown 0 off_free_start (omega arith) (omega arith))
            (agree_placed 0 off_free_start (inl (omega (arith, fits))) (omega arith));
      directory =
          agree_grown_p header_size (free_start p) (omega arith) (inl (omega (arith, fits)));
      records =
          agree_grown_p (free_end p) page_size (omega (arith, fits)) (inr (omega (arith, fits)));
      stored =
          agree_grown new_offset (new_offset + length payload) (inr (omega (arith, new_start_lem)))
            (inr (omega (arith, new_start_lem))) new_offset (length payload) (omega arith)
            (omega arith)
          ∙ placed_stored;
    }

-- The slot that an insertion takes, and the slots there are afterwards, for an answer of
-- `find_dead_slot`.
abbrev pub claimed_slot : Page → Option ℕ → ℕ
claimed_slot p none = slot_count p
claimed_slot p (some i) = i

abbrev pub slots_after : Page → Option ℕ → ℕ
slots_after p none = slot_count p + 1
slots_after p (some i) = slot_count p

-- The two ways in which an insertion can end, after the search for a dead slot.
abbrev pub InsertOutcome : Page → PageType → List ℕ → Type 0
InsertOutcome p t payload =
    (o : Option ℕ) × (find_dead_slot p (slot_count p) 0 ≡ ok o)
    × Found p (slot_count p) 0 o
    × (((length payload + slot_bytes o ≤ free_end p - free_start p)
          × ((q : Page) × (insert_record payload p ≡ (ok (claimed_slot p o), q))
              × Inserted p q t (claimed_slot p o) (slots_after p o) payload))
        ⊎ ((free_end p - free_start p < length payload + slot_bytes o)
            × (insert_record payload p ≡ (err user, p))))

module _ (p : Page) (t : PageType) (w : IsWellFormed p t) (payload : List ℕ)
    (bytes : All IsByte payload) where
  pub insert_record_ok :
      (o : Option ℕ)
      → find_dead_slot p (slot_count p) 0 ≡ ok o
      → Found p (slot_count p) 0 o
      → length payload + slot_bytes o ≤ free_end p - free_start p
      → (q : Page) × (insert_record payload p ≡ (ok (claimed_slot p o), q))
        × Inserted p q t (claimed_slot p o) (slots_after p o) payload
  insert_record_ok none e f room = (
    stored_page p (grown p payload) (slot_count p) payload,
    insert_new p t w payload (omega (arith, w.formatted.within)) e room,
    Prepared-Inserted p (grown p payload) (slot_count p) (slot_count p + 1) payload
        (Prepared-grown p t w payload bytes (omega arith) room) w,
  )
  insert_record_ok (some i) e (lo, hi, dead) room = (
    stored_page p (placed p payload) i payload,
    insert_reused p t w payload (omega (arith, w.formatted.within)) i e (omega arith) (omega arith),
    Prepared-Inserted p (placed p payload) i (slot_count p) payload
        (Prepared-placed p t w payload bytes (omega arith) i (omega arith)) w,
  )

  pub insert_record_full :
      (o : Option ℕ)
      → find_dead_slot p (slot_count p) 0 ≡ ok o
      → free_end p - free_start p < length payload + slot_bytes o
      → insert_record payload p ≡ (err user, p)
  unfolding insert_record
  insert_record_full o e full = ground (arith, header_ok p w.formatted, w.formatted.within)

  -- On every well-formed page, for every list of bytes, `insert_record` does one of two things. If
  -- the payload, and one more slot unless a dead one can be taken again, fit into the free space, it
  -- stores the payload in that slot: the page stays well formed with the same id, the slot reads
  -- back the payload, every other slot of the directory reads as before, and `free_end` falls by the
  -- payload's length. Otherwise it reports a user error and leaves the page as it was.
  pub insert_record_total : InsertOutcome p t payload
  insert_record_total =
      let (o, e, f) = find_dead_slot_lem w in
      (
        o,
        e,
        f,
        elim (Bool-cases (leb (length payload + slot_bytes o) (free_end p - free_start p))) [
          | inl room ↦ let h = leb→le _ _ room in inl (h, insert_record_ok o e f h)
          | inr full ↦
              let h : free_end p - free_start p < length payload + slot_bytes o = ground arith in
              inr (h, insert_record_full o e h)
        ],
      )
