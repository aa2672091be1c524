-- ===== src/Page/Insert/Store.antt =====
-- The end of `insert_record`: the payload stands in the page, and the claimed slot is written.
use rdbms.Prelude.{
  ℕ, ◌+◌, ◌-◌, ◌≤◌, ◌<◌, ◌≡◌, ◌≢◌, refl, ap, sym, ◌∙◌, arith, ◌==◌, some, List, length, inl, inr,
  Bool-cases, ==_iff,
}
use rdbms.Core.{ok}
use rdbms.Bytes.{slice, read_le}
use rdbms.Page.Format.{
  page_size, header_size, off_magic, off_version, off_page_type, off_page_id, off_free_start,
  off_free_end, off_slot_count, slot_live, PageType, SlotEntry, is_live, Page, IsPage, read_record,
}
use rdbms.Page.Ops.{put_slot}
use rdbms.Page.Shape.{
  page_id, free_start, free_end, slot_count, slot_at, entry, IsFormatted, IsSlot, IsWellFormed,
}
use rdbms.Page.Frame.{AgreeOn, agree_read, agree_entry, put_slot-IsPage, refresh-checked}
use rdbms.Page.SlotWrite.{with_slot, agree_low, agree_high, other_slot, with_slot-IsPage, same_slot}
use rdbms.Page.Lookup.{held, read_record-held}

-- `b` is `p` with `payload` below its records, and a directory of n slots that has room for slot i.
pub record Prepared (p b : Page) (i n : ℕ) (payload : List ℕ) : Type 0 where
  pub page : IsPage b
  pub fits : length payload ≤ free_end p
  pub start : free_start b ≡ slot_at n
  pub end : free_end b ≡ free_end p - length payload
  pub count : slot_count b ≡ n
  pub room : slot_at n ≤ free_end p - length payload
  pub claimed : i < n
  pub grown : slot_count p ≤ n
  pub rest : (j : ℕ) → j < n → j ≢ i → j < slot_count p
  pub low : AgreeOn b p 0 off_free_start
  pub directory : AgreeOn b p header_size (free_start p)
  pub records : AgreeOn b p (free_end p) page_size
  pub stored : slice b.bytes (free_end p - length payload) (length payload) ≡ payload

-- What an insertion into slot i promises.
pub record Inserted (p q : Page) (t : PageType) (i n : ℕ) (payload : List ℕ) : Type 0 where
  pub well : IsWellFormed q t
  pub same_id : page_id q ≡ page_id p
  pub count : slot_count q ≡ n
  pub start : free_start q ≡ slot_at n
  pub end : free_end q + length payload ≡ free_end p
  pub stored : read_record q i ≡ ok (some payload)
  pub others : (j : ℕ) → j < slot_count p → j ≢ i → read_record q j ≡ read_record p j

abbrev pub live_slot : Page → List ℕ → SlotEntry
live_slot p payload = record {
  offset = free_end p - length payload;
  len = length payload;
  flags = slot_live;
}

abbrev pub stored_page : Page → Page → ℕ → List ℕ → Page
stored_page p b i payload = with_slot b i (live_slot p payload)

IsSlot-live :
    (p q : Page) (payload : List ℕ)
    → free_end q ≡ free_end p - length payload
    → length payload ≤ free_end p
    → free_end p ≤ page_size
    → IsSlot q (live_slot p payload)
IsSlot-live p q payload e h k = record {
  flag = inr (inl refl);
  above = λ live. omega arith;
  inside = λ live. omega arith;
}

IsSlot-lower : (p q : Page) (e : SlotEntry) → free_end q ≤ free_end p → IsSlot p e → IsSlot q e
IsSlot-lower p q e h s = record {
  flag = s.flag;
  above = λ live. omega (arith, s.above live);
  inside = s.inside;
}

-- What stands above `free_end` of p reads the same in both.
held-agree :
    (p q : Page) (e : SlotEntry)
    → AgreeOn q p (free_end p) page_size
    → IsSlot p e
    → held q e ≡ held p e
held-agree p q e h s = elim (Bool-cases (is_live e)) [
  | inl live ↦
      let live' : e.flags ≡ slot_live = (==_iff e.flags slot_live).0 live in
      rw live (ap some (h e.offset e.len (s.above live') (s.inside live')))
  | inr other ↦ rw other
]

module _ (p b : Page) (i n : ℕ) (payload : List ℕ) (r : Prepared p b i n payload) where
  abbrev q : Page
  q = stored_page p b i payload

  low : AgreeOn q b 0 30
  low = agree_low b i (live_slot p payload)

  entry_new : free_end p ≤ page_size → entry q i ≡ live_slot p payload
  entry_new h =
      same_slot b i (live_slot p payload) r.page (omega arith) (omega arith) (omega arith)
        (omega arith)

  entry_old :
      (j : ℕ)
      → free_start p ≡ slot_at (slot_count p)
      → j < slot_count p
      → j ≢ i
      → entry q j ≡ entry p j
  entry_old j e lt ne =
      other_slot b i (live_slot p payload) j ne
      ∙ agree_entry b p j (λ s k lo hi. r.directory s k (omega arith) (omega arith))

  stored_slice :
      free_end p ≤ page_size
      → slice q.bytes (free_end p - length payload) (length payload) ≡ payload
  stored_slice h =
      agree_high b i (live_slot p payload) n r.claimed (free_end p - length payload)
        (length payload) r.room (omega (arith, r.fits))
      ∙ r.stored

  agree_records : AgreeOn q p (free_end p) page_size
  agree_records s k lo hi =
      agree_high b i (live_slot p payload) n r.claimed s k (omega (arith, r.room)) hi
      ∙ r.records s k lo hi

  low_read : (s k : ℕ) → s + k ≤ off_free_start → read_le k q.bytes s ≡ read_le k p.bytes s
  low_read s k h =
      agree_read q b 0 30 s k low (omega arith) (omega arith)
      ∙ agree_read b p 0 off_free_start s k r.low (omega arith) h

  read_b : (s : ℕ) → s + 2 ≤ 30 → read_le 2 q.bytes s ≡ read_le 2 b.bytes s
  read_b s h = agree_read q b 0 30 s 2 low (omega arith) h

  module _ {t : PageType} (w : IsWellFormed p t) where
    stored-IsFormatted : IsFormatted q t
    stored-IsFormatted = record {
      magic = low_read off_magic 4 (omega arith) ∙ w.formatted.magic;
      version = low_read off_version 2 (omega arith) ∙ w.formatted.version;
      directory = omega (
        arith,
        read_b off_free_start (omega arith),
        read_b off_slot_count (omega arith),
        r.start,
        r.count,
      );
      room = omega (
        arith,
        read_b off_free_start (omega arith),
        read_b off_free_end (omega arith),
        r.start,
        r.end,
        r.room,
      );
      within = omega (arith, read_b off_free_end (omega arith), r.end, w.formatted.within);
      kind = rw (low_read off_page_type 2 (omega arith)) w.formatted.kind;
    }

    end_of_q : free_end q ≡ free_end p - length payload
    end_of_q = read_b off_free_end (omega arith) ∙ r.end

    count_of_q : slot_count q ≡ n
    count_of_q = read_b off_slot_count (omega arith) ∙ r.count

    old_slot : (j : ℕ) → j < n → j ≢ i → entry q j ≡ entry p j
    old_slot j h ne = entry_old j w.formatted.directory (r.rest j h ne) ne

    stored-IsSlot : (j : ℕ) → j < n → IsSlot q (entry q j)
    stored-IsSlot j h = elim (Bool-cases (j == i)) [
      | inl same ↦
          let e : j ≡ i = (==_iff j i).0 same in
          rw (e, entry_new w.formatted.within)
            (IsSlot-live p q payload end_of_q r.fits w.formatted.within)
      | inr other ↦
          let ne : j ≢ i = ground arith in
          rw (old_slot j h ne)
            (IsSlot-lower p q (entry p j) (omega (arith, end_of_q)) (w.slots j (r.rest j h ne)))
    ]

    stored-IsWellFormed : IsWellFormed q t
    stored-IsWellFormed = record {
      page = with_slot-IsPage b i (live_slot p payload) r.page;
      formatted = stored-IsFormatted;
      checked =
          refresh-checked (put_slot (slot_at i) (live_slot p payload) b)
            (put_slot-IsPage b r.page (slot_at i) (live_slot p payload));
      slots = λ j h. stored-IsSlot j (omega (arith, count_of_q));
    }

    stored_others : (j : ℕ) → j < slot_count p → j ≢ i → read_record q j ≡ read_record p j
    stored_others j h ne =
        read_record-held stored-IsWellFormed j (omega (arith, count_of_q, r.grown))
        ∙ ap ok (
            ap (held q) (old_slot j (omega (arith, r.grown)) ne)
            ∙ held-agree p q (entry p j) agree_records (w.slots j h))
        ∙ sym (read_record-held w j h)

    -- The prepared page, with the slot written, is the outcome of the insertion.
    pub Prepared-Inserted : Inserted p q t i n payload
    Prepared-Inserted = record {
      well = stored-IsWellFormed;
      same_id = low_read off_page_id 8 (omega arith);
      count = count_of_q;
      start = read_b off_free_start (omega arith) ∙ r.start;
      end = omega (arith, end_of_q, r.fits);
      stored =
          read_record-held stored-IsWellFormed i (omega (arith, count_of_q, r.claimed))
          ∙ ap ok (rw (entry_new w.formatted.within) (ap some (stored_slice w.formatted.within)));
      others = stored_others;
    }
