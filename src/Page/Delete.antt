-- ===== src/Page/Delete.antt =====
-- `delete_record` of crates/rdbms_page/src/lib.rs on every branch.
use rdbms.Prelude.{
  ℕ, suc, ◌+◌, ◌≤◌, ◌<◌, ◌≡◌, ◌≢◌, refl, ap, sym, ◌∙◌, arith, true, false, ◌==◌, some, none, List,
  inl, inr, Bool-cases, ==_iff, leb, leb→le, ◌⊎◌,
}
use rdbms.Core.{ok, err, user}
use rdbms.Bytes.{slice, read_le}
use rdbms.Page.Format.{
  page_size, slot_live, slot_dead, off_magic, off_version, off_page_type, off_page_id,
  off_free_start, off_free_end, off_slot_count, PageType, SlotEntry, is_live, Page, slot_offset,
  read_record,
}
use rdbms.Page.Ops.{delete_record, write_slot_entry, put_slot}
use rdbms.Page.Shape.{
  page_id, free_start, free_end, slot_count, slot_at, entry, IsFormatted, IsSlot, IsWellFormed,
  header_ok, slot_entry_ok, slot_in_page, entry_bounds,
}
use rdbms.Page.Frame.{AgreeOn, agree_read, put_slot-IsPage, refresh-checked}
use rdbms.Page.SlotWrite.{with_slot, agree_low, agree_high, other_slot, with_slot-IsPage, same_slot}
use rdbms.Page.Lookup.{held, read_record-held}

-- Two pages with the same header fields below the checksum.
pub record SameHeader (q p : Page) : Type 0 where
  pub same_id : page_id q ≡ page_id p
  pub start : free_start q ≡ free_start p
  pub end : free_end q ≡ free_end p
  pub count : slot_count q ≡ slot_count p

-- A page whose bytes below the checksum agree with those of a formatted page.
pub low_bytes-IsFormatted :
    (q p : Page) {t : PageType}
    → AgreeOn q p 0 30
    → IsFormatted p t
    → IsFormatted q t × SameHeader q p
low_bytes-IsFormatted q p h f = (
  record {
    magic = same off_magic 4 (omega arith) ∙ f.magic;
    version = same off_version 2 (omega arith) ∙ f.version;
    directory = omega (
      arith,
      same off_free_start 2 (omega arith),
      same off_slot_count 2 (omega arith),
      f.directory,
    );
    room =
        omega
          (arith, same off_free_start 2 (omega arith), same off_free_end 2 (omega arith), f.room);
    within = omega (arith, same off_free_end 2 (omega arith), f.within);
    kind = rw (same off_page_type 2 (omega arith)) f.kind;
  },
  record {
    same_id = same off_page_id 8 (omega arith);
    start = same off_free_start 2 (omega arith);
    end = same off_free_end 2 (omega arith);
    count = same off_slot_count 2 (omega arith);
  },
)
  where
    same : (s n : ℕ) → s + n ≤ 30 → read_le n q.bytes s ≡ read_le n p.bytes s
    same s n k = agree_read q p 0 30 s n h (omega arith) k

-- What the deletion of a live slot promises.
pub record Deleted (p q : Page) (t : PageType) (i : ℕ) : Type 0 where
  pub well : IsWellFormed q t
  pub header : SameHeader q p
  pub gone : read_record q i ≡ ok none
  pub others : (j : ℕ) → j < slot_count p → j ≢ i → read_record q j ≡ read_record p j

module _ (p : Page) (t : PageType) (w : IsWellFormed p t) (i : ℕ) (here : i < slot_count p) where
  abbrev dead_slot : SlotEntry
  dead_slot = record (entry p i) { flags = slot_dead }

  abbrev q : Page
  q = with_slot p i dead_slot

  in_page : slot_at (suc i) ≤ page_size
  in_page = slot_in_page i w.formatted here

  dead_entry : entry q i ≡ dead_slot
  dead_entry =
      let (o, l) = entry_bounds p i w.page in_page in
      same_slot p i dead_slot w.page in_page o l (omega arith)

  facts : IsFormatted q t × SameHeader q p
  facts = low_bytes-IsFormatted q p (agree_low p i dead_slot) w.formatted

  deleted-IsSlot : (j : ℕ) → j < slot_count p → IsSlot q (entry q j)
  deleted-IsSlot j h = elim (Bool-cases (j == i)) [
    | inl same ↦
        let e : j ≡ i = (==_iff j i).0 same in
        rw (e, dead_entry)
          (record {
            flag = inr (inr refl);
            above = λ l. absurd (omega arith);
            inside = λ l. absurd (omega arith);
          })
    | inr other ↦
        let s = w.slots j h in
        rw (other_slot p i dead_slot j (ground arith)) (record {
          flag = s.flag;
          above = λ l. omega (arith, s.above l, facts.1.end);
          inside = s.inside;
        })
  ]

  deleted-IsWellFormed : IsWellFormed q t
  deleted-IsWellFormed = record {
    page = with_slot-IsPage p i dead_slot w.page;
    formatted = facts.0;
    checked =
        refresh-checked (put_slot (slot_at i) dead_slot p)
          (put_slot-IsPage p w.page (slot_at i) dead_slot);
    slots = λ j h. deleted-IsSlot j (omega (arith, facts.1.count));
  }

  same_held : (j : ℕ) → j < slot_count p → held q (entry p j) ≡ held p (entry p j)
  same_held j h = elim (Bool-cases (is_live (entry p j))) [
    | inl live ↦
        let live' : (entry p j).flags ≡ slot_live = (==_iff (entry p j).flags slot_live).0 live in
        rw live (
          ap some (
            agree_high p i dead_slot (slot_count p) here (entry p j).offset (entry p j).len
              (omega (arith, (w.slots j h).above live', w.formatted)) ((w.slots j h).inside live')))
    | inr other ↦ rw other
  ]

  delete_live-Deleted : Deleted p q t i
  delete_live-Deleted = record {
    well = deleted-IsWellFormed;
    header = facts.1;
    gone =
        read_record-held deleted-IsWellFormed i (omega (arith, facts.1.count))
        ∙ ap ok (rw dead_entry);
    others = λ j h ne.
        read_record-held deleted-IsWellFormed j (omega (arith, facts.1.count))
        ∙ ap ok (ap (held q) (other_slot p i dead_slot j ne) ∙ same_held j h)
        ∙ sym (read_record-held w j h);
  }

  delete_live : is_live (entry p i) ≡ true → delete_record i p ≡ (ok true, q)
  unfolding delete_record write_slot_entry slot_offset
  delete_live live = rw (header_ok p w.formatted) (ground (arith, slot_entry_ok p i in_page))

-- The three ways in which a deletion can end.
abbrev pub DeleteOutcome : Page → PageType → ℕ → Type 0
DeleteOutcome p t i =
    ((slot_count p ≤ i) × (delete_record i p ≡ (err user, p)))
    ⊎ (((i < slot_count p) × (read_record p i ≡ ok none) × (delete_record i p ≡ (ok false, p)))
        ⊎ ((i < slot_count p)
            × ((stored : List ℕ) × (read_record p i ≡ ok (some stored)))
            × ((q : Page) × (delete_record i p ≡ (ok true, q)) × Deleted p q t i)))

-- On every well-formed page `delete_record` does one of three things. Out of the directory it
-- reports a user error and changes nothing. In it, a slot that holds no record answers `false` and
-- nothing changes; a live record is gone afterwards, the answer is `true`, the page stays well
-- formed with the same id, free space and directory, and every other slot reads as before.
pub delete_record_total :
    (p : Page) (t : PageType) → IsWellFormed p t → (i : ℕ) → DeleteOutcome p t i
unfolding delete_record
delete_record_total p t w i = elim (Bool-cases (leb (slot_count p) i)) [
  | inl out ↦ inl (leb→le _ _ out, rw (header_ok p w.formatted, out))
  | inr in_dir ↦
      let here : i < slot_count p = ground arith in
      let read = read_record-held w i here in
      inr (elim (Bool-cases (is_live (entry p i))) [
        | inl live ↦ inr (
          here,
          (slice p.bytes (entry p i).offset (entry p i).len, read ∙ rw live),
          (
            with_slot p i (dead_slot p t w i here),
            delete_live p t w i here live,
            delete_live-Deleted p t w i here,
          ),
        )
        | inr other ↦ inl (
          here,
          read ∙ rw other,
          rw (header_ok p w.formatted, in_dir)
              (ground (arith, slot_entry_ok p i (slot_in_page i w.formatted here))),
        )
      ])
]
