-- ===== src/Page/Packed.antt =====
-- The live records of a page never take more room than lies above `free_end`: the page methods keep
-- that, so on a page that they made `compact` cannot run out of room.
use rdbms.Prelude.{
  ℕ, zero, suc, ◌+◌, ◌≤◌, ◌<◌, ◌^◌, ◌≡◌, ◌≢◌, refl, ap, ◌∙◌, arith, ◌==◌, Option, none, some, List,
  [], ◌∷◌, length, All, inl, inr, Bool-cases, ==_iff,
}
use rdbms.Core.{PageId, ok}
use rdbms.Bytes.{IsByte}
use rdbms.Page.Format.{page_size, PageType, Page, read_record, validate}
use rdbms.Page.Ops.{new, insert_record, delete_record, compact}
use rdbms.Page.Shape.{free_end, slot_count, slot_at, entry, IsWellFormed, validate_ok}
use rdbms.Page.Lookup.{held, Found, read_record-held}
use rdbms.Page.Insert.{claimed_slot, slots_after, insert_record_total}
use rdbms.Page.Insert.Store.{Inserted}
use rdbms.Page.Delete.{Deleted, delete_record_total}
use rdbms.Page.New.{new-IsWellFormed}
use rdbms.Page.Compact.Collect.{lives, total}
use rdbms.Page.Compact.{live_bytes, Compacted, compact_ok}

abbrev size_of : Option (List ℕ) → ℕ
size_of none = 0
size_of (some d) = length d

-- f i + f (i + 1) + … over n terms.
sum_range : ℕ → ℕ → (ℕ → ℕ) → ℕ
sum_range zero i f = 0
sum_range (suc n) i f = f i + sum_range n (i + 1) f

sum_range-last : (n i : ℕ) (f : ℕ → ℕ) → sum_range (suc n) i f ≡ sum_range n i f + f (i + n)
unfolding sum_range
sum_range-last zero i f = let e : i + 0 ≡ i = omega arith in rw e (omega arith)
sum_range-last (suc n) i f =
    let e : i + 1 + n ≡ i + suc n = omega arith in omega (arith, sum_range-last n (i + 1) f, ap f e)

sum_range-eq :
    (n i : ℕ) (f g : ℕ → ℕ)
    → ((j : ℕ) → i ≤ j → j < i + n → f j ≡ g j)
    → sum_range n i f ≡ sum_range n i g
unfolding sum_range
sum_range-eq zero i f g h = refl
sum_range-eq (suc n) i f g h = omega (
  arith,
  h i (omega arith) (omega arith),
  sum_range-eq n (i + 1) f g (λ j a b. h j (omega arith) (omega arith)),
)

-- Sums that differ in the term k alone.
sum_range-change :
    (n i k : ℕ) (f g : ℕ → ℕ)
    → i ≤ k
    → k < i + n
    → ((j : ℕ) → i ≤ j → j < i + n → j ≢ k → f j ≡ g j)
    → sum_range n i f + g k ≡ sum_range n i g + f k
unfolding sum_range
sum_range-change zero i k f g a b h = absurd (omega arith)
sum_range-change (suc n) i k f g a b h = elim (Bool-cases (i == k)) [
  | inl same ↦
      let e : i ≡ k = (==_iff i k).0 same in
      let tail =
        sum_range-eq n (i + 1) f g (λ j c d. h j (omega arith) (omega arith) (omega arith)) in
      rw (← e) (omega (arith, tail))
  | inr other ↦
      let ne : i ≢ k = ground arith in
      omega (
        arith,
        h i (omega arith) (omega arith) ne,
        sum_range-change n (i + 1) k f g (omega arith) (omega arith)
            (λ j c d x. h j (omega arith) (omega arith) x),
      )
]

abbrev held_size : Page → ℕ → ℕ
held_size p j = size_of (held p (entry p j))

total-lives : (p : Page) (n i : ℕ) → total (lives p n i) ≡ sum_range n i (held_size p)
unfolding total lives sum_range
total-lives p zero i = refl
total-lives p (suc n) i = ground (arith, total-lives p n (i + 1))

-- The live records fit above `free_end`.
abbrev pub IsPacked : Page → Type 0
IsPacked p = live_bytes p + free_end p ≤ page_size

held_of_read :
    {p q : Page} {t u : PageType} (w : IsWellFormed p t) (x : IsWellFormed q u) (j : ℕ)
    → j < slot_count p
    → j < slot_count q
    → read_record q j ≡ read_record p j
    → held_size q j ≡ held_size p j
held_of_read {p} {q} w x j h k e =
    let same : held q (entry q j) ≡ held p (entry p j) =
      cc (read_record-held w j h, read_record-held x j k, e) in
    ap size_of same

held_of_stored :
    {q : Page} {t : PageType} (x : IsWellFormed q t) (j : ℕ) (o : Option (List ℕ))
    → j < slot_count q
    → read_record q j ≡ ok o
    → held_size q j ≡ size_of o
held_of_stored {q} x j o k e =
    let same : held q (entry q j) ≡ o = cc (read_record-held x j k, e) in ap size_of same

Inserted-IsPacked :
    {p q : Page} {t : PageType} (w : IsWellFormed p t) (payload : List ℕ) (o : Option ℕ)
    → Found p (slot_count p) 0 o
    → Inserted p q t (claimed_slot p o) (slots_after p o) payload
    → IsPacked p
    → IsPacked q
Inserted-IsPacked {p} {q} w payload none f r h =
    let n = slot_count p in
    let count : slot_count q ≡ suc n = omega (arith, r.count) in
    let same = sum_range-eq n 0 (held_size q) (held_size p) (λ j a b.
      held_of_read w r.well j (omega arith) (omega (arith, count))
        (r.others j (omega arith) (omega arith))) in
    let new_one = held_of_stored r.well n (some payload) (omega (arith, count)) r.stored in
    let at : 0 + n ≡ n = omega arith in
    let last : sum_range (suc n) 0 (held_size q) ≡ sum_range n 0 (held_size q) + held_size q n =
      rw at at (sum_range-last n 0 (held_size q)) in
    let sum_q : live_bytes q ≡ sum_range (suc n) 0 (held_size q) =
      total-lives q (slot_count q) 0 ∙ ap (λ k. sum_range k 0 (held_size q)) count in
    omega (arith, sum_q, last, same, new_one, total-lives p n 0, r.end)
Inserted-IsPacked {p} {q} w payload (some i) (lo, hi, dead) r h =
    let n = slot_count p in
    let change = sum_range-change n 0 i (held_size q) (held_size p) lo hi (λ j a b ne.
      held_of_read w r.well j (omega arith) (omega (arith, r.count))
        (r.others j (omega arith) ne)) in
    let idle : held_size p i ≡ 0 = ground arith in
    let new_one = held_of_stored r.well i (some payload) (omega (arith, r.count)) r.stored in
    let sum_q : live_bytes q ≡ sum_range n 0 (held_size q) =
      total-lives q (slot_count q) 0 ∙ ap (λ k. sum_range k 0 (held_size q)) r.count in
    omega (arith, sum_q, change, idle, new_one, total-lives p n 0, r.end)

Deleted-IsPacked :
    {p q : Page} {t : PageType} (w : IsWellFormed p t) (i : ℕ)
    → i < slot_count p
    → Deleted p q t i
    → IsPacked p
    → IsPacked q
Deleted-IsPacked {p} {q} w i here r h =
    let n = slot_count p in
    let count : slot_count q ≡ n = r.header.count in
    let change =
      sum_range-change n 0 i (held_size q) (held_size p) (omega arith) (omega arith) (λ j a b ne.
        held_of_read w r.well j (omega arith) (omega (arith, count))
          (r.others j (omega arith) ne)) in
    let gone = held_of_stored r.well i none (omega (arith, count)) r.gone in
    let sum_q : live_bytes q ≡ sum_range n 0 (held_size q) =
      total-lives q (slot_count q) 0 ∙ ap (λ k. sum_range k 0 (held_size q)) count in
    omega (arith, sum_q, change, gone, total-lives p n 0, r.header.end)

Compacted-IsPacked :
    {p q : Page} {t : PageType} (w : IsWellFormed p t) → Compacted p q t → IsPacked q
Compacted-IsPacked {p} {q} w r =
    let n = slot_count p in
    let same = sum_range-eq n 0 (held_size q) (held_size p) (λ j a b.
      held_of_read w r.well j (omega arith) (omega (arith, r.count)) (r.kept j (omega arith))) in
    let sum_q : live_bytes q ≡ sum_range n 0 (held_size q) =
      total-lives q (slot_count q) 0 ∙ ap (λ k. sum_range k 0 (held_size q)) r.count in
    omega (arith, sum_q, same, total-lives p n 0, r.end)

-- Room for the second loop of `compact`.
pub IsPacked-room :
    {p : Page} {t : PageType}
    → IsWellFormed p t
    → IsPacked p
    → slot_at (slot_count p) + live_bytes p ≤ page_size
IsPacked-room w h = omega (arith, w.formatted)

-- A call of a method on `&mut self`.
pub data Call : Type 0 where
  insert : List ℕ → Call
  delete : ℕ → Call
  repack : Call

-- The page after a call, and whether the call panicked.
unfoldable pub call : Call → Page → Page
call (insert payload) p = (insert_record payload p).1
call (delete i) p = (delete_record i p).1
call repack p = (compact p).1

unfoldable pub run : List Call → Page → Page
unfolding call
run [] p = p
run (c ∷ cs) p = run cs (call c p)

abbrev pub HasBytes : Call → Type 0
HasBytes (insert payload) = All IsByte payload
HasBytes _ = Unit

-- What holds of every page between calls.
pub record IsSound (p : Page) (t : PageType) : Type 0 where
  pub well : IsWellFormed p t
  pub packed : IsPacked p

call-IsSound :
    (c : Call) (p : Page) (t : PageType) → HasBytes c → IsSound p t → IsSound (call c p) t
unfolding call
call-IsSound (insert payload) p t b s =
    let (o, e, f, outcome) = insert_record_total p t s.well payload b in
    elim outcome [
      | inl (room, (q, e', r)) ↦
          rw (call, e')
            (record { well = r.well; packed = Inserted-IsPacked s.well payload o f r s.packed })
      | inr (full, e') ↦ rw (call, e') s
    ]
call-IsSound (delete i) p t b s = elim (delete_record_total p t s.well i) [
  | inl (out, e) ↦ rw (call, e) s
  | inr (inl (here, dead, e)) ↦ rw (call, e) s
  | inr (inr (here, live, (q, e, r))) ↦
      rw (call, e) (record { well = r.well; packed = Deleted-IsPacked s.well i here r s.packed })
]
call-IsSound repack p t b s =
    let (q, e, r) = compact_ok p t s.well (IsPacked-room s.well s.packed) in
    rw (call, e) (record { well = r.well; packed = Compacted-IsPacked s.well r })

pub run-IsSound :
    (cs : List Call) (p : Page) (t : PageType)
    → All HasBytes cs
    → IsSound p t
    → IsSound (run cs p) t
unfolding run
run-IsSound [] p t b s = s
run-IsSound (c ∷ cs) p t b s = run-IsSound cs (call c p) t b.1 (call-IsSound c p t b.0 s)

pub new-IsSound : (id : PageId) (t : PageType) → id < 2 ^ 64 → IsSound (new id t) t
new-IsSound id t small =
    let (w, same_id, count, room) = new-IsWellFormed id t small in
    let empty : live_bytes (new id t) ≡ 0 =
      ap (λ k. total (lives (new id t) k 0)) count ∙ unfold lives total in refl in
    record { well = w; packed = omega (arith, empty, w.formatted.within) }

-- However a new page is changed by calls of `insert_record`, `delete_record` and `compact`, it passes
-- `validate`, and the next `compact` succeeds: it keeps every slot's answer to `read_record` and
-- leaves free all bytes but the header, the directory and the live records.
pub run-new_sound :
    (id : PageId) (t : PageType) (cs : List Call)
    → id < 2 ^ 64
    → All HasBytes cs
    → (validate (run cs (new id t)) ≡ ok tt)
      × ((q : Page) × (compact (run cs (new id t)) ≡ (ok tt, q))
          × Compacted (run cs (new id t)) q t)
run-new_sound id t cs small b =
    let s = run-IsSound cs (new id t) t b (new-IsSound id t small) in
    (
      validate_ok (run cs (new id t)) t s.well,
      compact_ok (run cs (new id t)) t s.well (IsPacked-room s.well s.packed),
    )
