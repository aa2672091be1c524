-- ===== src/Codec/Rules.antt =====
-- An encoder and its decoder, put together from their parts.
use mathlib.Core.List.{append_assoc, append-nil}
use rdbms.Prelude.{
  ℕ, ◌+◌, ◌^◌, ◌<◌, ◌≡◌, refl, ap, sym, ◌∙◌, arith, Bool, true, false, not, ltb, leb, ◌==◌, ==_refl,
  List, [], ◌∷◌, ◌++◌, length, length-append, All,
}
use rdbms.Core.{DbResult, ok, corruption, reject}
use rdbms.Exec.{bind_assoc, Exec, pure, lift, gets, ◌>>=◌, ◌>>◌}
use rdbms.Bytes.{slice, to_le_bytes, from_le_bytes}
use rdbms.Bytes.Slices.{slice-append_more, slice-append_left, slice_whole}
use rdbms.Bytes.Words.{length-to_le_bytes, from-to_le_bytes}
use rdbms.Codec.{
  extend, append_le, append_len, write_string, write_each, DecodeCursor, read_bytes, take_le,
  read_string, read_each, is_finished, finish,
}

-- A writer that succeeds and appends d.
pub record Writes (m : Exec (List ℕ) (Unit {0})) (d : List ℕ) : Type 0 where
  pub run : (bytes : List ℕ) → m bytes ≡ (ok tt, bytes ++ d)

-- A cursor between the bytes that are read and those that are not.
abbrev pub cursor_at : List ℕ → List ℕ → DecodeCursor
cursor_at front rest = record { bytes = front ++ rest; offset = length front }

-- A reader that takes d and returns v. A buffer has fewer than 2 ^ 64 bytes.
pub record Reads {A : Type 0} (m : Exec DecodeCursor A) (d : List ℕ) (v : A) : Type 0 where
  pub run :
      (front rest : List ℕ)
      → length (front ++ (d ++ rest)) < 2 ^ 64
      → m (cursor_at front (d ++ rest)) ≡ (ok v, cursor_at (front ++ d) rest)

-- A writer and a reader of the same bytes.
pub record Coded {A : Type 0} (w : Exec (List ℕ) (Unit {0})) (m : Exec DecodeCursor A) (v : A)
    : Type 0 where
  pub bytes : List ℕ
  pub writes : Writes w bytes
  pub reads : Reads m bytes v

-- The rules of the parts.
Writes-pure : Writes (pure tt) []
Writes-pure = record { run = λ bytes. ap (λ l. (ok tt, l)) (sym (append-nil bytes)) }

pub Writes-extend : (d : List ℕ) → Writes (extend d) d
Writes-extend d = record { run = λ bytes. refl }

pub Writes-then :
    {m n : Exec (List ℕ) (Unit {0})} {d e : List ℕ}
    → Writes m d
    → Writes n e
    → Writes (m >> n) (d ++ e)
Writes-then {m = m} {n = n} {d = d} {e = e} x y = record {
  run = λ bytes.
      rw (x.run bytes) (y.run (bytes ++ d) ∙ ap (λ l. (ok tt, l)) (append_assoc bytes d e));
}

module _ {A : Type 0} where
  pub Reads-pure : (v : A) → Reads (pure v) [] v
  Reads-pure v = record {
    run = λ front rest h. ap (λ l. (ok v, cursor_at l rest)) (sym (append-nil front));
  }

  pub Reads-bind :
      {B : Type 0} {m : Exec DecodeCursor A} (k : A → Exec DecodeCursor B) {v : A} {d e : List ℕ}
      {w : B}
      → Reads m d v
      → Reads (k v) e w
      → Reads (m >>= k) (d ++ e) w
  Reads-bind k {v = v} {d = d} {e = e} {w = w} x y = record {
    run = λ front rest h.
        let whole : front ++ ((d ++ e) ++ rest) ≡ front ++ (d ++ (e ++ rest)) =
          ap (λ l. front ++ l) (append_assoc d e rest) in
        let regroup : (front ++ d) ++ (e ++ rest) ≡ front ++ (d ++ (e ++ rest)) =
          append_assoc front d (e ++ rest) in
        rw (append_assoc d e rest, x.run front (e ++ rest) (rw whole at h))
          (y.run (front ++ d) rest (rw regroup (rw whole at h))
            ∙ ap (λ l. (ok w, cursor_at l rest)) (append_assoc front d e));
  }

pub Reads-bytes : (d : List ℕ) → Reads (read_bytes (length d)) d d
unfolding read_bytes
Reads-bytes d = record {
  run = λ front rest h.
      let size = length-append front (d ++ rest) in
      let more = length-append d rest in
      let small : ltb (length front + length d) (2 ^ 64) ≡ true = ground (arith, size, more) in
      let inside : ltb (length (front ++ (d ++ rest))) (length front + length d) ≡ false =
        ground (arith, size, more) in
      let z : length front ≡ length front + 0 = omega arith in
      let found : slice (front ++ (d ++ rest)) (length front) (length d) ≡ d =
        ap (λ n. slice (front ++ (d ++ rest)) n (length d)) z
        ∙ slice-append_more front (d ++ rest) 0 (length d)
        ∙ slice-append_left d rest 0 (length d) (omega arith)
        ∙ slice_whole d in
      rw (small, inside, found) (rw (append_assoc front d rest, length-append front d));
}

pub Reads-le : (n v : ℕ) → v < 256 ^ n → Reads (take_le n) (to_le_bytes n v) v
unfolding take_le
Reads-le n v h =
    let here = rw (length-to_le_bytes n v) at (Reads-bytes (to_le_bytes n v)) in
    let value : Reads (pure (from_le_bytes (to_le_bytes n v))) [] v =
      rw (from-to_le_bytes n v h) (Reads-pure v) in
    rw (append-nil (to_le_bytes n v)) at
      (Reads-bind (λ found. pure (from_le_bytes found)) here value)

-- A writer and a reader of the same bytes, from those of the parts.
pub Coded-pure : {A : Type 0} (v : A) → Coded (pure tt) (pure v) v
Coded-pure v = record { bytes = []; writes = Writes-pure; reads = Reads-pure v }

module _ {A : Type 0} {w : Exec (List ℕ) (Unit {0})} {m : Exec DecodeCursor A} {v : A} where
  unfoldable pub Coded-then :
      {B : Type 0} {x : Exec (List ℕ) (Unit {0})} (k : A → Exec DecodeCursor B) {u : B}
      → Coded w m v
      → Coded x (k v) u
      → Coded (w >> x) (m >>= k) u
  Coded-then k first rest = record {
    bytes = first.bytes ++ rest.bytes;
    writes = Writes-then first.writes rest.writes;
    reads = Reads-bind k first.reads rest.reads;
  }

  -- The last part, after which the reader takes no more.
  pub Coded-result :
      {B : Type 0} (k : A → Exec DecodeCursor B) {u : B}
      → Coded w m v
      → Reads (k v) [] u
      → Coded w (m >>= k) u
  Coded-result k c r = record {
    bytes = c.bytes;
    writes = c.writes;
    reads = rw (append-nil c.bytes) at (Reads-bind k c.reads r);
  }

  pub Coded-last : {B : Type 0} (f : A → B) → Coded w m v → Coded w (m >>= λ x. pure (f x)) (f v)
  Coded-last f c = Coded-result (λ x. pure (f x)) c (Reads-pure (f v))

-- A check or a conversion between two reads.
pub Coded-lift :
    {A B : Type 0} {w : Exec (List ℕ) (Unit {0})} {r : DbResult A} {x : A}
    (k : A → Exec DecodeCursor B) {u : B}
    → r ≡ ok x
    → Coded w (k x) u
    → Coded w (lift r >>= k) u
Coded-lift k e c = rw e c

unfoldable pub Coded-le : (n v : ℕ) → v < 256 ^ n → Coded (append_le n v) (take_le n) v
unfolding append_le
Coded-le n v h = record {
  bytes = to_le_bytes n v;
  writes = Writes-extend (to_le_bytes n v);
  reads = Reads-le n v h;
}

pub Writes-len : (n v : ℕ) → v < 256 ^ n → Writes (append_len n v) (to_le_bytes n v)
unfolding append_len append_le
Writes-len n v h =
    let fits : leb (256 ^ n) v ≡ false = ground arith in rw fits (Writes-extend (to_le_bytes n v))

unfoldable pub Coded-len : (n v : ℕ) → v < 256 ^ n → Coded (append_len n v) (take_le n) v
Coded-len n v h = record {
  bytes = to_le_bytes n v;
  writes = Writes-len n v h;
  reads = Reads-le n v h;
}

pub Coded-string :
    (is_utf8 : List ℕ → Bool) (s : List ℕ)
    → length s < 2 ^ 16
    → is_utf8 s ≡ true
    → Coded (write_string s) (read_string is_utf8) s
unfolding write_string read_string
Coded-string is_utf8 s short valid =
    let checked : Reads (lift (reject (not (is_utf8 s)) corruption) >> pure s) [] s =
      rw valid (Reads-pure s) in
    Coded-then _ (Coded-len 2 (length s) short) (record {
      bytes = s;
      writes = Writes-extend s;
      reads = rw (append-nil s) at (
          Reads-bind (λ found. lift (reject (not (is_utf8 found)) corruption) >> pure found)
            (Reads-bytes s) checked);
    })

pub Coded-each :
    {A : Type 0} (P : A → Type 0) (w : A → Exec (List ℕ) (Unit {0})) (m : Exec DecodeCursor A)
    → ((x : A) → P x → Coded (w x) m x)
    → (xs : List A) → All P xs
    → Coded (write_each w xs) (read_each (length xs) m) xs
unfolding write_each read_each
Coded-each P w m one [] h = Coded-pure []
Coded-each P w m one (x ∷ xs) h =
    Coded-then _ (one x h.0) (Coded-last (λ l. x ∷ l) (Coded-each P w m one xs h.1))

-- Where bytes are left, `is_finished` says no.
pub Reads-more :
    {A : Type 0} (k : Bool → Exec DecodeCursor A) {d : List ℕ} {v : A}
    → 0 < length d
    → Reads (k false) d v
    → Reads (gets (λ c. ok (is_finished c)) >>= k) d v
unfolding is_finished
Reads-more k {d = d} some_left x = record {
  run = λ front rest h.
      let more : (length front == length (front ++ (d ++ rest))) ≡ false =
        ground (arith, length-append front (d ++ rest), length-append d rest) in
      rw more (x.run front rest h);
}

pub Coded-more :
    {A B : Type 0} {w : Exec (List ℕ) (Unit {0})} (k : Bool → Exec DecodeCursor A) {v : A}
    (f : A → B) (c : Coded w (k false) v)
    → 0 < length c.bytes
    → Coded w (gets (λ c. ok (is_finished c)) >>= λ b. (k b >>= λ x. pure (f x))) (f v)
Coded-more k {v = v} f c some_left = record {
  bytes = c.bytes;
  writes = c.writes;
  reads =
      Reads-more (λ b. k b >>= λ x. pure (f x)) some_left
        (rw (append-nil c.bytes) at (Reads-bind (λ x. pure (f x)) c.reads (Reads-pure (f v))));
}

-- A writer whose first part is itself two writers.
pub Coded-assoc :
    {A : Type 0} (w x y : Exec (List ℕ) (Unit {0})) {m : Exec DecodeCursor A} {v : A}
    → Coded (w >> (x >> y)) m v
    → Coded ((w >> x) >> y) m v
Coded-assoc w x y c = record {
  bytes = c.bytes;
  writes = record { run = λ bytes. bind_assoc w (λ _. x) (λ _. y) bytes ∙ c.writes.run bytes };
  reads = c.reads;
}

-- A whole buffer, written and read.
pub Coded-finish :
    {A : Type 0} {w : Exec (List ℕ) (Unit {0})} {m : Exec DecodeCursor A} {v : A} (c : Coded w m v)
    → length c.bytes < 2 ^ 64
    → (w [] ≡ (ok tt, c.bytes))
      × (((m >>= λ x. finish >> pure x) (record { bytes = c.bytes; offset = 0 })).0 ≡ ok v)
unfolding finish is_finished
Coded-finish {m = m} {v = v} c small =
    let whole = append-nil c.bytes in
    let end : DecodeCursor = record { bytes = c.bytes; offset = length c.bytes } in
    let run : m (record { bytes = c.bytes; offset = 0 }) ≡ (ok v, end) =
      rw whole at (c.reads.run [] [] (rw whole small)) in
    (c.writes.run [], rw (run, ==_refl (length c.bytes)) refl)
