-- ===== src/Codec.antt =====
-- Byte streams: `Vec<u8>` written at its end, and the cursor over a slice of bytes that
-- crates/rdbms_catalog, rdbms_index and rdbms_sql each declare. `Rules` puts an encoder and its
-- decoder together.
pub mod Rules
use rdbms.Prelude.{ℕ, zero, suc, ◌^◌, Bool, not, ltb, leb, ◌==◌, List, [], ◌∷◌, ◌++◌, length}
use rdbms.Core.{ok, user, corruption, reject, checked_add}
use rdbms.Exec.{Exec, pure, lift, gets, modify, ◌>>=◌, ◌>>◌}
use rdbms.Bytes.{slice, to_le_bytes, from_le_bytes}

-- `bytes.extend_from_slice(d)`
abbrev pub extend : List ℕ → Exec (List ℕ) (Unit {0})
extend d bytes = (ok tt, bytes ++ d)

-- `write_u16`, `write_u32` and `write_u64` are `append_le` at 2, 4 and 8; `bytes.push` is it at 1.
unfoldable pub append_le : ℕ → ℕ → Exec (List ℕ) (Unit {0})
append_le n value = extend (to_le_bytes n value)

-- `write_u16_len` and `write_u32_len`, at 2 and 4.
unfoldable pub append_len : ℕ → ℕ → Exec (List ℕ) (Unit {0})
append_len n value = do lift (reject (leb (256 ^ n) value) user); append_le n value

unfoldable pub write_string : List ℕ → Exec (List ℕ) (Unit {0})
write_string value = do append_len 2 (length value); extend value

-- `for item in items { … }` around a writer.
unfoldable pub write_each :
    {A : Type 0} → (A → Exec (List ℕ) (Unit {0})) → List A → Exec (List ℕ) (Unit {0})
write_each write [] = pure tt
write_each write (x ∷ xs) = do write x; write_each write xs

pub record DecodeCursor : Type 0 where
  pub bytes : List ℕ
  pub offset : ℕ

unfoldable pub read_bytes : ℕ → Exec DecodeCursor (List ℕ)
read_bytes len = do
  until ← gets (λ c. checked_add c.offset len corruption)
  gets (λ c. reject (ltb (length c.bytes) until) corruption)
  found ← gets (λ c. ok (slice c.bytes c.offset len))
  modify (λ c. record c { offset = until })
  pure found

-- `read_u8`, `read_u16`, `read_u32` and `read_u64`.
unfoldable pub take_le : ℕ → Exec DecodeCursor ℕ
take_le n = do found ← read_bytes n; pure (from_le_bytes found)

-- `String::from_utf8` is the standard library's: `is_utf8` says which bytes it takes.
unfoldable pub read_string : (List ℕ → Bool) → Exec DecodeCursor (List ℕ)
read_string is_utf8 = do
  len ← take_le 2
  found ← read_bytes len
  lift (reject (not (is_utf8 found)) corruption)
  pure found

-- `for _ in 0..count { items.push(…) }` around a reader.
unfoldable pub read_each : {A : Type 0} → ℕ → Exec DecodeCursor A → Exec DecodeCursor (List A)
read_each zero read = pure []
read_each (suc rounds) read = do x ← read; xs ← read_each rounds read; pure (x ∷ xs)

unfoldable pub is_finished : DecodeCursor → Bool
is_finished c = c.offset == length c.bytes

unfoldable pub finish : Exec DecodeCursor (Unit {0})
finish = gets (λ c. reject (not (is_finished c)) corruption)
