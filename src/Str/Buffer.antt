-- ===== src/Str/Buffer.antt =====
-- snow/str.c: string buffers. The member `_strings` is the sequence of the strings of its array, and
-- arguments are strings already, which `call_to_string` gives back.
use snow.Base.{
  List, Result, [], fault, if◌then◌else◌, length, ltb, ok, pos, ℕ, ℤ, ◌%◌, ◌++◌, ◌+◌, ◌>>=◌, ◌∷◌,
}
use snow.Str.{SnString, create_string_from_data, read_bytes, size_mod}
use snow.Value.{Word, int_to_value}

-- The loop over the arguments of `string_buffer_initialize` and `string_buffer_append`
unfoldable pub string_buffer_append : List SnString → List SnString → List SnString
string_buffer_append strings [] = strings
string_buffer_append strings (x ∷ args) = string_buffer_append (strings ++ x ∷ []) args

-- The first loop of `string_buffer_to_string`, which is also that of `string_buffer_length`
unfoldable pub buffer_total : List SnString → ℕ → ℕ
buffer_total [] total = total
buffer_total (x ∷ xs) total = buffer_total xs ((total + x.str_size) % size_mod)

-- Writing past the buffer.
abbrev pub need_room : ℕ → ℕ → Result (Unit {0})
need_room total needed = if ltb total needed then fault else ok tt

-- The second loop, into a buffer with room for `total` bytes and a zero; `p` is behind what was written.
unfoldable pub copy_strings : ℕ → List SnString → List ℕ → Result (List ℕ)
copy_strings total [] written = ok written
copy_strings total (x ∷ xs) written = do
  bs ← read_bytes x.str_bytes x.str_size
  room ← need_room total (length written + x.str_size)
  copy_strings total xs (written ++ bs)

-- The string, and the strings that the buffer has afterwards.
unfoldable pub string_buffer_to_string :
    (List ℕ → ℕ → ℤ) → ℕ → List SnString → Result (SnString × List SnString)
string_buffer_to_string mblen n strings =
    let total = buffer_total strings 0 in
    (do
      written ← copy_strings total strings []
      result ← create_string_from_data mblen n (written ++ 0 ∷ []) total
      ok (result, result ∷ []))

unfoldable pub string_buffer_length : List SnString → Word
string_buffer_length strings = int_to_value (pos (buffer_total strings 0))
