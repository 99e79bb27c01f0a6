-- ===== src/Str.antt =====
-- snow/str.c: strings of bytes with a terminating zero, and their number of characters. Memory for the
-- bytes is the list of them. `mblen` depends on the locale and is a parameter: from the bytes that are
-- left it gives the length of a character, 0 at a zero byte, and -1 where there is none.
pub mod Format
pub mod Length
pub mod Buffer
pub mod Built
mod Tests
use snow.Base.{
  Bool, List, Result, [], assert, drop, fault, if◌then◌else◌, leb, length, ltb, negsuc, ok, pos,
  suc, take, trap, zero, ℕ, ℤ, ◌%◌, ◌&&◌, ◌*◌, ◌++◌, ◌+◌, ◌-◌, ◌==◌, ◌>>=◌, ◌>>◌, ◌^◌, ◌∷◌,
}
use snow.Array.{u32_mod}
use snow.LinkBuffer.{LinkBuffer, copy_data, linkbuffer_size}

abbrev pub size_mod : ℕ
size_mod = 2 ^ 64

-- `SnString`
pub record SnString : Type 0 where
  pub str_bytes : List ℕ
  pub str_size : ℕ
  pub str_length : ℕ

-- `strlen`
unfoldable pub strlen : List ℕ → Result ℕ
strlen [] = fault
strlen (c ∷ cs) = let rest = strlen cs in if c == 0 then ok 0 else (do n ← rest; ok (n + 1))

-- The start of `n` bytes, which must be there.
unfoldable pub read_bytes : List ℕ → ℕ → Result (List ℕ)
read_bytes bs n = if leb n (length bs) then ok (take n bs) else fault

module _ (mblen : List ℕ → ℕ → ℤ) where
  -- The loop of `strlen_locale` with `p` at an index of the bytes; fuel counts its rounds.
  unfoldable pub strlen_from : ℕ → List ℕ → (p num_bytes count : ℕ) → Result ℕ
  strlen_from zero bs p num_bytes count = trap
  strlen_from (suc n) bs p num_bytes count =
      if num_bytes == 0 then ok count else elim (mblen (drop p bs) num_bytes) [
        | pos k ↦
            strlen_from n bs (p + k) ((num_bytes + size_mod - k) % size_mod)
              ((count + 1) % size_mod)
        | negsuc k ↦
            if ltb p (k + 1)
            then fault
            else strlen_from n bs (p - (k + 1)) ((num_bytes + k + 1) % size_mod)
                ((count + 1) % size_mod)
      ]

  unfoldable pub strlen_locale : ℕ → List ℕ → ℕ → Result ℕ
  strlen_locale n bs num_bytes = strlen_from n bs 0 num_bytes 0

  -- The string object of bytes with their terminating zero.
  unfoldable pub string_of : ℕ → List ℕ → ℕ → Result SnString
  string_of n bs len = do
    count ← strlen_locale n bs len
    ok (record { str_bytes = bs; str_size = len % u32_mod; str_length = count % u32_mod })

  unfoldable pub create_string : ℕ → List ℕ → Result SnString
  create_string n cstr_utf8 = do
    len ← strlen cstr_utf8
    bs ← read_bytes cstr_utf8 (len + 1)
    string_of n bs len

  unfoldable pub create_string_from_data : ℕ → List ℕ → ℕ → Result SnString
  create_string_from_data n cstr_utf8 num_bytes = do
    bs ← read_bytes cstr_utf8 num_bytes
    string_of n (bs ++ 0 ∷ []) num_bytes

  unfoldable pub string_concatenate : ℕ → SnString → SnString → Result SnString
  string_concatenate n a b = do
    left ← read_bytes a.str_bytes a.str_size
    right ← read_bytes b.str_bytes b.str_size
    string_of n (left ++ right ++ 0 ∷ []) (a.str_size + b.str_size)

-- `*cp == '%' && *(cp+1) == '@'`
abbrev pub is_insertion : ℕ → ℕ → Bool
is_insertion c d = (c == 37) && (d == 64)

-- The first loop of `snow_format_string`, over a format without its terminating zero.
unfoldable pub count_insertions : List ℕ → ℕ
count_insertions [] = 0
count_insertions (c ∷ []) = 0
count_insertions (c ∷ d ∷ cs) =
    let in_rest = count_insertions cs in
    let in_longer = count_insertions (d ∷ cs) in if is_insertion c d then suc in_rest else in_longer

abbrev pub combined_len : List (List ℕ) → ℕ
combined_len [] = 0
combined_len (s ∷ ss) = length s + combined_len ss

-- `memcpy` of the next insertion, which must be there.
abbrev pub with_next : List (List ℕ) → (List ℕ → List (List ℕ) → Result (List ℕ)) → Result (List ℕ)
with_next [] rest = fault
with_next (s ∷ ss) rest = rest s ss

-- The loop that fills the buffer: `cp` by the format that is left, `i` by the bytes written, `j` by the
-- insertions that are left. Past the end of the format it would read memory of others.
unfoldable pub fill_buffer : ℕ → List ℕ → List ℕ → List (List ℕ) → Result (List ℕ)
fill_buffer result_len [] out insertions = if ltb (length out) result_len then fault else ok out
fill_buffer result_len (c ∷ []) out insertions =
    let after = fill_buffer result_len [] (out ++ c ∷ []) insertions in
    if ltb (length out) result_len then after else ok out
fill_buffer result_len (c ∷ d ∷ cs) out insertions =
    let further_on = fill_buffer result_len (d ∷ cs) (out ++ c ∷ []) insertions in
    let inserted = with_next insertions (λ s ss. fill_buffer result_len cs (out ++ s) ss) in
    if ltb (length out) result_len
    then if is_insertion c d then inserted else further_on
    else ok out

-- The buffer of `snow_format_string`; `insertions` are the bytes that `to_string` gave for the arguments.
unfoldable pub format_buffer : List ℕ → List (List ℕ) → Result (List ℕ)
format_buffer format insertions =
    let num_insertions = count_insertions format in
    let result_len = length format - num_insertions * 2 + combined_len insertions in
    (do assert (length insertions == num_insertions); fill_buffer result_len format [] insertions)

unfoldable pub format_string : (List ℕ → ℕ → ℤ) → ℕ → List ℕ → List (List ℕ) → Result SnString
format_string mblen n format insertions = do
  buffer ← format_buffer format insertions
  create_string_from_data mblen n buffer (length buffer)

module _ (mblen : List ℕ → ℕ → ℤ) where
  unfoldable pub create_string_from_linkbuffer : ℕ → LinkBuffer → Result SnString
  create_string_from_linkbuffer n buffer =
      let len = linkbuffer_size buffer in string_of mblen n (copy_data buffer len ++ 0 ∷ []) len
