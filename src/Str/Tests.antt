-- ===== src/Str/Tests.antt =====
-- Tests of strings.
use snow.Base.{
  List, Returns, [], arith, if◌then◌else◌, negsuc, ok, pos, refl, trap, ℕ, ℤ, ◌==◌, ◌∷◌, ◌≡◌,
}
use snow.Str.{SnString, count_insertions, format_buffer, strlen_from, strlen_locale}
use snow.Str.Format.{format_buffer-substituted, substituted}
use snow.Str.Length.{chars_end, chars_next, strlen_locale-Chars, strlen_locale_endless}
use snow.Str.Buffer.{string_buffer_append, string_buffer_to_string}
use snow.Str.Built.{Built, no_strings, one_more_string, string_buffer_to_string-append}

-- "a%@b" and "xyz"
format_buffer-substituted_example :
    format_buffer (97 ∷ 37 ∷ 64 ∷ 98 ∷ []) ((120 ∷ 121 ∷ 122 ∷ []) ∷ [])
    ≡ ok (97 ∷ 120 ∷ 121 ∷ 122 ∷ 98 ∷ [])
unfolding substituted count_insertions
format_buffer-substituted_example =
    format_buffer-substituted (97 ∷ 37 ∷ 64 ∷ 98 ∷ []) ((120 ∷ 121 ∷ 122 ∷ []) ∷ []) refl

-- One byte a character, as in the locale "C".
abbrev mblen_c : List ℕ → ℕ → ℤ
mblen_c [] n = negsuc 0
mblen_c (b ∷ bs) n = if b == 0 then pos 0 else pos 1

strlen_locale-Chars_example : strlen_locale mblen_c 3 (97 ∷ 98 ∷ 0 ∷ []) 2 ≡ ok 2
strlen_locale-Chars_example =
    strlen_locale-Chars mblen_c (97 ∷ 98 ∷ 0 ∷ []) 3 2 2
      (chars_next 0 refl (chars_next 0 refl chars_end)) (omega arith) (omega arith)

strlen_locale_endless_example : strlen_locale mblen_c 100 (0 ∷ 98 ∷ 0 ∷ []) 2 ≡ trap
strlen_locale_endless_example =
    strlen_locale_endless mblen_c (0 ∷ 98 ∷ 0 ∷ []) 100 2 (omega arith) (omega arith) refl

-- "a" and "b"
abbrev string_a : SnString
string_a = record { str_bytes = 97 ∷ 0 ∷ []; str_size = 1; str_length = 1 }

abbrev string_b : SnString
string_b = record { str_bytes = 98 ∷ 0 ∷ []; str_size = 1; str_length = 1 }

string_buffer_to_string-append_example :
    Returns
      (Built (97 ∷ 98 ∷ []))
      (string_buffer_to_string mblen_c 3 (string_buffer_append (string_a ∷ []) (string_b ∷ [])))
unfolding strlen_locale strlen_from
string_buffer_to_string-append_example =
    string_buffer_to_string-append mblen_c 3 (string_a ∷ []) (string_b ∷ []) (97 ∷ []) (98 ∷ []) 2
      (one_more_string string_a [] (97 ∷ []) [] (record { bytes_eq = refl; size_eq = refl })
        no_strings)
      (one_more_string string_b [] (98 ∷ []) [] (record { bytes_eq = refl; size_eq = refl })
        no_strings)
      (omega arith) refl
