-- ===== src/Str/Built.antt =====
-- What is appended to a string buffer is in its string.
use snow.Base.{
  List, Returns, [], ap, append-nil, append_assoc, arith, false, leb, length, length-append, ltb,
  ok, refl, returns, subst, sym, take, true, ℕ, ℤ, ◌%◌, ◌++◌, ◌+◌, ◌<◌, ◌∙◌, ◌∷◌, ◌≡◌, ◌≤◌,
}
use snow.Str.{SnString, create_string_from_data, read_bytes, size_mod, string_of, strlen_locale}
use snow.Str.Buffer.{buffer_total, copy_strings, string_buffer_append, string_buffer_to_string}
use snow.Array.{u32_mod}

-- A string object of some bytes.
pub record IsString (x : SnString) (bs : List ℕ) : Type 0 where
  pub bytes_eq : x.str_bytes ≡ bs ++ 0 ∷ []
  pub size_eq : x.str_size ≡ length bs

-- String objects, and all their bytes.
pub data AreStrings : List SnString → List ℕ → Type 0 where
  no_strings : AreStrings [] []
  one_more_string :
      (x : SnString) (xs : List SnString) (bs cs : List ℕ)
      → IsString x bs
      → AreStrings xs cs
      → AreStrings (x ∷ xs) (bs ++ cs)

AreStrings-append :
    (xs ys : List SnString) (bs cs : List ℕ)
    → AreStrings xs bs
    → AreStrings ys cs
    → AreStrings (xs ++ ys) (bs ++ cs)
AreStrings-append xs ys bs cs no_strings more = more
AreStrings-append xs ys bs cs (one_more_string x zs ds es i rest) more =
    subst (λ t. AreStrings (x ∷ zs ++ ys) t) (sym (append_assoc ds es cs))
      (one_more_string x (zs ++ ys) ds (es ++ cs) i (AreStrings-append zs ys es cs rest more))

append_all : (strings args : List SnString) → string_buffer_append strings args ≡ strings ++ args
unfolding string_buffer_append
append_all strings [] = sym (append-nil strings)
append_all strings (x ∷ args) =
    append_all (strings ++ x ∷ []) args ∙ append_assoc strings (x ∷ []) args

buffer_total-length :
    (xs : List SnString) (bs : List ℕ) (total : ℕ)
    → AreStrings xs bs
    → total + length bs < size_mod
    → buffer_total xs total ≡ total + length bs
unfolding buffer_total
buffer_total-length xs bs total no_strings small = omega arith
buffer_total-length xs bs total (one_more_string x zs ds es i rest) small =
    let e : (total + x.str_size) % size_mod ≡ total + length ds =
      omega (arith, i.size_eq, length-append ds es) in
    rw e (
      buffer_total-length zs es (total + length ds) rest (omega (arith, length-append ds es))
      ∙ omega (arith, length-append ds es))

take_all_but : (bs : List ℕ) → take (length bs) (bs ++ 0 ∷ []) ≡ bs
take_all_but [] = refl
take_all_but (b ∷ bs) = ap (λ t. b ∷ t) (take_all_but bs)

IsString-read_bytes :
    (x : SnString) (bs : List ℕ) → IsString x bs → read_bytes x.str_bytes x.str_size ≡ ok bs
unfolding read_bytes
IsString-read_bytes x bs i =
    let fits : leb (length bs) (length (bs ++ 0 ∷ [])) ≡ true =
      ground (arith, length-append bs (0 ∷ [])) in
    rw (i.bytes_eq, i.size_eq, fits) (ap ok (take_all_but bs))

copy_strings-AreStrings :
    (total : ℕ) (xs : List SnString) (bs written : List ℕ)
    → AreStrings xs bs
    → length written + length bs ≤ total
    → copy_strings total xs written ≡ ok (written ++ bs)
unfolding copy_strings
copy_strings-AreStrings total xs bs written no_strings room = ap ok (sym (append-nil written))
copy_strings-AreStrings total xs bs written (one_more_string x zs ds es i rest) room =
    let fits : ltb total (length written + x.str_size) ≡ false =
      ground (arith, i.size_eq, length-append ds es, room) in
    rw (IsString-read_bytes x ds i, fits)
      (copy_strings-AreStrings total zs es (written ++ ds) rest
          (omega (arith, length-append ds es, length-append written ds))
        ∙ ap ok (append_assoc written ds es))

-- The string, which is then all that the buffer has.
abbrev pub Built : List ℕ → SnString × List SnString → Type 0
Built bs (x, strings) = IsString x bs × (strings ≡ x ∷ [])

-- If a string buffer and the arguments appended to it have fewer than 2^32 bytes that are `count`
-- characters, counted within the fuel, then its string has the bytes of the buffer and those of the
-- arguments behind them, and that string is then the only one of the buffer.
pub string_buffer_to_string-append :
    (mblen : List ℕ → ℕ → ℤ) (n : ℕ) (strings args : List SnString) (bs cs : List ℕ) (count : ℕ)
    → AreStrings strings bs
    → AreStrings args cs
    → length (bs ++ cs) < u32_mod
    → strlen_locale mblen n ((bs ++ cs) ++ 0 ∷ []) (length (bs ++ cs)) ≡ ok count
    → Returns
        (Built (bs ++ cs))
        (string_buffer_to_string mblen n (string_buffer_append strings args))
unfolding string_buffer_to_string create_string_from_data string_of read_bytes
string_buffer_to_string-append mblen n strings args bs cs count a b small counted =
    let all = AreStrings-append strings args bs cs a b in
    let total = buffer_total-length (strings ++ args) (bs ++ cs) 0 all (omega arith) in
    let plain : 0 + length (bs ++ cs) ≡ length (bs ++ cs) = omega arith in
    let copied =
      copy_strings-AreStrings (length (bs ++ cs)) (strings ++ args) (bs ++ cs) [] all
        (omega arith) in
    let fits : leb (length (bs ++ cs)) (length ((bs ++ cs) ++ 0 ∷ [])) ≡ true =
      ground (arith, length-append (bs ++ cs) (0 ∷ [])) in
    let whole : length (bs ++ cs) % u32_mod ≡ length (bs ++ cs) = omega arith in
    rw
      (append_all strings args, total, plain, copied, fits, take_all_but (bs ++ cs), counted, whole)
      (returns (record { bytes_eq = refl; size_eq = refl }, refl))
