-- ===== src/LinkBuffer.antt =====
-- snow/linkbuffer.c: a byte buffer in pages of one size. A page is the bytes below its `offset`; the
-- chain from `head` to `tail` is the list of pages. Writing behind a page's `data` is a fault.
pub mod Contents
pub mod Modify
mod Tests
use snow.Base.{
  List, Result, [], drop, fault, if◌then◌else◌, leb, length, ltb, ok, take, ℕ, ◌&&◌, ◌++◌, ◌+◌, ◌-◌,
  ◌==◌, ◌>>=◌, ◌∷◌,
}

abbrev pub Byte : Type 0
Byte = ℕ

abbrev pub Page : Type 0
Page = List Byte

pub record LinkBuffer : Type 0 where
  pub page_size : ℕ
  pub pages : List Page

-- `snow_create_linkbuffer`, `snow_init_linkbuffer`
abbrev pub init_linkbuffer : ℕ → LinkBuffer
init_linkbuffer n = record { page_size = n; pages = [] }

-- A page that has a next one counts as full.
unfoldable pub pages_size : ℕ → List Page → ℕ
pages_size n [] = 0
pages_size n (p ∷ []) = length p
pages_size n (p ∷ q ∷ ps) = n + pages_size n (q ∷ ps)

unfoldable pub linkbuffer_size : LinkBuffer → ℕ
linkbuffer_size b = pages_size b.page_size b.pages

-- `tail->data[tail->offset++] = b`, within the page's allocation
unfoldable pub append_byte : ℕ → Page → Byte → Result Page
append_byte n p b = if ltb (length p) n then ok (p ++ b ∷ []) else fault

-- The chain after one byte: a new tail if there is none or it is full.
unfoldable pub push_in : ℕ → List Page → Byte → Result (List Page)
push_in n [] b = do p ← append_byte n [] b; ok (p ∷ [])
push_in n (p ∷ []) b =
    if length p == n
    then (do q ← append_byte n [] b; ok (p ∷ q ∷ []))
    else (do q ← append_byte n p b; ok (q ∷ []))
push_in n (p ∷ q ∷ ps) b = do rest ← push_in n (q ∷ ps) b; ok (p ∷ rest)

-- Each push returns 1.
unfoldable pub linkbuffer_push : LinkBuffer → Byte → Result (ℕ × LinkBuffer)
linkbuffer_push buf b = do ps ← push_in buf.page_size buf.pages b; ok (1, record buf { pages = ps })

-- `snow_linkbuffer_push_string` and `snow_linkbuffer_push_data`: the bytes in order, `n` counted so far.
unfoldable pub push_bytes : LinkBuffer → ℕ → List Byte → Result (ℕ × LinkBuffer)
push_bytes buf n [] = ok (n, buf)
push_bytes buf n (b ∷ bs) = do (k, buf') ← linkbuffer_push buf b; push_bytes buf' (n + k) bs

-- `snow_linkbuffer_push_string`: the bytes before the terminating zero.
unfoldable pub push_string : LinkBuffer → List Byte → Result (ℕ × LinkBuffer)
push_string buf c = push_bytes buf 0 c

-- `snow_linkbuffer_push_data(buf, data, len)`, `len` the length of the list.
unfoldable pub push_data : LinkBuffer → List Byte → Result (ℕ × LinkBuffer)
push_data buf bytes = push_bytes buf 0 bytes

-- The loop of `snow_linkbuffer_copy_data` over the pages left: what it appends to `dst`.
unfoldable pub copy_from : List Page → (copied n : ℕ) → List Byte
copy_from [] copied n = []
copy_from (p ∷ ps) copied n =
    let to_copy : ℕ = if ltb (n - copied) (length p) then n - copied else length p in
    let rest = copy_from ps (copied + to_copy) n in
    if ltb copied n then take to_copy p ++ rest else []

-- The bytes written to `dst`; their number is the result.
unfoldable pub copy_data : LinkBuffer → ℕ → List Byte
copy_data buf n = copy_from buf.pages 0 n

-- `memcpy(&page[at], &new_data[from], k)`: reads past `new_data` and writes past the page's bytes
-- are faults.
unfoldable pub patch : Page → (at : ℕ) → List Byte → (from k : ℕ) → Result Page
patch p at new_data from k =
    if leb (from + k) (length new_data) && leb (at + k) (length p)
    then ok (take at p ++ (take k (drop from new_data) ++ drop (at + k) p))
    else fault

-- The loop of `snow_linkbuffer_modify` over the pages left; `new_data` has `len` bytes.
unfoldable pub modify_from :
    List Page → (offset len buffer_offset copied : ℕ) → List Byte → Result (ℕ × List Page)
modify_from [] offset len buffer_offset copied new_data = ok (copied, [])
modify_from (p ∷ ps) offset len buffer_offset copied new_data =
    let next_offset = offset + copied in
    let page_offset = next_offset - buffer_offset in
    let remaining = length p - page_offset in
    let to_copy : ℕ = if ltb remaining len then remaining else len in
    let inside = leb buffer_offset next_offset && ltb next_offset (buffer_offset + length p) in
    let skip = modify_from ps offset len (buffer_offset + length p) copied new_data in
    let rest = modify_from ps offset len (buffer_offset + length p) (copied + to_copy) new_data in
    if ltb copied len
    then (if inside
        then (do q ← patch p page_offset new_data copied to_copy; (n, qs) ← rest; ok (n, q ∷ qs))
        else (do (n, qs) ← skip; ok (n, p ∷ qs)))
    else ok (copied, p ∷ ps)

unfoldable pub linkbuffer_modify :
    LinkBuffer → (offset len : ℕ) → List Byte → Result (ℕ × LinkBuffer)
linkbuffer_modify buf offset len new_data = do
  (n, ps) ← modify_from buf.pages offset len 0 0 new_data
  ok (n, record buf { pages = ps })

-- `snow_linkbuffer_clear` frees every page.
unfoldable pub linkbuffer_clear : LinkBuffer → LinkBuffer
linkbuffer_clear buf = record buf { pages = [] }
