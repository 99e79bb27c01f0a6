-- ===== src/LinkBuffer/Contents.antt =====
-- A link buffer is a byte sequence: what pushes append, what its size is and what a copy takes.
use snow.Base.{
  Bool-cases, List, Returns, Returns-bind, Returns-mono, [], ap, append-nil, append_assoc, arith,
  inl, inr, length, length-append, ltb, lt→ltb, ok, refl, returns, sym, take, take-append, take-nil,
  take_all, ℕ, ◌++◌, ◌+◌, ◌-◌, ◌<◌, ◌==◌, ◌∙◌, ◌∷◌, ◌≡◌, ◌≤◌,
}
use snow.LinkBuffer.{
  Byte, LinkBuffer, Page, append_byte, copy_data, copy_from, linkbuffer_push, linkbuffer_size,
  pages_size, push_bytes, push_data, push_in,
}

-- The bytes of the pages, in order.
abbrev pub bytes : List Page → List Byte
bytes [] = []
bytes (p ∷ ps) = p ++ bytes ps

abbrev pub contents : LinkBuffer → List Byte
contents buf = bytes buf.pages

-- Every page but the last is full, and the last holds at least one byte.
abbrev pub Chain : ℕ → List Page → Type 0
Chain n [] = Unit
Chain n (p ∷ []) = (0 < length p) × (length p ≤ n)
Chain n (p ∷ q ∷ ps) = (length p ≡ n) × Chain n (q ∷ ps)

pub record IsValid (buf : LinkBuffer) : Type 0 where
  pub has_room : 0 < buf.page_size
  pub chain : Chain buf.page_size buf.pages

append_byte-ok : (n : ℕ) (p : Page) (b : Byte) → length p < n → append_byte n p b ≡ ok (p ++ b ∷ [])
unfolding append_byte
append_byte-ok n p b h = rw (lt→ltb (length p) n h)

Chain-cons :
    (n : ℕ) (p : Page) (qs : List Page)
    → length p ≡ n
    → 0 < length (bytes qs)
    → Chain n qs
    → Chain n (p ∷ qs)
Chain-cons n p [] e l c = absurd (omega arith)
Chain-cons n p (q ∷ qs) e l c = (e, c)

push_in-Pushed :
    (n : ℕ) (ps : List Page) (b : Byte)
    → 0 < n
    → Chain n ps
    → Returns (λ qs. Chain n qs × (bytes qs ≡ bytes ps ++ b ∷ [])) (push_in n ps b)
unfolding push_in
push_in-Pushed n [] b room c = rw (append_byte-ok n [] b room) (returns (omega arith, refl))
push_in-Pushed n (p ∷ []) b room c = elim (Bool-cases (length p == n)) [
  | inl full ↦ rw full (
      rw (append_byte-ok n [] b room)
        (returns ((ground arith, (omega arith, omega arith)), simp append-nil)))
  | inr free ↦ rw free (
      rw (append_byte-ok n p b (ground arith)) (
        returns (
          (omega (arith, length-append p (b ∷ [])), ground (arith, length-append p (b ∷ []))),
          rw (append-nil, append-nil) refl,
        )))
]
push_in-Pushed n (p ∷ q ∷ ps) b room (full, c) =
    Returns-bind (push_in-Pushed n (q ∷ ps) b room c) λ qs (c', e). returns (
      Chain-cons n p qs full (rw e (omega (arith, length-append (bytes (q ∷ ps)) (b ∷ [])))) c',
      ap (λ t. p ++ t) e ∙ sym (append_assoc p (bytes (q ∷ ps)) (b ∷ [])),
    )

-- The outcome of appending some bytes.
abbrev pub Appended : LinkBuffer → ℕ → List Byte → ℕ × LinkBuffer → Type 0
Appended buf n bs (k, buf') =
    (k ≡ n + length bs)
    × (contents buf' ≡ contents buf ++ bs)
    × IsValid buf'
    × (buf'.page_size ≡ buf.page_size)

pub linkbuffer_push-Appended :
    {buf : LinkBuffer} (b : Byte)
    → IsValid buf
    → Returns (Appended buf 0 (b ∷ [])) (linkbuffer_push buf b)
unfolding linkbuffer_push
linkbuffer_push-Appended {buf} b v =
    Returns-bind (push_in-Pushed buf.page_size buf.pages b v.has_room v.chain)
      λ ps (c, e). returns (omega arith, e, record { has_room = v.has_room; chain = c }, refl)

push_bytes-Appended :
    (bs : List Byte) {buf : LinkBuffer} (n : ℕ)
    → IsValid buf
    → Returns (Appended buf n bs) (push_bytes buf n bs)
unfolding push_bytes
push_bytes-Appended [] n v = returns (omega arith, sym (append-nil _), v, refl)
push_bytes-Appended (b ∷ bs) {buf} n v =
    Returns-bind (linkbuffer_push-Appended b v) λ (k, buf') (one, e, v', s).
      Returns-mono (push_bytes-Appended bs (n + k) v') λ (m, last) (count, e', v'', s'). (
        omega arith,
        e' ∙ ap (λ t. t ++ bs) e ∙ append_assoc (contents buf) (b ∷ []) bs,
        v'',
        s' ∙ s,
      )

-- Pushing data to a valid buffer appends exactly its bytes, returns their number, never leaves a
-- page's memory, and leaves a valid buffer.
pub push_data-Appended :
    {buf : LinkBuffer} (bs : List Byte)
    → IsValid buf
    → Returns (Appended buf 0 bs) (push_data buf bs)
unfolding push_data
push_data-Appended bs v = push_bytes-Appended bs 0 v

-- In a valid buffer the size is the number of the bytes pushed.
pages_size-length : (n : ℕ) (ps : List Page) → Chain n ps → pages_size n ps ≡ length (bytes ps)
unfolding pages_size
pages_size-length n [] c = refl
pages_size-length n (p ∷ []) c = rw append-nil
pages_size-length n (p ∷ q ∷ ps) (full, c) =
    omega (arith, pages_size-length n (q ∷ ps) c, length-append p (bytes (q ∷ ps)))

-- The size of a valid buffer is the number of its bytes, though only the last page is measured.
pub linkbuffer_size-length :
    {buf : LinkBuffer} → IsValid buf → linkbuffer_size buf ≡ length (contents buf)
unfolding linkbuffer_size
linkbuffer_size-length {buf} v = pages_size-length buf.page_size buf.pages v.chain

copy_from-take :
    (ps : List Page) (copied n : ℕ) → copy_from ps copied n ≡ take (n - copied) (bytes ps)
unfolding copy_from
copy_from-take [] copied n = sym (take-nil (n - copied))
copy_from-take (p ∷ ps) copied n = elim (Bool-cases (ltb copied n)) [
  | inl more ↦ elim (Bool-cases (ltb (n - copied) (length p))) [
    | inl part ↦
        let done : n - (copied + (n - copied)) ≡ 0 = ground arith in
        let done' : n - copied - length p ≡ 0 = ground arith in
        rw (
          more,
          part,
          copy_from-take ps (copied + (n - copied)) n,
          take-append (n - copied) p (bytes ps),
          done,
          done',
        )
    | inr whole ↦
        let left : n - (copied + length p) ≡ n - copied - length p = omega arith in
        rw
          (
            more,
            whole,
            copy_from-take ps (copied + length p) n,
            take-append (n - copied) p (bytes ps),
            left,
          )
          (rw (take_all (n - copied) p (ground arith), take_all (length p) p (omega arith)))
  ]
  | inr none_left ↦ let z : n - copied ≡ 0 = ground arith in rw (none_left, z)
]

-- `snow_linkbuffer_copy_data` writes the first `n` bytes, or all if there are fewer.
pub copy_data-take : (buf : LinkBuffer) (n : ℕ) → copy_data buf n ≡ take n (contents buf)
unfolding copy_data
copy_data-take buf n =
    let e : n - 0 ≡ n = omega arith in
    copy_from-take buf.pages 0 n ∙ ap (λ k. take k (contents buf)) e
