-- ===== src/Threads/Linked.antt =====
-- What a list of threads is, and writes to memory beside it.
use snow.Base.{List, [], arith, false, refl, true, ℕ, ◌==◌, ◌∷◌, ◌≡◌, ◌≢◌}
use snow.Threads.{Dispatch, ThreadState, set_previous, write}

-- The states from `h` on are these, linked in both directions; the first one's previous is `before`.
abbrev pub Linked : (ℕ → ThreadState) → (before h : ℕ) → List ℕ → Type 0
Linked m before h [] = h ≡ 0
Linked m before h (p ∷ ps) =
    (h ≡ p) × (p ≢ 0) × ((m p).previous ≡ before) × Linked m p (m p).next ps

abbrev pub NotIn : ℕ → List ℕ → Type 0
NotIn a [] = Unit {0}
NotIn a (x ∷ xs) = (x ≢ a) × NotIn a xs

abbrev pub Distinct : List ℕ → Type 0
Distinct [] = Unit {0}
Distinct (x ∷ xs) = NotIn x xs × Distinct xs

pub record IsThreads (d : Dispatch) (xs : List ℕ) : Type 0 where
  pub linked : Linked d.at 0 d.state xs
  pub distinct : Distinct xs

-- A write elsewhere.
pub write_other : (m : ℕ → ThreadState) (a x : ℕ) (t : ThreadState) → x ≢ a → write m a t x ≡ m x
write_other m a x t h = let e : (x == a) ≡ false = ground arith in rw e refl

pub Linked-write :
    (m : ℕ → ThreadState) (a : ℕ) (t : ThreadState) (before h : ℕ) (xs : List ℕ)
    → NotIn a xs
    → Linked m before h xs
    → Linked (write m a t) before h xs
Linked-write m a t before h [] n l = l
Linked-write m a t before h (p ∷ ps) (n, ns) (e, z, b, l) =
    let o : write m a t p ≡ m p = write_other m a p t n in
    (e, z, rw o b, rw o (Linked-write m a t p (m p).next ps ns l))

-- The state behind gets the previous one of the state that goes.
pub relinked :
    (m : ℕ → ThreadState) (before a v : ℕ) (as' : List ℕ)
    → NotIn a as'
    → Linked m before a (a ∷ as')
    → Linked (set_previous m a v) v a (a ∷ as')
relinked m before a v as' n (e, z, b, l) =
    let same : (a == a) ≡ true = ground arith in
    (refl, z, rw same refl, rw same (Linked-write m a _ a (m a).next as' n l))

pub write_same : (m : ℕ → ThreadState) (a : ℕ) (t : ThreadState) → write m a t a ≡ t
write_same m a t = let e : (a == a) ≡ true = ground arith in rw e refl
