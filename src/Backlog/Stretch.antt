-- ===== src/Backlog/Stretch.antt =====
-- Stretches of bytes as functions of their places.
use vemory.Prelude.{
  ℕ, zero, suc, ◌+◌, ◌-◌, ◌<◌, ◌≤◌, ◌≡◌, refl, ap, sym, ◌∙◌, Bytes, [], ◌∷◌, ◌++◌, length, take,
  drop, get_or, arith, get_or-append_lt, get_or-append_length, get_or-drop, length-append,
  length-take, length-drop,
}
use Prim.Native.Nat.add
use vemory.Backlog.{memcpy}

abbrev pub tabulate : (ℕ → ℕ) → ℕ → Bytes
tabulate f zero = []
tabulate f (suc n) = f 0 ∷ tabulate (λ i. f (suc i)) n

pub tabulate-eq :
    (f g : ℕ → ℕ) (n : ℕ) → ((i : ℕ) → i < n → f i ≡ g i) → tabulate f n ≡ tabulate g n
tabulate-eq f g zero same = refl
tabulate-eq f g (suc n) same = rw (same 0 (omega arith)) (
    ap (◌∷◌ (g 0))
      (tabulate-eq (λ i. f (suc i)) (λ i. g (suc i)) n (λ i h. same (suc i) (omega arith))))

pub tabulate-add :
    (f : ℕ → ℕ) (m n : ℕ) → tabulate f (m + n) ≡ tabulate f m ++ tabulate (λ i. f (m + i)) n
tabulate-add f zero n = rw add.zero (tabulate-eq f (λ i. f (0 + i)) n (λ i h. rw add.zero))
tabulate-add f (suc m) n = rw (
  add.suc,
  tabulate-add (λ i. f (suc i)) m n,
  tabulate-eq (λ i. f (suc (m + i))) (λ i. f (suc m + i)) n (λ i h. rw add.suc),
)

-- A stretch of a list that is inside it.
pub take-drop :
    (bs : Bytes) (at n : ℕ)
    → at + n ≤ length bs
    → take n (drop at bs) ≡ tabulate (λ i. get_or bs (at + i) 0) n
take-drop bs zero zero h = refl
take-drop (b ∷ bs) zero (suc n) h = ap (◌∷◌ b) (
    take-drop bs 0 n (omega arith)
    ∙ tabulate-eq (λ i. get_or bs (0 + i) 0) (λ i. get_or (b ∷ bs) (0 + suc i) 0) n
        (λ i h. rw (add.zero, add.zero)))
take-drop [] zero (suc n) h = absurd (omega arith)
take-drop [] (suc at) zero h = refl
take-drop [] (suc at) (suc n) h = absurd (omega arith)
take-drop (b ∷ bs) (suc at) n h =
    take-drop bs at n (omega arith)
    ∙ tabulate-eq (λ i. get_or bs (at + i) 0) (λ i. get_or (b ∷ bs) (suc at + i) 0) n
        (λ i h. rw add.suc)

pub get_or-take : (bs : Bytes) (n i d : ℕ) → i < n → get_or (take n bs) i d ≡ get_or bs i d
get_or-take bs zero i d h = absurd (omega arith)
get_or-take [] (suc n) i d h = refl
get_or-take (b ∷ bs) (suc n) zero d h = refl
get_or-take (b ∷ bs) (suc n) (suc i) d h = get_or-take bs n i d (omega arith)

pub length-memcpy :
    (buf bs : Bytes) (at : ℕ) → at + length bs ≤ length buf → length (memcpy buf at bs) ≡ length buf
unfolding memcpy
length-memcpy buf bs at h = omega (
  arith,
  length-append (take at buf) (bs ++ drop (at + length bs) buf),
  length-append bs (drop (at + length bs) buf),
  length-take at buf,
  length-drop (at + length bs) buf,
)

-- The bytes outside the stretch stay, and those inside are the copied ones.
pub get_or-memcpy_before :
    (buf bs : Bytes) (at i : ℕ)
    → at + length bs ≤ length buf
    → i < at
    → get_or (memcpy buf at bs) i 0 ≡ get_or buf i 0
unfolding memcpy
get_or-memcpy_before buf bs at i fits h = rw (
  get_or-append_lt (take at buf) (bs ++ drop (at + length bs) buf) i 0
      (omega (arith, length-take at buf)),
  get_or-take buf at i 0 h,
)

pub get_or-memcpy_inside :
    (buf bs : Bytes) (at i : ℕ)
    → at + length bs ≤ length buf
    → i < length bs
    → get_or (memcpy buf at bs) (at + i) 0 ≡ get_or bs i 0
unfolding memcpy
get_or-memcpy_inside buf bs at i fits h =
    let front : length (take at buf) ≡ at = omega (arith, length-take at buf) in
    ap (λ k. get_or (take at buf ++ (bs ++ drop (at + length bs) buf)) (k + i) 0) (sym front)
    ∙ get_or-append_length (take at buf) (bs ++ drop (at + length bs) buf) i 0
    ∙ get_or-append_lt bs (drop (at + length bs) buf) i 0 h

pub get_or-memcpy_after :
    (buf bs : Bytes) (at i : ℕ)
    → at + length bs ≤ length buf
    → at + length bs ≤ i
    → get_or (memcpy buf at bs) i 0 ≡ get_or buf i 0
unfolding memcpy
get_or-memcpy_after buf bs at i fits h =
    let j : ℕ = i - (at + length bs) in
    let place : i ≡ length (take at buf) + (length bs + j) = omega (arith, length-take at buf) in
    ap (λ k. get_or (memcpy buf at bs) k 0) place
    ∙ get_or-append_length (take at buf) (bs ++ drop (at + length bs) buf) (length bs + j) 0
    ∙ get_or-append_length bs (drop (at + length bs) buf) j 0
    ∙ get_or-drop (at + length bs) j buf 0
    ∙ ap (λ k. get_or buf k 0) (omega arith)
