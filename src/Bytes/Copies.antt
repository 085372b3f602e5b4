-- ===== src/Bytes/Copies.antt =====
-- kernel/lib/string.c: the memory after `memcpy` and `memmove`.
use beryllium.Base.{
  ℕ, zero, suc, ◌+◌, ◌-◌, ◌*◌, ◌/◌, ◌%◌, ◌≤◌, ◌<◌, ◌≡◌, refl, ap, ◌∙◌, ◌⊎◌, inl, inr, Bool, ◌&&◌,
  arith, ltb, leb, if◌then◌else◌, Bool-cases, ltb→lt,
}
use beryllium.Bytes.{
  Memory, write_byte, copy_dword, copy_dwords, copy_bytes, memcpy, copy_down, memmove,
}

-- Whether an address is one of the `n` from `dest` on.
unfoldable pub is_within : (dest n a : ℕ) → Bool
is_within dest n a = leb dest a && ltb a (dest + n)

-- The memory with `n` bytes from `src` on copied to `dest`, all at once.
unfoldable pub copied : (dest src n : ℕ) → Memory → Memory
copied dest src n m a = if is_within dest n a then m (src + (a - dest)) else m a

-- Copying down, to a higher address: what is still to be read is not yet written.
copy_down-copied :
    (n dest src : ℕ) (m : Memory) (a : ℕ)
    → src < dest
    → copy_down n dest src m a ≡ copied dest src n m a
unfolding copy_down copied is_within write_byte
copy_down-copied zero dest src m a h = ground arith
copy_down-copied (suc n) dest src m a h =
    let last = write_byte (dest + n) (m (src + n)) m in
    copy_down-copied n dest src last a h ∙ grind arith

copy_bytes-copied :
    (n dest src i : ℕ) (m : Memory) (a : ℕ)
    → ((dest ≤ src) ⊎ (src + i + n ≤ dest))
    → copy_bytes n dest src i m a ≡ copied (dest + i) (src + i) n m a
unfolding copy_bytes copied is_within write_byte
copy_bytes-copied zero dest src i m a h = ground arith
copy_bytes-copied (suc n) dest src i m a h =
    let next = write_byte (dest + i) (m (src + i)) m in
    copy_bytes-copied n dest src (i + 1) next a (grind arith) ∙ grind arith

-- After `memmove` the destination holds what the source held, also where the two overlap, and every
-- other byte is as it was.
pub memmove-copied :
    (dest src n : ℕ) (m : Memory) (a : ℕ) → memmove dest src n m a ≡ copied dest src n m a
unfolding memmove
memmove-copied dest src n m a = elim (Bool-cases (ltb src dest)) [
  | inl up ↦ rw up (copy_down-copied n dest src m a (ltb→lt src dest up))
  | inr down ↦ rw down (
      copy_bytes-copied n dest src 0 m a (inl (ground (arith, down)))
      ∙ ap (λ d. copied d (src + 0) n m a) {x = dest + 0} {y = dest} (omega arith)
      ∙ ap (λ t. copied dest t n m a) {x = src + 0} {y = src} (omega arith))
]

copied_as :
    (m : Memory) (a dest src n dest' src' n' : ℕ)
    → dest ≡ dest'
    → src ≡ src'
    → n ≡ n'
    → copied dest src n m a ≡ copied dest' src' n' m a
copied_as m a dest src n dest' src' n' d s e = rw (d, s, e) refl

copied_same :
    (dest src n : ℕ) (m m' : Memory) (a : ℕ)
    → ((b : ℕ) → m b ≡ m' b)
    → copied dest src n m a ≡ copied dest src n m' a
unfolding copied
copied_same dest src n m m' a h = elim (Bool-cases (is_within dest n a)) [
  | inl e ↦ rw e (h (src + (a - dest)))
  | inr e ↦ rw e (h a)
]

-- Two pieces, one behind the other.
copied_twice :
    (dest src x y : ℕ) (m : Memory) (a : ℕ)
    → ((dest ≤ src) ⊎ (src + (x + y) ≤ dest))
    → copied (dest + x) (src + x) y (copied dest src x m) a ≡ copied dest src (x + y) m a
unfolding copied is_within
copied_twice dest src x y m a h = grind arith

copy_dword-copied :
    (dest src : ℕ) (m : Memory) (a : ℕ) → copy_dword dest src m a ≡ copied dest src 4 m a
unfolding copy_dword copied is_within write_byte
copy_dword-copied dest src m a = grind arith

copy_dwords-copied :
    (n dest src i : ℕ) (m : Memory) (a : ℕ)
    → ((dest ≤ src) ⊎ (src + 4 * (i + n) ≤ dest))
    → copy_dwords n dest src i m a ≡ copied (dest + 4 * i) (src + 4 * i) (4 * n) m a
unfolding copy_dwords copied is_within
copy_dwords-copied zero dest src i m a h = ground arith
copy_dwords-copied (suc n) dest src i m a h =
    let d = dest + 4 * i in
    let s = src + 4 * i in
    let next = copy_dword d s m in
    copy_dwords-copied n dest src (i + 1) next a (grind arith)
    ∙ copied_same (dest + 4 * (i + 1)) (src + 4 * (i + 1)) (4 * n) next (copied d s 4 m) a
        (copy_dword-copied d s m)
    ∙ copied_as (copied d s 4 m) a (dest + 4 * (i + 1)) (src + 4 * (i + 1)) (4 * n) (d + 4) (s + 4)
        (4 * n) (omega arith) (omega arith) refl
    ∙ copied_twice d s 4 (4 * n) m a (grind arith)
    ∙ ap (λ k. copied d s k m a) {x = 4 + 4 * n} {y = 4 * suc n} (omega arith)

-- `memcpy` puts `n` bytes at the destination as they were at the source, and leaves every other byte as
-- it was, unless the destination starts in the source behind its first byte.
pub memcpy-copied :
    (dest src n : ℕ) (m : Memory) (a : ℕ)
    → ((dest ≤ src) ⊎ (src + n ≤ dest))
    → memcpy dest src n m a ≡ copied dest src n m a
unfolding memcpy
memcpy-copied dest src n m a h =
    let x = n / 4 * 4 in
    let words = copy_dwords (n / 4) dest src 0 m in
    let y = n % 4 in
    copy_bytes-copied y (dest + x) (src + x) 0 words a (grind arith)
    ∙ copied_as words a (dest + x + 0) (src + x + 0) y (dest + x) (src + x) y (omega arith)
        (omega arith) refl
    ∙ copied_same (dest + x) (src + x) y words (copied dest src x m) a (λ b.
      copy_dwords-copied (n / 4) dest src 0 m b (grind arith)
      ∙ copied_as m b (dest + 4 * 0) (src + 4 * 0) (4 * (n / 4)) dest src x (omega arith)
          (omega arith) (omega arith))
    ∙ copied_twice dest src x y m a (grind arith)
    ∙ ap (λ k. copied dest src k m a) {x = x + y} {y = n} (omega arith)
