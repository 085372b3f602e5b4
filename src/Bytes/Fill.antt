-- ===== src/Bytes/Fill.antt =====
-- kernel/lib/string.c: the memory after `memset`.
use beryllium.Base.{
  ℕ, zero, suc, ◌+◌, ◌*◌, ◌/◌, ◌%◌, ◌^◌, ◌<◌, ◌≡◌, refl, ◌∙◌, Bool, true, ◌&&◌, arith, ◌==◌,
  if◌then◌else◌,
}
use beryllium.Bits.{all_below, all_below-true}
use beryllium.Bytes.{Memory, write_byte, write_dword, set_dwords, set_bytes, val32, memset}
use beryllium.Bytes.Copies.{is_within}

-- Every byte of the word that `memset` writes is `val`.
abbrev is_repeated : ℕ → Bool
is_repeated v =
    let w = val32 v in
    (w % 256 == v)
    && ((w / 2 ^ 8 % 256 == v) && ((w / 2 ^ 16 % 256 == v) && (w / 2 ^ 24 % 256 == v)))

val32-is_repeated : (v : ℕ) → v < 256 → is_repeated v ≡ true
unfolding val32 all_below
val32-is_repeated v h = all_below-true 256 is_repeated v refl h

set_bytes-is_within :
    (n dest i v : ℕ) (m : Memory) (a : ℕ)
    → set_bytes n dest i v m a ≡ (if is_within (dest + i) n a then v else m a)
unfolding set_bytes is_within write_byte
set_bytes-is_within zero dest i v m a = ground arith
set_bytes-is_within (suc n) dest i v m a =
    set_bytes-is_within n dest (i + 1) v (write_byte (dest + i) v m) a ∙ grind arith

set_dwords-is_within :
    (n dest i v w : ℕ) (m : Memory) (a : ℕ)
    → w % 256 ≡ v
    → w / 2 ^ 8 % 256 ≡ v
    → w / 2 ^ 16 % 256 ≡ v
    → w / 2 ^ 24 % 256 ≡ v
    → set_dwords n dest i w m a ≡ (if is_within (dest + 4 * i) (4 * n) a then v else m a)
unfolding set_dwords is_within write_byte write_dword
set_dwords-is_within zero dest i v w m a b0 b1 b2 b3 = ground arith
set_dwords-is_within (suc n) dest i v w m a b0 b1 b2 b3 =
    set_dwords-is_within n dest (i + 1) v w (write_dword (dest + 4 * i) w m) a b0 b1 b2 b3
    ∙ ground (arith, b0, b1, b2, b3)

-- After `memset` with the value of a byte, the `n` bytes from the destination on have it, and every
-- other byte is as it was.
pub memset-is_within :
    (dest val n : ℕ) (m : Memory) (a : ℕ)
    → val < 256
    → memset dest val n m a ≡ (if is_within dest n a then val else m a)
unfolding memset is_within
memset-is_within dest val n m a h =
    let k = n / 4 * 4 in
    let bytes = val32-is_repeated val h in
    let words =
      set_dwords-is_within (n / 4) dest 0 val (val32 val) m a (ground (arith, bytes))
        (ground (arith, bytes)) (ground (arith, bytes)) (ground (arith, bytes)) in
    set_bytes-is_within (n % 4) (dest + k) 0 (val % 256) (set_dwords (n / 4) dest 0 (val32 val) m) a
    ∙ grind (arith, words)
