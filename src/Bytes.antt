-- ===== src/Bytes.antt =====
-- kernel/lib/string.c: `memcpy`, `memset` and `memmove`. Memory is a function from addresses to bytes.
-- An object does not go round the end of the address space, so that addresses are not reduced.
pub mod Copies
pub mod Fill
mod Tests
use Prim.Native.Nat.{bit_or}
use beryllium.Base.{
  ℕ, zero, suc, ◌+◌, ◌-◌, ◌*◌, ◌/◌, ◌%◌, ◌^◌, Bool, ltb, leb, ◌&&◌, ◌==◌, if◌then◌else◌,
}

abbrev pub Memory : Type 0
Memory = ℕ → ℕ

unfoldable pub write_byte : (a v : ℕ) → Memory → Memory
write_byte a v m b = if b == a then v else m b

-- `dest32[i] = src32[i]` at the addresses of the two words: all of the word is read first.
unfoldable pub copy_dword : (dest src : ℕ) → Memory → Memory
copy_dword dest src m = write_byte (dest + 3) (m (src + 3)) (
    write_byte (dest + 2) (m (src + 2))
      (write_byte (dest + 1) (m (src + 1)) (write_byte dest (m src) m)))

unfoldable pub copy_dwords : (rounds dest src i : ℕ) → Memory → Memory
copy_dwords zero dest src i m = m
copy_dwords (suc n) dest src i m =
    copy_dwords n dest src (i + 1) (copy_dword (dest + 4 * i) (src + 4 * i) m)

-- `dest8[i] = src8[i]`
unfoldable pub copy_bytes : (rounds dest src i : ℕ) → Memory → Memory
copy_bytes zero dest src i m = m
copy_bytes (suc n) dest src i m =
    copy_bytes n dest src (i + 1) (write_byte (dest + i) (m (src + i)) m)

unfoldable pub memcpy : (dest src n : ℕ) → Memory → Memory
memcpy dest src n m =
    let num_dwords = n / 4 in
    let num_bytes = n % 4 in
    copy_bytes num_bytes (dest + num_dwords * 4) (src + num_dwords * 4) 0
      (copy_dwords num_dwords dest src 0 m)

-- `for (i = n; i > 0; --i) a[i-1] = b[i-1];`
unfoldable pub copy_down : (i dest src : ℕ) → Memory → Memory
copy_down zero dest src m = m
copy_down (suc i) dest src m = copy_down i dest src (write_byte (dest + i) (m (src + i)) m)

unfoldable pub memmove : (dest src n : ℕ) → Memory → Memory
memmove dest src n m = if ltb src dest then copy_down n dest src m else copy_bytes n dest src 0 m

-- `dest32[i] = v`, the lowest byte first.
unfoldable pub write_dword : (dest v : ℕ) → Memory → Memory
write_dword dest v m = write_byte (dest + 3) (v / 2 ^ 24 % 256) (
    write_byte (dest + 2) (v / 2 ^ 16 % 256)
      (write_byte (dest + 1) (v / 2 ^ 8 % 256) (write_byte dest (v % 256) m)))

unfoldable pub set_dwords : (rounds dest i v : ℕ) → Memory → Memory
set_dwords zero dest i v m = m
set_dwords (suc n) dest i v m = set_dwords n dest (i + 1) v (write_dword (dest + 4 * i) v m)

unfoldable pub set_bytes : (rounds dest i v : ℕ) → Memory → Memory
set_bytes zero dest i v m = m
set_bytes (suc n) dest i v m = set_bytes n dest (i + 1) v (write_byte (dest + i) v m)

-- `val|(val<<8)|(val<<16)|(val<<24)`
unfoldable pub val32 : ℕ → ℕ
val32 val =
    bit_or (bit_or (bit_or val (val * 2 ^ 8 % 2 ^ 32)) (val * 2 ^ 16 % 2 ^ 32))
      (val * 2 ^ 24 % 2 ^ 32)

unfoldable pub memset : (dest val n : ℕ) → Memory → Memory
memset dest val n m =
    let num_dwords = n / 4 in
    let num_bytes = n % 4 in
    set_bytes num_bytes (dest + num_dwords * 4) 0 (val % 256)
      (set_dwords num_dwords dest 0 (val32 val) m)
