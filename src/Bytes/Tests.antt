-- ===== src/Bytes/Tests.antt =====
-- kernel/lib/string.c: the properties at a memory in which each byte is its address.
use beryllium.Base.{◌%◌, ◌≡◌, refl, inr, arith}
use beryllium.Bytes.{Memory, write_byte, copy_down, memcpy, memmove}
use beryllium.Bytes.Copies.{copied, memmove-copied, memcpy-copied}

abbrev numbered : Memory
numbered a = a % 256

-- The last byte of five that move up by two.
moved : memmove 12 10 5 numbered 16 ≡ 14
unfolding memmove copy_down write_byte
moved = refl

memmove-copied_example : memmove 12 10 5 numbered 16 ≡ copied 12 10 5 numbered 16
memmove-copied_example = memmove-copied 12 10 5 numbered 16

memcpy-copied_example : memcpy 40 10 11 numbered 50 ≡ copied 40 10 11 numbered 50
memcpy-copied_example = memcpy-copied 40 10 11 numbered 50 (inr (omega arith))
