-- ===== src/Frames.antt =====
-- kernel/arch/x86/page_allocator.c: the bitmap of page frames. Words, addresses and numbers of frames
-- are `uint32_t`; `-1` is 2^32 - 1.
pub mod Bitmap
pub mod Allocation
pub mod Release
mod Tests
use Prim.Native.Nat.{bit_and, bit_or}
use beryllium.Base.{
  ℕ, zero, suc, ◌+◌, ◌-◌, ◌*◌, ◌/◌, ◌%◌, ◌^◌, Bool, Option, none, some, List, [], ◌∷◌, ◌++◌, ◌==◌,
  if◌then◌else◌, length, ltb, get_or, set, take, drop, replicate,
}
use beryllium.Timing.{int_lt}

-- `frame`, the words of memory from the bitmap's first one on, and `frame_amount`.
pub record Frames : Type 0 where
  pub frame : List ℕ
  pub frame_amount : ℕ

-- `page_t`
pub record Page : Type 0 where
  pub present : ℕ
  pub rw : ℕ
  pub user : ℕ
  pub accessed : ℕ
  pub dirty : ℕ
  pub unused : ℕ
  pub frame : ℕ

unfoldable pub index_from_bit : ℕ → ℕ
index_from_bit b = b / 0x20

unfoldable pub offset_from_bit : ℕ → ℕ
offset_from_bit b = b % 0x20

-- `none` is a write behind the memory at hand.
unfoldable pub set_frame : (address : ℕ) → Frames → Option Frames
set_frame address s =
    let frame_addr = address / 0x1000 in
    let index = index_from_bit frame_addr in
    let offset = offset_from_bit frame_addr in
    if ltb index (length s.frame)
    then some
        (record s { frame = set s.frame index (bit_or (get_or s.frame index 0) (2 ^ offset)) })
    else none

unfoldable pub clear_frame : (address : ℕ) → Frames → Option Frames
clear_frame address s =
    let frame_addr = address / 0x1000 in
    let index = index_from_bit frame_addr in
    let offset = offset_from_bit frame_addr in
    if ltb index (length s.frame)
    then some (record s {
      frame = set s.frame index (bit_and (get_or s.frame index 0) (2 ^ 32 - 1 - 2 ^ offset));
    })
    else none

unfoldable pub test_frame : (address : ℕ) → Frames → ℕ
test_frame address s =
    let frame_addr = address / 0x1000 in
    bit_and (get_or s.frame (index_from_bit frame_addr) 0) (2 ^ offset_from_bit frame_addr)

-- The inner loop of `pa_first_frame`, from `j` on.
unfoldable pub first_bit : (rounds j : ℕ) → ℕ → Option ℕ
first_bit zero j w = none
first_bit (suc n) j w =
    let rest = first_bit n (j + 1) w in if bit_and w (2 ^ j) == 0 then some j else rest

-- The outer loop, from the word `i` on.
unfoldable pub first_from : (i : ℕ) → List ℕ → ℕ
first_from i [] = 2 ^ 32 - 1
first_from i (w ∷ ws) =
    let rest = first_from (i + 1) ws in
    if w == 0xFFFFFFFF
    then rest
    else elim (first_bit 32 0 w) [ none ↦ rest | some j ↦ (i * 0x20 + j) % 2 ^ 32 ]

unfoldable pub first_frame : Frames → ℕ
first_frame s = first_from 0 (take (index_from_bit s.frame_amount) s.frame)

-- `none` is the halt for want of frames, or a write behind the memory. `frame` has 20 bits.
unfoldable pub alloc_frame : (kernel writable : ℕ) → Page → Frames → Option (Page × Frames)
alloc_frame kernel writable page s =
    if int_lt 1 kernel
    then some (page, s)
    else if page.frame == 0
    then (let index = first_frame s in
        if index == 2 ^ 32 - 1 then none else elim (set_frame (index * 0x1000 % 2 ^ 32) s) [
          | none ↦ none
          | some s' ↦ some (
            record page {
              present = 1;
              rw = if writable == 0 then 0 else 1;
              user = if kernel == 0 then 1 else 0;
              frame = index % 2 ^ 20;
            },
            s',
          )
        ])
    else some (page, s)

unfoldable pub free_frame : Page → Frames → Option (Page × Frames)
free_frame page s = if page.frame == 0 then some (page, s) else elim (clear_frame page.frame s) [
  | none ↦ none
  | some s' ↦ some (record page { frame = 0 }, s')
]

-- `init_page_allocator`, over the memory that the bitmap gets: `memset` clears as many bytes as the
-- bitmap has words.
unfoldable pub init : (mem_end : ℕ) → (memory : List ℕ) → Frames
init mem_end memory =
    let amount = mem_end / 0x1000 * 0x1000 / 4 in
    let words = index_from_bit amount / 4 in
    record { frame = replicate words 0 ++ drop words memory; frame_amount = amount }
