-- ===== src/Input.antt =====
-- kernel/input.c: the ring of typed characters, kept as an array that is shifted on every read.
pub mod Shift
pub mod Fifo
mod Tests
use beryllium.Base.{
  ℕ, zero, suc, ◌+◌, ◌-◌, ◌%◌, ◌^◌, Option, none, some, List, ltb, ◌==◌, if◌then◌else◌, get_or, set,
}

-- `ibuffer` and `ibuffer_i`.
pub record Input : Type 0 where
  pub buffer : List ℕ
  pub count : ℕ

-- `sizeof(ibuffer)`.
abbrev pub size : ℕ
size = 0xFF

-- `input_add_char`. At a count of 0xFF it prints that it drops the character and goes on all the
-- same; `none` is the write past the end of the array.
pub add_char : ℕ → Input → Option Input
add_char c b =
    if c == 0
    then some b
    else if ltb b.count size
    then some (record { buffer = set b.buffer b.count c; count = (b.count + 1) % 2 ^ 32 })
    else none

-- One round of the loop of `input_read`: `past` is the byte that lies behind the array, which the
-- last round reads.
unfoldable pub shift_round : (i past : ℕ) → List ℕ → List ℕ
shift_round i past buf = set buf i (if i + 1 == size then past else get_or buf (i + 1) 0)

unfoldable pub shift_from : (rounds i past : ℕ) → List ℕ → List ℕ
shift_from zero i past buf = buf
shift_from (suc n) i past buf = shift_from n (i + 1) past (shift_round i past buf)

pub read : (past : ℕ) → Input → Input × ℕ
read past b =
    let c = get_or b.buffer 0 0 in
    if c == 0 then (b, 0) else (
      record {
        buffer = shift_from size 0 past (set b.buffer 0 0);
        count = (b.count + 2 ^ 32 - 1) % 2 ^ 32;
      },
      c,
    )
