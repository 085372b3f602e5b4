-- ===== src/OrderedArray.antt =====
-- kernel/arch/x86/lib/ordered_array.c: an array kept in the order of a predicate. Items are words;
-- `less_than` is `none` where the function pointer is NULL. The `printf` of a failed look-up is left
-- out, and so is where the storage comes from.
pub mod Insert
pub mod Order
pub mod Remove
mod Tests
use beryllium.Base.{
  ℕ, zero, suc, ◌+◌, ◌-◌, ◌%◌, ◌^◌, Bool, ◌&&◌, Option, none, some, List, ltb, ◌==◌, if◌then◌else◌,
  get_or, set, replicate,
}

pub record OrderedArray : Type 0 where
  pub array : List ℕ
  pub size : ℕ
  pub max_size : ℕ
  pub less_than : Option (ℕ → ℕ → Bool)

-- `standard_lessthan_predicate`.
pub standard : ℕ → ℕ → Bool
standard a b = ltb a b

-- `create_ordered_array` and `place_ordered_array`, at storage of `max_size` cleared words.
pub create : ℕ → Option (ℕ → ℕ → Bool) → OrderedArray
create max_size less_than = record {
  array = replicate max_size 0;
  size = 0;
  max_size = max_size;
  less_than = less_than;
}

-- The first loop of `insert_ordered_array`, for at most the given number of rounds.
pub position : (lt : ℕ → ℕ → Bool) (item size rounds iterator : ℕ) → List ℕ → ℕ
position lt item size zero iterator m = iterator
position lt item size (suc n) iterator m =
    let next = position lt item size n (iterator + 1) m in
    if ltb iterator size && lt (get_or m iterator 0) item then next else iterator

-- The second loop: each round puts `tmp` one further and picks up what was there.
pub shift_up : (rounds iterator tmp : ℕ) → List ℕ → List ℕ
shift_up zero iterator tmp m = m
shift_up (suc n) iterator tmp m =
    shift_up n (iterator + 1) (get_or m (iterator + 1) 0) (set m (iterator + 1) tmp)

-- `insert_ordered_array`. Both branches write the word behind the items; `none` is that write behind
-- the end of the storage, which the code does not check.
pub insert : ℕ → OrderedArray → Option OrderedArray
insert item a = elim a.less_than [
  | none ↦ some a
  | some lt ↦
      let i = position lt item a.size a.size 0 a.array in
      let grown = record a { size = (a.size + 1) % 2 ^ 32 } in
      if ltb a.size a.max_size
      then some (
          if i == a.size then record grown { array = set a.array i item } else record grown {
            array = shift_up (a.size - i) i (get_or a.array i 0) (set a.array i item);
          })
      else none
]

-- `lookup_ordered_array`: out of bounds it prints and reads all the same; `none` is a read behind
-- the storage.
pub lookup : ℕ → OrderedArray → Option ℕ
lookup i a = if ltb i a.max_size then some (get_or a.array i 0) else none

-- A round of the loop of `remove_ordered_array`; `past` is the word behind the storage, which the
-- last round of a full array reads.
down_round : (max past i : ℕ) → List ℕ → List ℕ
down_round max past i m = set m i (if i + 1 == max then past else get_or m (i + 1) 0)

pub shift_down : (max past rounds i : ℕ) → List ℕ → List ℕ
shift_down max past zero i m = m
shift_down max past (suc n) i m = shift_down max past n (i + 1) (down_round max past i m)

-- `remove_ordered_array`.
pub remove : (past i : ℕ) → OrderedArray → OrderedArray
remove past i a = record a {
  array = shift_down a.max_size past (a.size - i) i a.array;
  size = (a.size + 2 ^ 32 - 1) % 2 ^ 32;
}
