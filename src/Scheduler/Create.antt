-- ===== src/Scheduler/Create.antt =====
-- kernel/thread.c: `thread_create`. Memory is a function from addresses to words of 4 bytes; addresses do not
-- go round the end of the address space.
use beryllium.Base.{
  ℕ, ◌+◌, ◌-◌, ◌*◌, ◌%◌, ◌^◌, ◌≤◌, ◌<◌, ◌≡◌, ◌≢◌, ◌&&◌, arith, leb, ltb, ◌==◌, if◌then◌else◌,
}

-- `thread_t`
pub record Thread : Type 0 where
  pub esp : ℕ
  pub ebp : ℕ
  pub ebx : ℕ
  pub esi : ℕ
  pub edi : ℕ
  pub eflags : ℕ
  pub tid : ℕ
  pub level : ℕ
  pub owner_pid : ℕ
  pub stack : ℕ
  pub stack_ptr : ℕ
  pub status : ℕ

abbrev pub zero_thread : Thread
zero_thread = record {
  esp = 0;
  ebp = 0;
  ebx = 0;
  esi = 0;
  edi = 0;
  eflags = 0;
  tid = 0;
  level = 0;
  owner_pid = 0;
  stack = 0;
  stack_ptr = 0;
  status = 0;
}

unfoldable pub write_word : (a v : ℕ) → (ℕ → ℕ) → ℕ → ℕ
write_word a v m b = if b == a then v else m b

-- `memset` of the stack.
unfoldable pub clear_stack : (stack : ℕ) → (ℕ → ℕ) → ℕ → ℕ
clear_stack stack m a = if leb stack a && ltb a (stack + 4096) then 0 else m a

-- `thread_id` and the memory.
pub record Threads : Type 0 where
  pub thread_id : ℕ
  pub words : ℕ → ℕ

-- `stack` is what `malloc(0x1000)` returned, and `exit` the address of `thread_exit`.
unfoldable pub thread_create : (level pid fn exit stack : ℕ) → Threads → Thread × Threads
thread_create level pid fn exit stack s =
    let stack_ptr = stack + 1280 * 4 in
    let m1 = write_word (stack_ptr - 4) exit (clear_stack stack s.words) in
    let m2 = write_word (stack_ptr - 8) fn m1 in
    let m3 = write_word (stack_ptr - 12) 0 m2 in
    (
      record zero_thread {
        tid = s.thread_id;
        level = level;
        owner_pid = pid;
        stack = stack;
        ebp = stack_ptr - 12;
        esp = stack_ptr - 12;
        eflags = 512;
      },
      record { thread_id = (s.thread_id + 1) % 2 ^ 32; words = m3 },
    )

-- `threading_start`: the thread that runs is `thread`, which `malloc` returned.
unfoldable pub threading_start : (thread : Thread) → Threads → Thread × Threads
threading_start thread s =
    (record thread { tid = s.thread_id }, record s { thread_id = (s.thread_id + 1) % 2 ^ 32 })

-- The stack pointer of a new thread has 0, the function and the address of its return above it, and lies
-- behind the 4096 bytes of the stack, which all stay 0; each other word of memory is as it was. So the
-- three words go to memory that was not allocated for the stack.
pub thread_create-outside :
    (level pid fn exit stack : ℕ) (s : Threads)
    → (let (t, s') = thread_create level pid fn exit stack s in
        (s'.words t.esp ≡ 0)
        × (s'.words (t.esp + 4) ≡ fn)
        × (s'.words (t.esp + 8) ≡ exit)
        × (t.stack + 4096 ≤ t.esp)
        × ((a : ℕ) → t.stack ≤ a → a < t.stack + 4096 → s'.words a ≡ 0)
        × ((a : ℕ)
            → (a < t.stack → s'.words a ≡ s.words a)
              × (t.stack + 4096 ≤ a
                  → a ≢ t.esp
                  → a ≢ t.esp + 4
                  → a ≢ t.esp + 8
                  → s'.words a ≡ s.words a)))
unfolding thread_create write_word clear_stack
thread_create-outside level pid fn exit stack s = (
  ground arith,
  ground arith,
  ground arith,
  omega arith,
  λ a le lt. ground (arith, le, lt),
  λ a. (λ lt. ground (arith, lt), λ le x y z. ground (arith, le, x, y, z)),
)
