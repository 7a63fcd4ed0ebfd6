-- ===== src/BigstringUnix/Channel.antt =====
-- `struct channel` of bigstring_unix_stubs.c. The pointers `curr` and `max` are offsets into the
-- buffer, and `end` is its length.
use ppx_universe.Base.{ℕ, ◌-◌, List, take, drop}

pub record Channel : Type 0 where
  pub buff : List ℕ
  pub curr : ℕ
  pub max : ℕ
  pub offset : ℕ

-- The bytes that an input channel holds.
abbrev pub available : Channel → List ℕ
available c = take (c.max - c.curr) (drop c.curr c.buff)

-- The bytes that an output channel holds.
abbrev pub pending : Channel → List ℕ
pending c = take c.curr c.buff
