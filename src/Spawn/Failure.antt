-- ===== src/Spawn/Failure.antt =====
-- struct subprocess_failure of spawn_stubs.c: what the child tells the parent when a call fails.
use ppx_universe.BigstringUnix.Replies.{Errno}

pub data ErrorArg : Type 0 where
  nothing cwd prog : ErrorArg

-- The names of system calls that an error carries.
pub data Function : Type 0 where
  setpgid chdir fchdir dup dup2 execve pipe vfork read : Function

-- struct subprocess_failure
pub record Failure : Type 0 where
  pub errno : Errno
  pub function : Function
  pub arg : ErrorArg
