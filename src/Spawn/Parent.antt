-- ===== src/Spawn/Parent.antt =====
-- The code of spawn_stubs.c that runs in the parent: spawn_unix. What the calls into the system
-- answer is a parameter, a System; the child is the function of Child.antt, from whose end the
-- answer to read follows.
pub mod Outcomes
pub mod Restored
pub mod Piped
use ppx_universe.Base.{
  ℕ, zero, suc, ◌+◌, ◌-◌, ◌≡◌, ◌≢◌, List, [], ◌∷◌, Bool, true, false, Option, none, some,
  if◌then◌else◌, ◌==◌,
}
use ppx_universe.BigstringUnix.Replies.{Errno, einval}
use ppx_universe.Spawn.Failure.{Function, Failure, nothing}
use ppx_universe.Spawn.Table.{Entry, Table, Kernel, Reply, ok, error, update, close}
use ppx_universe.Spawn.Child.{
  WorkingDir, inherit, path, dir_fd, SpawnInfo, Directory, Mask, every_signal, Handler, Process,
  Result, ran, exited, unfinished, subprocess,
}

-- The copies that are made of strings, and how many of each are allocated.
pub data Copy : Type 0 where
  cwd_copy prog_copy argv_copy env_copy : Copy

pub record Heap : Type 0 where
  pub cwds : ℕ
  pub progs : ℕ
  pub argvs : ℕ
  pub envs : ℕ

pub record Parent : Type 0 where
  pub process : Process
  pub cancel_enabled : Bool
  pub in_blocking_section : Bool
  pub heap : Heap
  pub children : List ℕ

-- What read gives when it neither ends at the end of the file nor has the whole report.
pub data ReadFault : Type 0 where
  failed : Errno → ReadFault
  short : ReadFault

-- The answers of the system: of pipe2, with the files of the two ends; of fork or vfork; of read
-- where it fails; of malloc. Descriptors are below open_max.
pub record System : Type 0 where
  pub kernel : Kernel
  pub open_max : ℕ
  pub pipe_fds : Table → Reply (ℕ × ℕ)
  pub read_file : ℕ
  pub write_file : ℕ
  pub fork_pid : Reply ℕ
  pub read_fault : Option ReadFault
  pub no_memory : Copy → Bool

pub data Outcome : Type 0 where
  spawned_pid : ℕ → Outcome
  unix_error : Failure → Outcome
  out_of_memory : Outcome
  blocked : Outcome

abbrev pub alloc : Copy → Heap → Heap
alloc cwd_copy h = record h { cwds = suc h.cwds }
alloc prog_copy h = record h { progs = suc h.progs }
alloc argv_copy h = record h { argvs = suc h.argvs }
alloc env_copy h = record h { envs = suc h.envs }

abbrev pub free : Copy → Heap → Heap
free cwd_copy h = record h { cwds = h.cwds - 1 }
free prog_copy h = record h { progs = h.progs - 1 }
free argv_copy h = record h { argvs = h.argvs - 1 }
free env_copy h = record h { envs = h.envs - 1 }

-- strdup and alloc_string_vect in their order, as far as there is memory.
unfoldable pub copy_all : (Copy → Bool) → List Copy → Heap → Bool × Heap
copy_all no_memory [] h = (true, h)
copy_all no_memory (x ∷ xs) h =
    let rest = copy_all no_memory xs (alloc x h) in if no_memory x then (false, h) else rest

abbrev pub copies : WorkingDir → List Copy
copies (path name) = cwd_copy ∷ prog_copy ∷ argv_copy ∷ env_copy ∷ []
copies inherit = prog_copy ∷ argv_copy ∷ env_copy ∷ []
copies (dir_fd fd) = prog_copy ∷ argv_copy ∷ env_copy ∷ []

unfoldable pub free_spawn_info : WorkingDir → Heap → Heap
free_spawn_info (path name) h = free env_copy (free argv_copy (free prog_copy (free cwd_copy h)))
free_spawn_info inherit h = free env_copy (free argv_copy (free prog_copy h))
free_spawn_info (dir_fd fd) h = free env_copy (free argv_copy (free prog_copy h))

abbrev pub failure : Errno → Function → Failure
failure e function = record { errno = e; function = function; arg = nothing }

-- The table with the two ends of the pipe, which are FD_CLOEXEC.
abbrev pub with_pipe : System → ℕ → ℕ → Table → Table
with_pipe sys r w t =
    update (update t r (some (record { file = sys.read_file; cloexec = true }))) w
      (some (record { file = sys.write_file; cloexec = true }))

-- Whether a descriptor below the bound has the file.
abbrev pub refers : ℕ → ℕ → Table → Bool
refers zero file t = false
refers (suc n) file t = elim (t n) [
  | none ↦ refers n file t
  | some e ↦ if e.file == file then true else refers n file t
]

-- What read(result_pipe[0], &failure, sizeof(failure)) gives: nothing at the end of the file.
pub data ReadReply : Type 0 where
  end_of_file no_reply : ReadReply
  report : Failure → ReadReply
  fault : ReadFault → ReadReply

abbrev report_on : System → Failure → Option Entry → ReadReply
report_on sys f none = end_of_file
report_on sys f (some e) = if e.file == sys.write_file then report f else end_of_file

abbrev pub read_pipe : System → ℕ → Option ReadFault → Result (Unit {0}) → ReadReply
read_pipe sys w (some e) result = fault e
read_pipe sys w none (ran a p) =
    if refers sys.open_max sys.write_file p.fds then no_reply else end_of_file
read_pipe sys w none (exited f p) = report_on sys f (p.fds w)
read_pipe sys w none unfinished = no_reply

-- `got_error` and `failure`, after read.
abbrev pub read_error : ReadFault → Failure
read_error (failed e) = failure e Function.read
read_error short = failure einval Function.read

abbrev pub remove : ℕ → List ℕ → List ℕ
remove n [] = []
remove n (x ∷ xs) = if n == x then xs else x ∷ remove n xs

abbrev with_fds : Table → Parent → Parent
with_fds t s = record s { process = record (s.process) { fds = t } }

-- From `close(result_pipe[0])` to the end, with what was saved before.
unfoldable pub restore : ℕ → Mask → Bool → Parent → Parent
unfolding close
restore r saved_procmask cancel_state s = record s {
  process = record (s.process) { fds = close r s.process.fds; mask = saved_procmask };
  cancel_enabled = cancel_state;
  in_blocking_section = false;
}

-- The answer of read, and waitpid where it is an error.
unfoldable pub after_read : ℕ → ℕ → Mask → Bool → ReadReply → Parent → Outcome × Parent
unfolding restore
after_read r pid mask cancel end_of_file s = (spawned_pid pid, restore r mask cancel s)
after_read r pid mask cancel no_reply s = (blocked, s)
after_read r pid mask cancel (report f) s =
    (unix_error f, restore r mask cancel (record s { children = remove pid s.children }))
after_read r pid mask cancel (fault e) s = (
  unix_error (read_error e),
  restore r mask cancel (record s { children = remove pid s.children }),
)

-- What the child is when it starts, after `close(result_pipe[0])`.
unfoldable pub forked : ℕ → ℕ → Process → Process
unfolding close
forked r pid p = record p { pid = pid; fds = close r p.fds; mask = every_signal }

-- From fork on; s is the parent with the pipe, all signals blocked.
unfoldable pub after_fork :
    System → SpawnInfo → ℕ → ℕ → Mask → Bool → Reply ℕ → Parent → Outcome × Parent
unfolding restore after_read forked subprocess free_spawn_info close
after_fork sys info r w mask cancel answer s =
    let s' : Parent = record s {
      process = record (s.process) { fds = close w s.process.fds };
      heap = free_spawn_info info.working_dir s.heap;
    } in
    elim answer [
      | error e ↦ (unix_error (failure e Function.vfork), restore r mask cancel s')
      | ok pid ↦
          after_read r pid mask cancel
            (read_pipe sys w sys.read_fault (subprocess sys.kernel info (forked r pid s.process)))
            (record s' { children = pid ∷ s'.children })
    ]

-- From safe_pipe on.
unfoldable pub after_pipe : System → SpawnInfo → Reply (ℕ × ℕ) → Parent → Outcome × Parent
unfolding after_fork free_spawn_info
after_pipe sys info (error e) s = (
  unix_error (failure e Function.pipe),
  record s { in_blocking_section = false; heap = free_spawn_info info.working_dir s.heap },
)
after_pipe sys info (ok (r, w)) s =
    after_fork sys info r w s.process.mask s.cancel_enabled sys.fork_pid (record s {
      process = record (s.process) { fds = with_pipe sys r w s.process.fds; mask = every_signal };
      cancel_enabled = false;
    })

-- spawn_unix, called outside a blocking section.
unfoldable pub spawn_unix : System → SpawnInfo → Parent → Outcome × Parent
unfolding copy_all after_pipe
spawn_unix sys info s =
    let (done, heap) = copy_all sys.no_memory (copies info.working_dir) s.heap in
    if done
    then after_pipe sys info (sys.pipe_fds s.process.fds)
        (record s { heap = heap; in_blocking_section = true })
    else (out_of_memory, record s { heap = heap })
