-- ===== src/BigstringUnix/Replies.antt =====
-- What the kernel answers and what a primitive of bigstring_unix_stubs.c ends in. The system calls
-- are a parameter: the list of the answers that they give, in order. An answer is honest where it
-- holds no more bytes than were asked for.
use ppx_universe.Base.{ℕ, zero, suc, ◌+◌, ◌-◌, ◌%◌, ◌^◌, ◌≤◌, List, [], ◌∷◌, ◌++◌, length}

pub data Errno : Type 0 where
  eintr eagain ewouldblock einval : Errno
  other : ℕ → Errno

-- -1 with errno, or the bytes that were read; no bytes stand for the end of the file.
pub data ReadReply : Type 0 where
  failed : Errno → ReadReply
  bytes : List ℕ → ReadReply

-- -1 with errno, or the count of the bytes that were written.
pub data WriteReply : Type 0 where
  failed : Errno → WriteReply
  wrote : ℕ → WriteReply

-- The name that a Unix error carries.
pub data Command : Type 0 where
  read really_recv input output really_write really_send_no_sigpipe : Command

pub data Exn : Type 0 where
  end_of_file : Exn
  unix_error : Errno → Command → Exn

-- A result, Bigstring.IOError with the count of the good bytes, or a system call that has not
-- answered yet.
pub data Outcome : Type 0 where
  returned : ℕ → Outcome
  io_error : ℕ → Exn → Outcome
  blocked : Outcome

abbrev pub IsDone : Outcome → Type 0
IsDone (returned n) = Unit {0}
IsDone (io_error n e) = Unit {0}
IsDone blocked = ⊥

-- size_t
abbrev pub word : ℕ
word = 2 ^ 64

abbrev pub sub_size : ℕ → ℕ → ℕ
sub_size a b = (a + word - b) % word

-- All the bytes that the answers bring.
abbrev pub payload : List ReadReply → List ℕ
payload [] = []
payload (ReadReply.failed e ∷ replies) = payload replies
payload (bytes bs ∷ replies) = bs ++ payload replies

-- Answers to calls that asked for these counts of bytes: none holds more.
abbrev pub HonestReads : List ℕ → List ReadReply → Type 0
HonestReads [] replies = Unit {0}
HonestReads (n ∷ asked) [] = Unit {0}
HonestReads (n ∷ asked) (ReadReply.failed e ∷ replies) = HonestReads asked replies
HonestReads (n ∷ asked) (bytes bs ∷ replies) = (length bs ≤ n) × HonestReads asked replies

-- The answers that no call has used.
abbrev pub unused : List ℕ → List ReadReply → List ReadReply
unused [] replies = replies
unused (n ∷ asked) [] = []
unused (n ∷ asked) (reply ∷ replies) = unused asked replies

-- The answers that are not EINTR.
abbrev pub read_answers : List ReadReply → ℕ
read_answers [] = 0
read_answers (ReadReply.failed eintr ∷ replies) = read_answers replies
read_answers (ReadReply.failed e ∷ replies) = suc (read_answers replies)
read_answers (bytes bs ∷ replies) = suc (read_answers replies)

-- Answers to calls that offered these counts of bytes: none takes more.
abbrev pub HonestWrites : List ℕ → List WriteReply → Type 0
HonestWrites [] replies = Unit {0}
HonestWrites (n ∷ offered) [] = Unit {0}
HonestWrites (n ∷ offered) (WriteReply.failed e ∷ replies) = HonestWrites offered replies
HonestWrites (n ∷ offered) (wrote m ∷ replies) = (m ≤ n) × HonestWrites offered replies

-- The answers that end a loop or take bytes.
abbrev pub write_answers : List WriteReply → ℕ
write_answers [] = 0
write_answers (WriteReply.failed eintr ∷ replies) = write_answers replies
write_answers (WriteReply.failed e ∷ replies) = suc (write_answers replies)
write_answers (wrote zero ∷ replies) = write_answers replies
write_answers (wrote (suc n) ∷ replies) = suc (write_answers replies)
