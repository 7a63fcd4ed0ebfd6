-- ===== src/Iobuf/Tests.antt =====
-- Runs of iobuf_stubs.c, and the theorem at one input.
use ppx_universe.Base.{◌≡◌, refl, arith, List, [], ◌∷◌, some}
use ppx_universe.BigstringUnix.Replies.{einval}
use ppx_universe.BigstringUnix.Vectors.{long, minus_errno}
use ppx_universe.BigstringUnix.Recvmmsg.{MmsgReply, messages}
use ppx_universe.Iobuf.{Iobuf, recvmmsg_ctx, update_loop, iobuf_recvmmsg_assume_fd_is_nonblocking}
use ppx_universe.Iobuf.Received.{AllValid, IsFilled, iobuf_recvmmsg_lem, recvmmsg_ctx-Covers}

abbrev iobufs : List Iobuf
iobufs =
    record { buf = 1000; lo_min = 2; lo = 5; hi = 9; hi_max = 20 }
    ∷ record { buf = 2000; lo_min = 0; lo = 0; hi = 10; hi_max = 10 }
    ∷ []

iobufs-AllValid : AllValid iobufs
iobufs-AllValid = (
  record { low = omega arith; window = omega arith; high = omega arith },
  (record { low = omega arith; window = omega arith; high = omega arith }, tt),
)

abbrev reply : MmsgReply
reply = messages (record { msg_len = 18; msg_name = 0 } ∷ record { msg_len = 4; msg_name = 0 } ∷ [])

recvmmsg_runs :
    iobuf_recvmmsg_assume_fd_is_nonblocking iobufs (recvmmsg_ctx iobufs) reply
    ≡ some (
      long 2,
      record { buf = 1000; lo_min = 2; lo = 2; hi = 20; hi_max = 20 }
          ∷ record { buf = 2000; lo_min = 0; lo = 0; hi = 4; hi_max = 10 }
          ∷ [],
    )
unfolding iobuf_recvmmsg_assume_fd_is_nonblocking update_loop recvmmsg_ctx
recvmmsg_runs = refl

-- The second buffer was replaced, after the first has been updated.
recvmmsg_replaced :
    iobuf_recvmmsg_assume_fd_is_nonblocking
      (record { buf = 1000; lo_min = 2; lo = 5; hi = 9; hi_max = 20 }
        ∷ record { buf = 3000; lo_min = 0; lo = 1; hi = 9; hi_max = 10 }
        ∷ [])
      (recvmmsg_ctx iobufs)
      reply
    ≡ some (
      minus_errno einval,
      record { buf = 1000; lo_min = 2; lo = 2; hi = 20; hi_max = 20 }
          ∷ record { buf = 3000; lo_min = 0; lo = 1; hi = 9; hi_max = 10 }
          ∷ [],
    )
unfolding iobuf_recvmmsg_assume_fd_is_nonblocking update_loop recvmmsg_ctx
recvmmsg_replaced = refl

iobuf_recvmmsg_lem_example :
    IsFilled iobufs
      (recvmmsg_ctx iobufs)
      reply
      (iobuf_recvmmsg_assume_fd_is_nonblocking iobufs (recvmmsg_ctx iobufs) reply)
unfolding recvmmsg_ctx
iobuf_recvmmsg_lem_example =
    iobuf_recvmmsg_lem iobufs (recvmmsg_ctx iobufs) reply iobufs-AllValid
      (recvmmsg_ctx-Covers iobufs iobufs-AllValid) (omega arith, (omega arith, tt))
