-- ===== src/Lib.antt =====
-- The C code of the packages in the ppx universe, modelled and proved.
--
-- The repository gathers OCaml packages under duniverse; their C files are the primitives that the
-- OCaml code calls. This library models the arbitrary precision arithmetic of num: the operations
-- on arrays of digits, and the primitives of the OCaml module Nat that call them; the integer
-- primitives and the hash of base; bigstrings: who owns their memory, moves and search, their input
-- and output, and the messages received into buffers; the spawning of processes; and the
-- integers of Zarith: their arithmetic, order, hash and bytes.
--
-- duniverse/num/src/bng_digit.c is Bng.Digit: a macro BngAdd2, BngMult, ... is the function
-- bng_add2, bng_mult, ... that returns what the macro assigns. duniverse/num/src/bng.c is Bng.Add,
-- Bng.Compare, Bng.Shift, Bng.Mult and Bng.DivRem: the generic operation bng_generic_add is
-- bng_add, and so on. A region {a,alen} is the list of its digits, lowest first, whose length is
-- alen; an operation returns the digits that it leaves and the carry or digit that it returns.
--
-- duniverse/num/src/nat_stubs.c is NatStubs. NatStubs.Heap holds the nats in a list, so that two
-- arguments can name one nat, and reads and writes regions of them (Digit_val); NatStubs.Access
-- makes nats, moves digits and tests single digits; NatStubs.Arith calls the operations of Bng on
-- regions; NatStubs.Marshal and NatStubs.Hash are the custom operations serialize_nat,
-- deserialize_nat and hash_nat, over NatStubs.Words, the digits as 32-bit words in memory. A
-- primitive keeps its name and takes the heap first; add_nat stands for add_nat_native too.
--
-- duniverse/base/src/int_math_stubs.c is IntMath: int_pow is a loop on 33 rounds of fuel, one more
-- than an exponent of 63 bits takes, and `none` stands for a loop that has not ended. The builtins
-- of the compiler are parameters. Mlvalues has the conversions between OCaml integers and C words.
--
-- duniverse/core/bigstring_unix/src/bigstring_unix_stubs.c is BigstringUnix. The kernel is a list of
-- answers, one for each system call, in BigstringUnix.Replies: a failure with errno, or the bytes
-- read or the count of bytes written. A list that ends stands for a call that has not returned
-- (`blocked`). Read, Input and Write record the length that each of their calls passes; the theorems
-- ask that the answer to a call holds no more bytes than the length that this call passed, as
-- read(2) and write(2) promise. BigstringUnix.Read has bigstring_read_stub and
-- bigstring_really_recv_stub, Input and Output have bigstring_input_stub and bigstring_output_stub
-- over BigstringUnix.Channel (struct channel), Write has the functions of MakeReallyOutputFun,
-- Vectors has the writes of several bigstrings with jane-street-headers/include/unix_utils.h,
-- Single the primitives of one system call, and Recvmmsg the one over
-- duniverse/core/bigstring_unix/src/recvmmsg.c. A bigstring is the list of its bytes; a position
-- stands for a pointer into it, and size_t wraps at 2 ^ 64. Vectors, Single and Recvmmsg record
-- when the runtime lock is released, what is passed to the kernel and when the copy is freed. No
-- other thread uses a channel while a call runs.
--
-- duniverse/core_kernel/src/bigstring_stubs.c and bigstring_alloc of
-- duniverse/base_bigstring/src/base_bigstring_stubs.c are Bigstrings.Ownership: bigstring_realloc,
-- core_bigstring_destroy and bigstring_destroy_stub on a memory of allocated addresses and of the
-- bigarrays that point to them. What malloc, realloc and caml_ba_alloc answer is an argument.
-- `none` is a call of free, realloc or munmap on an address that is not allocated. A step of the
-- runtime maps a file or gives a bigarray a proxy, which owns the memory from then on.
--
-- Bigstrings.Bytes has the moves, comparison and search of
-- duniverse/base_bigstring/src/base_bigstring_stubs.c, duniverse/bin_prot/src/blit_stubs.c and
-- duniverse/bigstringaf/lib/bigstringaf_stubs.c over one memory, a list of bytes, in which a
-- bigstring is an address. memcmp is a parameter.
--
-- duniverse/base/hash_types/src/internalhash_stubs.c and duniverse/base/src/hash_stubs.c are
-- InternalHash, on words of 32 bits: the macros FINAL_MIX, ROTL32 and MIX are final_mix, rotl32 and
-- mix, and Base_internalhash_fold_blob is fold_blob on a list of bytes. The constants are written in
-- decimal. The mixing functions of the OCaml runtime are parameters.
--
-- duniverse/core/iobuf_unix/src/iobuf_stubs.c is Iobuf: iobuf_recvmmsg_ctx is recvmmsg_ctx, and
-- iobuf_recvmmsg_assume_fd_is_nonblocking_stub works on the records of the buffers.
--
-- duniverse/spawn/src/spawn_stubs.c is Spawn. Spawn.Child has subprocess with what it calls, as
-- functions from a process to a process, or to the report of the call that failed; Spawn.Parent has
-- spawn_unix, from the state of the parent to the outcome and its state; Spawn.Strings has
-- alloc_string_vect and copy_c_string_array. Spawn.Table holds descriptors as POSIX describes them,
-- a function from numbers to open files with FD_CLOEXEC; what the kernel chooses is a parameter:
-- which descriptors dup and pipe2 give, which calls fail and with what errno. The theorems ask that
-- a descriptor given is not in use. The answer to read on the pipe follows from what became of the
-- child: its report if the pipe is still open there, the end of the file if no descriptor below
-- open_max refers to it, and otherwise no answer. safe_dup has four rounds of fuel, since each of
-- the three descriptors below 3 can be given once. Other threads do not change the descriptors, and
-- the memory that a vfork child shares is not modelled.
--
-- duniverse/Zarith/caml_z.c is Zarith: a value is the 63 bits of an OCaml integer (long) or a block
-- with its sign and its limbs; z_plus less z_minus is the integer that it stands for. Z_ARG is
-- z_arg; ml_z_reduce, ml_z_neg, ml_z_abs, ml_z_add, ml_z_sub and ml_z_compare keep their names.
-- Zarith.Equality has ml_z_equal, ml_z_hash, ml_z_to_int and ml_z_fits_int, and Zarith.Marshal
-- ml_z_custom_serialize and ml_z_custom_deserialize, to and from lists of bytes. Zarith.Product has
-- ml_z_mul, where a flag tells whether two arguments share their limbs, and Zarith.Quotient
-- ml_z_tdiv_qr, ml_z_div_rem, ml_z_div and ml_z_rem. The functions of GMP are a parameter with the
-- laws that its manual gives; functions over the digits of num fulfil them in the tests.
--
-- The children of a module (Exact, Order, Round, Sums, ...) hold its proofs. Base and Bits hold
-- what the parts share.
--
-- Digits have 64 bits (ARCH_SIXTYFOUR), little-endian; sums, differences, products and shifts keep
-- their wrap-around. An OCaml integer is its 63 bits; offsets and lengths are not negative. Two
-- regions of one call are disjoint or the same, which the theorems on NatStubs.Arith carry as
-- hypotheses. The loops that correct an estimated quotient run on fuel: 2 ^ 32 rounds in
-- bng_div_aux and 2 ^ 64 in bng_div_rem, more than the half digit or the digit by which the
-- quotient can grow. A call outside the lengths that the code requires has no meaning in C; the
-- theorems carry the requirement as a hypothesis.
--
-- caml/intext.h (the bytes of marshalled words) and caml_hash_mix_uint32 belong to the OCaml
-- runtime and are parameters. The memory that create_nat gets is a parameter too.
--
-- Not modelled: the assembly back ends of num, the big-endian branches, the divisions of Zarith that
-- round otherwise than towards 0, its shifts, bit operations, roots and number theory, which call
-- further functions of GMP, and the other packages, which are listed in the project's manifest.
pub mod Base
pub mod BigstringUnix
pub mod Bigstrings
pub mod Bits
pub mod Bng
pub mod IntMath
pub mod InternalHash
pub mod Iobuf
pub mod Mlvalues
pub mod NatStubs
pub mod Spawn
pub mod Zarith
