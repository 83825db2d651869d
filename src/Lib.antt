-- ===== src/Lib.antt =====
-- umpi, a small MPI implementation: processes of one machine share a mapping with their mailboxes,
-- and move message bytes directly between their address spaces with process_vm_readv and
-- process_vm_writev. This library models its core and proves what makes it correct.
--
-- Parts, and the file that models each (source paths are from the repository's root):
--   Iovec        umpi.hh, `umpi_iovec`: the description of a datatype as an array
--   Datatype     umpi.cc, MPI_Type_contiguous, _create_hindexed, _create_struct, _create_resized;
--                Datatype.Commit has `shared::commit` and MPI_Type_commit, Datatype.Freeing
--                MPI_Type_free
--   World        umpi.hh, `cookie` (a request) and `process` (its lists), with `notify_done`
--   Transfer     umpi.cc, `write_to_owner`, `read_from_owner`; Transfer.Copy has `umpi_copy`
--   Mailbox      umpi.cc, `recv_request`, `send_request`, `finalize`, `leave`, `find_any`;
--                Mailbox.Engine is what they promise: queues of envelopes, without requests
--   Calls        umpi.cc, MPI_Irecv, MPI_Isend, MPI_Wait, MPI_Test, MPI_Get_count; Calls.Any and
--                Calls.Waitany have MPI_Waitany, Calls.Probe has MPI_Probe and MPI_Iprobe, Calls.Waitall
--                MPI_Waitall, and Calls.Blocking MPI_Recv, MPI_Ssend and MPI_Send
--   Collect      umpi.cc, the slots of collective operations and MPI_Ibcast; Collect.Rooted has
--                gather, gatherv and scatter, Collect.Everyone MPI_Iallgather, Collect.Scan
--                MPI_Iscan and MPI_Iexscan, Collect.Allreduce MPI_Iallreduce,
--                Collect.Blocking the calls that wait, and Collect.Allgatherv
--                MPI_Allgatherv as a program of such calls
--   Pool         memory_pool.hh, the allocator of the shared memory, and pool_allocator.hh
--   Offset       based_ptr.hh, pointers relative to the start of the mapping
--   Mapping      umpi.hh, `calc_mmap_len`: the length of the mapping
--   Launcher     mpiexec.cc, with `find_rank` of umpi.hh
--   Wrapper      mpicc.cc, the arguments of the compiler
--   Pack         umpi.cc, MPI_Pack, MPI_Unpack, MPI_Pack_size
--   Reduce       funcs.hh, the switch and the loop of the predefined reductions
--   Environment  umpi.cc, MPI_Initialized, MPI_Finalized and the calls on communicators
--   Startup      umpi.hh, the constructors of `shared`, `process` and `collect`, with those of ipc.hh,
--                and umpi.cc, `shared::init`; Startup.Calling has MPI_Init, MPI_Finalize,
--                MPI_Barrier and the other calls on the environment in one process, and
--                Startup.Group many processes at the barrier, as a step relation;
--                Startup.Room and Startup.Places are about where it all lies
--   Tests        each property at a concrete input
--
-- How they interact: a send or a receive looks through a box of the other or of its own process
-- (Mailbox); if it finds its counterpart, it moves the bytes (Transfer), which marks the request as
-- done and wakes its owner (World), and the owner's MPI_Wait goes on (Calls). Collective
-- operations do the same through a shared slot. The nodes of the boxes come from the Pool. Datatypes
-- describe the buffers of all transfers.
--
-- State: a World has all requests by address, all processes by rank, and the bytes of each process.
-- An operation is a function from worlds to worlds. What a mutex protects is one function, so an
-- interleaving of processes is a sequence of such functions (the steps of Mailbox.Boxes.Finalize). A
-- call that finds the root's request of a collective operation is two of them, what it does under the
-- lock of the slot and its transfer after the unlock (Collect.Counting).
-- A blocking call is split at its sleep: Calls has the part before it and a round after it.
--
-- Numbers are naturals, with the wrap-around of `size_t`, `int` and `int16_t` written out
-- (Base.Machine). A result `none` is a division by zero or the use of a null pointer, as each
-- definition says. The system calls are a parameter of the model, the record `Kernel`; that they
-- copy what they report, and in some theorems that they report all bytes, are the hypotheses `Copies`
-- and `Reliable` of Transfer.Delivery, which Tests.Samples shows to hold for a kernel that copies.
-- The only fuel is that of the copying loop in Datatype, one more than the number of segments, since
-- the loop's index grows by the number of segments of the old type in each round.
--
-- Launcher and Wrapper take what system calls answer as an argument. The launcher's run is its return
-- value and the list of its effects on the shared file and the processes; its constructor of `shared`
-- is that of Startup.
--
-- The start of the library takes the answers of the system and of pthreads as an argument too. The
-- barrier is a parameter: which calls of `wait` it lets return, of which the theorem on groups assumes
-- what POSIX says. The histories of the pool (Pool.Histories) are sequences of requests and returns,
-- each of which holds the pool's mutex.
--
-- Not modelled: lock, unlock, wait and notify of ipc.hh, which pass one pthread call on, and MPI_Wtime,
-- which reads a clock. The arithmetic of the element types, floating-point numbers among them, is a parameter of the
-- reductions, and the operation is one of a scan or an allreduce.
pub mod Base
pub mod Iovec
pub mod Datatype
pub mod World
pub mod Transfer
pub mod Mailbox
pub mod Calls
pub mod Collect
pub mod Pool
pub mod Offset
pub mod Wrapper
pub mod Mapping
pub mod Launcher
pub mod Pack
pub mod Reduce
pub mod Environment
pub mod Startup
pub mod Tests
