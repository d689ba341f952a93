-- ===== src/Lib.antt =====
-- Verification of uni20, a C++ library of tensors whose values are computed by asynchronous tasks.
--
-- Seven parts are modelled.
--
-- Async (src/uni20/async): a value has a queue of epochs, each with writers and then readers. Tasks
-- suspend on an epoch and are handed back to the scheduler when its phase lets them run.
--   Async.Task: what a suspended task is known by, and what it meets when it is resumed
--     (epoch_context.hpp and async_task.hpp).
--   Async.Epoch with Writer and Reader: EpochContext of epoch_context.hpp. An operation takes an epoch
--     and the epochs after it (`next_epoch_`, the rest of the list) and returns them with the tasks
--     it hands over; `none` is a failed DEBUG_CHECK. Each operation is one critical section.
--   Async.Epoch.Invariant, Start, Reads, Writes, Extend, Handles, Errors: the phase invariant, and
--     what the operations do to it and to the tasks that wait.
--   Async.Queue: EpochQueue of epoch_queue.hpp and the calls that handles make; a list of calls is an
--     interleaving of the critical sections of all threads. Async.Queue.Lift, Calls, History, Order,
--     Progress, Drain and Writing are about such lists.
--
-- Mdspan (src/uni20/mdspan): loops over tensors of one shape whose elements lie at strided offsets.
--   Mdspan.Vec: the arrays of strides and offsets. Mdspan.Sort: what is asked of std::sort.
--   Mdspan.Strides: extent_strides and the merging of dimensions in strides.hpp.
--   Mdspan.Visits: the offsets that nested loops visit.
--   Mdspan.Plan: the plan for several tensors and the helper that runs it (iteration_plan.hpp),
--     with its results in Mdspan.Plan.Run, Offsets and Zero.
--   Mdspan.Single and Single.Offsets: the plan for one tensor, and its helper.
--   Mdspan.Indices: multi-indices and their offsets. Mdspan.Memory: elements by offset.
--
-- Level1 (src/uni20/level1): Level1.Assign is the copy in assign.hpp, and
--   Level1.ApplyUnary the change in place in apply_unary.hpp.
--
-- Kernel (src/uni20/kernel): tensor contractions.
--   Kernel.Contract: GemmLoop of kernel/cpu/contract.hpp. The scalars are a parameter; the theorems on
--     sums ask that their addition is exact, which floating-point addition is only up to rounding.
--   Kernel.Contract.Cells, Sums and Result: the cells of C, the accumulated sums, and the outcome.
--   Kernel.Extract: extract_strides of mdspan/strides.hpp and contract of kernel/contract.hpp. Legs
--     describes which legs are to go together, Offsets and Elements the elements of a tensor by
--     their indices, and Errors has the outcome of contract.
--
-- Tensor (src/uni20/tensor): Tensor.Layout has the packed layouts in layout.hpp.
--
-- Async.Storage (src/uni20/async): shared_storage.hpp, with Counts, Handles, Values and History.
-- Async.Ownership (src/uni20/async): AsyncTask and AsyncTaskFactory of async_task.hpp, async_task_impl.hpp
--   and async_task_promise.hpp, over a heap of coroutine frames whose addresses are never given out again.
--   Calls are the operations of a task, Suspend what the coroutine that executes does and the factories;
--   Counting says who holds a coroutine, and History is about programs of them. A loop over continuations
--   is on fuel, the number of frames there have been.
-- Async.Sinks (src/uni20/async): the exception sinks of async_task_promise.hpp and buffers.hpp, nodes with links.
--   Links says when the links make lists; Unlink, Remove, Steps, Link and Calls are about the calls, History about
--   programs of them. The loop over the sinks is on fuel, the length of the list.
-- Async.Scheduler (src/uni20/async): DebugScheduler of debug_scheduler.hpp. The loop of run_all is on
--   fuel, one round more than the bound of the ranks of the tasks.
--
-- Common (src/uni20/common): text and terminal helpers. A std::string is a list of bytes.
--   Common.Text: case-insensitive comparison of string_util.hpp.
--   Common.Terminal: terminal.cpp and terminal.hpp. Split, TopLevel and Trim are the splitters and
--     trim; Colors and Rgb the parsers of colours; Style and Parse the styles, their escape
--     sequences and parseTerminalStyle; Shell the quoting; Environment the expansion of variables.
--     std::stoi is a definition, fmt's formatting of an int and getenv are parameters. The loop of
--     expand_environment is on fuel, one more than the length of the text.
--   Common.StaticVector: static_vector.hpp. Slots has the loops over the buffer, Refines and Calls
--     each call against a list, History sequences of calls; Moves, and Swap with
--     Exchange, are calls on two vectors.
--
-- Linalg (src/uni20/linalg): Linalg.Matrix is backends/cpu/matrix_ops_cpu.hpp, on views in one
--   memory; Loops, Results and Rows are about its loops, sums and products, and rows.
--
-- Bounds. Counts of tasks and extents are natural numbers without a bound, strides and offsets
-- integers without a bound: the sums of the source are signed, where overflow has no meaning, or
-- count objects in memory. The loops go down an extent, a rank or a list, but for the loops of
-- expand_environment and run_all.
--
-- Not modelled. The buffers but for their sinks, the TBB schedulers, tracing and the task
-- registry; the mutex itself (a call is taken to be atomic); tensors that overlap; the sum and
-- transform views; BLAS, LAPACK and CUDA back ends; Python bindings.
pub mod Prelude
pub mod Async
pub mod Mdspan
pub mod Level1
pub mod Kernel
pub mod Tensor
pub mod Common
pub mod Linalg
