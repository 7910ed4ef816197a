-- ===== src/Lib.antt =====
-- Oclgrind: an OpenCL device simulator. A kernel invocation splits its global range into work-groups and
-- these into work-items; the work-items access simulated memory; plugins are told of every access.
--
-- Memory.antt models src/core/Memory.cpp: one address space. An address is a buffer number and an
-- offset, packed into a 64-bit size_t. The vector of buffer pointers is a list of optional buffers, and
-- the queue of free numbers a list. Each operation is a function on the state. What Memory tells the
-- context (notifyMemoryLoad and the like) is a list of notes, the newest first. Memory.Atomic models the atomic
-- operations for the four types at which the template is instantiated. Arrays of the host are lists of bytes.
--
-- NdRange.antt models the constructor of src/core/KernelInvocation.cpp, the sizes of remainder groups in
-- its runWorker, the identifiers that src/core/WorkItem.cpp computes, the index of src/core/WorkGroup.cpp
-- and Size3 of src/core/common.cpp. Only the end of a group is reduced modulo 2^64; the theorems suppose that
-- the range and the local size together stay below it. Identifiers are not reduced: in the ranges that the
-- theorems are about no identifier exceeds the range's end plus the offset.
--
-- Race.antt and Race.Sync model src/plugins/RaceDetector.cpp. Accesses carry the bit set of the source.
-- A hash map is a list of entries in the order of its iteration, which the theorems leave open. The
-- per-byte records of global buffers are merged at the end of each work-group. Logging returns the list of
-- races. The mutexes and the per-thread maps of groups are not modelled: a state is that of one group.
--
-- WorkGroup.antt models src/core/WorkGroup.cpp: running and waiting work-items, barriers, events and
-- asynchronous copies; WorkGroup.Sets the std::set ordered by WorkItemCmp; WorkGroup.Schedule the loop of runWorker in
-- src/core/KernelInvocation.cpp over the work-items of one group, as a step relation in which the
-- interpreter's effects on the group are steps. The location of an instruction and the contents of a new
-- array are arguments. The events of a barrier are removed on fuel: as much as there are events is enough, since each
-- round removes one.
--
-- MemCheck.antt models src/plugins/MemCheck.cpp: the map regions and the errors of a load or store.
-- It does not model the check of static array bounds, which walks LLVM types.
--
-- Commands.antt models the commands of src/core/Queue.cpp that move data: copies, fills, reads and
-- writes of buffers, rectangles and images. Commands.Schedule models Queue::enqueue, execute and finish with the wait
-- lists and states of events: what a command does is a parameter, `dispatch`, a function on a state of any type. A command
-- and its event have one number, and numbers grow in the order of creation. execute and the loop over the wait list
-- run on fuel: (c + 1) * (n + 3) rounds are enough for the command of number c, where the wait lists have at most n events, if
-- the application has set the states of its user events. One thread runs; the times of events are left out.
--
-- Runtime.antt and its children model entry points of src/runtime/runtime.cpp and src/runtime/async_queue.cpp: the
-- creation and release of buffers and sub-buffers, the launch of kernels with the checks of their sizes, maps, the transfers of buffers with the checks of their arguments, in the
-- order of the code, user events, clWaitForEvents (on fuel for its loop and for each execute: one pass is enough, and what
-- execute needs), the wait lists, and the reference counts along the life of a command. An entry point gives
-- an error code or what it enqueues; the wait for a blocking call is a call of clFinish, which is not part of it. Handles are
-- options, since they may be NULL; a dangling handle is not modelled. Offsets and sizes are reduced modulo 2^64 where the code
-- computes them.
--
-- Interpreter.antt and its children model the interpreter of src/core/WorkItem.cpp. Interpreter.Values models
-- TypedValue of src/core/common.cpp, with its bytes in a list; Interpreter.Integers and Interpreter.Vectors the
-- instructions on integers and those that copy elements, each on the values of its operands; Interpreter.Code
-- the program, with LLVM's instructions as data and values, blocks and functions by their numbers;
-- Interpreter.WorkItem the state of a work-item and its accesses of memory; Interpreter.Machine its steps, with
-- calls, returns and phi nodes; Interpreter.Builtins integer functions of OpenCL C, and Interpreter.Queries its
-- work-item functions, of src/core/WorkItemBuiltins.cpp, whose loops over bits run on 64 rounds of fuel, one for
-- each bit. A 64-bit number is its bit pattern. A call of a builtin function is a call of the function for those that are modelled
-- here (Interpreter.Builtins.Calls), and of an argument for the others, the work-item functions among them. The contents
-- of a new block of the memory pool are an argument too. An error is a value; it also stands for what the source leaves undefined, as to read
-- a value that no instruction has set. A step is one instruction; the loops over elements have a counter.
--
-- Not modelled: in the interpreter floating point, aggregates, getelementptr, constant expressions, the setting
-- of the kernel's arguments and the other builtin functions; program builds, images, the arguments of kernels
-- and queries of the OpenCL runtime, and the plugins that only print. Every other loop is on a list or a
-- counter.
--
-- Base.antt has the shared names and tests, Base.Lists, Base.Slices and Base.Words the lemmas on lists,
-- on sub-ranges of lists and on little-endian words, Base.Int the integers that a word stands for.
pub mod Base
pub mod Memory
pub mod NdRange
pub mod Race
pub mod WorkGroup
pub mod MemCheck
pub mod Commands
pub mod Runtime
pub mod Interpreter
