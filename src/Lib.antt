-- ===== src/Lib.antt =====
-- A model of YEngine, a homebrew game engine in C++, with the theorems about its containers, about its
-- render device over Direct3D 9, and about what its renderer keeps of the device.
--
-- The program. ycommon has the containers that the engine allocates once, in memory of the caller, and
-- uses every frame: tables, pools and queues whose items are found by index, a buffer that is filled
-- from the front, counted pointers, and the tree of commands that a pool of threads works off. The
-- render device of yengine keeps its resources in tables that are such pools, and hands out ids of
-- them; the renderer holds the ids, and tells the device which resources are active.
--
-- Which file models what:
--   Base                          what the files share: Boolean tests on numbers, lists as arrays,
--                                 machine words, and runs that may end in a fault
--   Headers/AtomicNumberMask      ycommon/headers/atomic_number_mask.h
--   Headers/Macros                the macros on powers of two of ycommon/headers/macros.h
--   Containers/HashTable          HashTable of ycommon/containers/hash_table.h and .cpp; its children:
--                                 Probe (the search for a slot), Lookup, Removal, Insertion and
--                                 Deletion (the member functions), Copies (a key that stands in two
--                                 slots), Counting (GetCurrentSize)
--   Containers/MemPool            MemPool of mem_pool.h and .cpp; Indexes is the allocator of indexes
--                                 that it refines, Ownership what the holder of an index relies on
--   Containers/AtomicMemPool      AtomicMemPool of atomic_mem_pool.h and .cpp, which refines the same
--                                 allocator
--   Containers/AtomicHashTable    AtomicHashTable of atomic_hash_table.h and .cpp, which does for one
--                                 thread what HashTable does
--   Containers/AtomicQueue        AtomicQueue of atomic_queue.h and .cpp; Positions and Window say how
--                                 the counted offsets move round the buffer, Refine and Consume that
--                                 it is a bounded queue
--   Containers/UnorderedArray     UnorderedArray and PushBack of unordered_array.h and .cpp
--   Containers/MemBuffer          MemBuffer and its ScratchPad of mem_buffer.h and .cpp; Layout follows
--                                 the blocks in use through any sequence of calls
--   Containers/CommandTree        CommandTree of command_tree.h and .cpp, its construction; Execution has
--                                 the steps of its threads, Invariant, Passing and Steps what every step
--                                 keeps, Reach the states that any order of steps leads to, Outcome and
--                                 Ending what follows, Built that a constructed tree can be executed
--   Containers/RefPointer         RefPointer and the three classes of references of ref_pointer.h
--   Platform/FilePath             JoinPaths and DirPath of ycommon/platform/file_path.h and .cpp
--   Core/StringTable              StringTable of yengine/core/string_table.h and .cpp, over AtomicHashTable
--   RenderDevice/DataArray        the class DataArray of yengine/render_device/render_device_dx9.cpp: Table
--                                 says what a table of items under ids is, Allocation, Writes and
--                                 Release how its functions change what is in use
--   RenderDevice/Dx9              the tables and global variables of render_device_dx9.cpp, and below it
--                                 its functions: Creates, Fills (with the accessors), Releases,
--                                 Activations and Draws
--   Renderer/RenderDeviceState    RenderDeviceState of yengine/renderer/render_device_state.h and .cpp
--   Renderer/Dimensions           GetDimensionValue of yengine/renderer/renderer_common.cpp
--   Renderer/Resources            what the classes of the renderer ask of the resources of one kind, as a
--                                 record of functions, the laws of resources that can be set, and how
--                                 two ids are kept
--   Renderer/ViewPort             ViewPort of yengine/renderer/view_port.h and .cpp, over Resources; OnDx9
--                                 has the functions of RenderDevice/Dx9 for view ports as such a record
--                                 with its laws, Told is Activate on that device
--   Renderer/RenderTarget         RenderTarget of yengine/renderer/render_target.h and .cpp, over Resources
--   Renderer/VertexDecl, IndexBuffer, VertexBuffer
--                                 the classes of yengine/renderer/vertex_buffer.h and .cpp, over Resources
--   Renderer/ShaderFloatArg, ShaderTextureArg
--                                 the classes of yengine/renderer/shader_data.h and .cpp, over Resources
--   Renderer/Forgotten            Release of the classes that forget the ids that they release
--
-- A class is a record with a field for each member, named after it, and a member function is a
-- function of its name from the record to the record. An array in a buffer is the list of its items,
-- so its number of items is the length of the list; an index or address is a number, and a pointer
-- that may be null an Option or an address that may be 0. A member function that may fail an assertion
-- or leave what it may access is a Run (Base/Faults): `fault assertion` is a failed YASSERT or
-- YDEBUG_CHECK, as in the configuration that has them, `fault out_of_range` and `fault
-- division_by_zero` are what C++ leaves undefined. Theorems of the form `Returns` say that a run ends
-- normally.
--
-- Numbers have the width of the source and wrap as it does: size_t has 64 bits, mNumItems and indexes
-- of the tables 32, the counters of RefPointer 8. The search of HashTable tries as many slots as the
-- source's constant says, so no fuel is chosen anywhere.
--
-- The hash function that HashTable calls and the render device that RenderDeviceState tells are
-- parameters. The theorems assume nothing of the second, whose functions may fault; only the functions
-- for constants are taken to return. Told has the device over Direct3D 9 in its place. Direct3D is a
-- parameter of RenderDevice/Dx9: a function that tells of each call whether it succeeds, what it gives
-- out and which state it leaves; a pointer to one of its objects is a number. A float is its bit
-- pattern, and the arithmetic of floats that GetDimensionValue does is a parameter. So are, in the
-- classes over Resources, the functions of the device that fill a buffer or a mip level, and
-- RenderStateCache. The member functions of AtomicQueue, AtomicMemPool and AtomicHashTable are those
-- of one thread at a time. An execution of a CommandTree is a sequence of steps of its threads in any
-- order, each step one access to what they share; the thread pool is relied on to hand every run that
-- it was given to a thread, and to hold 256 of them, which Initialize asks for.
--
-- Not modelled: wrappers of the operating system, the start of Direct3D, the render device of the
-- tests, generated and vendored code, and the tests; nor are ThreadPool, threads that race on the
-- containers, the wait of ExecuteCommands, the other functions of FilePath, RenderStateCache, Renderer
-- and the tools.
pub mod Base
pub mod Headers
pub mod Containers
pub mod Core
pub mod Platform
pub mod RenderDevice
pub mod Renderer
