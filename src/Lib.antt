-- ===== src/Lib.antt =====
-- whypa, a virtual machine monitor for Windows: a model of its core and what is proved of it.
--
-- The program runs a Linux guest on the Windows hypervisor. Guest memory is a list of regions that
-- the host maps (src/memory/memory.rs). Accesses of the guest to device registers and I/O ports are
-- routed by address (src/devices/bus.rs) and answered by emulated devices. The virtio devices share
-- queues with the guest, in guest memory (src/devices/virtio/queue.rs); a transport negotiates the
-- features and the queues and hands the queues over to the device (src/devices/virtio/mmio.rs). The
-- devices raise lines of the I/O interrupt controller (src/devices/legacy/ioapic.rs).
--
-- - Base: tests on numbers, lists, machine words as numbers with their wrap-around written out,
--   binary digits, little-endian bytes and a byte memory, results and panics.
-- - Bus: `Bus` of src/devices/bus.rs. The `BTreeMap` is a sorted list, a device a handle into a store
--   of states.
-- - Memory: `MemoryManager` of src/memory/memory.rs over an explicit host memory. Regions map guest
--   addresses to host addresses; `store` and `load` are the atomic accesses.
-- - Queue: src/devices/virtio/queue.rs. `Descriptor` has the chains and their iterator, `Vring` the
--   queue; `Taken` is about what `pop` takes by the layout of the ring in memory. Each read of an
--   operation has a host memory of its own where the guest may write between.
-- - IoApic: src/devices/legacy/ioapic.rs. `Device` has the controller and its operations; the calls
--   of `WHvRequestInterrupt` are kept in order with the state. `Pin` reads one pin off the digits of
--   its entry, `Service` is about a scan of all pins, `Registers` and `EndOfInterrupt` about the
--   writes, `Invariant` about sequences of requests.
-- - Buffers: src/devices/virtio/descriptor_utils.rs, the readers and writers of descriptor chains,
--   and `get_slice` of src/memory/memory.rs. `Slice` has the slices of vm-memory as a parameter with
--   the laws of its documentation, `Consumer` the operations, `Exact` and `Exact/Read` the loops that
--   move whole objects, `Transfer` those between a chain and a file. `Flat` is the view that forgets
--   the slices: the list of the host addresses of the bytes. `Consume`, `Split`, `Available` and
--   `Build` say what the operations do to it. `Concrete` has slices to run the models on.
-- - Worker: the loops of src/devices/virtio/*/worker.rs. `Worker` is the loop that they share, over
--   what a device does with one chain; `Moved`, `Reasons` and `Progress` are about its end. `Rng`,
--   `Console`, `Net` and `Block` are the devices' parts, with the requests of the block device in
--   `Block/Requests` and the thread that reads the frames of gvproxy in `Net/Batches`.
-- - Mmio: src/devices/virtio/mmio.rs. `Device` is the trait of src/devices/virtio/device.rs as a
--   record of operations over the device's state, `Transport` the transport with its status and
--   queues, `Access` its registers. The controller behind it is that of IoApic. `Writes` has what
--   every write keeps; `Status`, `Features`, `Registers` and `Interrupts` are about those parts.
--   `Rng`, `Console`, `Net` and `Block` are the devices of src/devices/virtio/*/device.rs, `Config`
--   their configuration space.
-- - Emulator: src/emulator.rs, what an I/O port or MMIO access of the guest reaches. `Routing` is
--   about the devices and handlers, `Refresh` about the port that guests poll.
-- - Machine: `Partition` of src/partition.rs and the devices of src/device_manager.rs. `Ram` is about
--   the memory after the allocation, `Windows` and `Map` about the MMIO windows after all devices are
--   registered and what the emulator reaches by them, `Apart` about the windows in general. The
--   addresses of src/memory/layout.rs are those of `Memory/Layout`.
-- - Boot: src/linux_boot.rs. `Params` has the boot parameters, `Elf` and `Kernel` the loading of a
--   kernel and the registers at its start, `Boot` the page tables. `Paging` is the walk of the tables
--   by the processor; `MemoryMap`, `Segments`, `Entry` and `Start` are about what a kernel finds,
--   with `Writes`, the writes to the low memory of a machine. `Loads` is about a kernel's loading as
--   a whole, `Entering` about its entry, `Image` about what it leaves in memory. `Launch` is `main`
--   of src/main.rs, from the memory to the first instruction, and puts Machine, Acpi and Boot
--   together.
-- - Acpi: src/acpi.rs and the table of processors of src/cpu.rs, over the tables of the crate
--   acpi_tables. `Tables` is about the places of the tables, `Processors` about the reading of a
--   processor's entry, `Timer` about the timer. The loader takes the writing of the tables as an
--   argument, which `Launch` gives it.
-- - Vm: src/vm.rs. `Vm` has the answers to CPUID, registers and the interrupt window, `Exit` the
--   dispatch and the loop; `Msr`, `Tsc` and `Loop` are about the registers, the clock's page and the
--   loop.
-- - Terminal: the reader of the host's input of src/terminal.rs, with `Strip` and `Reader`.
--
-- Sums and differences of machine words wrap, as in a build without overflow checks. An `unwrap` of a
-- failure is the outcome `panic`. Loops on fuel are the walk of a descriptor chain (`collect`), for
-- which the size of the queue and one more is enough; the loops that move whole objects (`write_all`,
-- `read_exact`), for which two rounds are enough; and the loop of the workers (`drain`), for which the
-- number of the chains and one more is enough while the guest keeps its index. The loop around it
-- (`process_virtio_queues`) goes on as long as the guest adds chains. The loop of the processor (`run`)
-- needs a round more than the program is to run, the reader of frames (`rx_reader_loop`) one more than
-- there are frames, and the filter of terminal responses (`strip`) the number of the bytes.
--
-- The guest changes the memory between two accesses of a queue operation where an operation has a
-- memory for each, and before each chain in the loop of the workers. The scans of the controller's pins
-- count down from 24, the number of the pins. Numbers of virtio features and requests are constants of
-- a library and stand as parameters, and so do the disk image, the generator of the host and the pipe
-- to gvproxy. Signalling an event of the host is taken to succeed.
--
-- Exits of the processor are constructors with the values that the code reads, and what the hypervisor
-- gives is a function of the round; its emulator, and what `VirtualAlloc`, `WHvMapGpaRange` and the
-- clocks answer, are parameters. A file is its bytes.
--
-- Not modelled: the calls that configure the hypervisor, its processors, files, sockets and threads,
-- waiting for events, the modes of the console, logging, the byte code of the ACPI namespace, the
-- generated bindings of src/bootparam.rs, and the vendored crate vm-memory.
pub mod Base
pub mod Bus
pub mod Memory
pub mod Queue
pub mod IoApic
pub mod Mmio
pub mod Buffers
pub mod Worker
pub mod Emulator
pub mod Machine
pub mod Boot
pub mod Acpi
pub mod Vm
pub mod Terminal
