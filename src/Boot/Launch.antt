-- ===== src/Boot/Launch.antt =====
-- From the memory to the first instruction: what `main` of src/main.rs does before the loop of the
-- processor, with `Partition::load_linux_kernel` of src/partition.rs. The tables of the crate
-- acpi_tables and the code of the namespace, by the devices and the number of processors, are
-- parameters.
use whypa.Base.{
  ℕ, ◌+◌, ◌^◌, ◌<◌, ◌≤◌, ◌≡◌, refl, ◌⊎◌, Bool, true, some, List, Host, Outcome, done, and_then,
  Result, ok, err,
}
use whypa.Memory.{MemoryError}
use whypa.Machine.{
  HostCalls, Partition, DeviceManager, SetupError, Step, ◌>>=◌, allocate_memory_with_size,
}
use whypa.Machine.Devices.{new, register_devices}
use whypa.Machine.Ram.{IsGranted}
use whypa.Machine.Map.{set_up, set_up_iff, set_up-memory}
use whypa.Machine.Windows.{windows}
use whypa.Acpi.{SdtOps, create_acpi_tables}
use whypa.Boot.Elf.{LoadError}
use whypa.Boot.Kernel.{Register, load_linux_kernel, setup_linux_registers}
use whypa.Boot.Paging.{translate}
use whypa.Boot.Writes.{low_end}
use whypa.Boot.Start.{page_tables, first_instruction, setup_linux_registers_lem}

pub data StartError : Type 0 where
  setup_failed : SetupError → StartError
  load_failed : LoadError → StartError
  registers_failed : MemoryError → StartError

module _ {T : Type 0} (sdt : SdtOps T) (aml : DeviceManager → ℕ → List ℕ) where
  unfoldable pub load_kernel : ℕ → List ℕ → Partition → Host → Outcome (Result (ℕ × Host) LoadError)
  load_kernel cpus file p host =
      load_linux_kernel p.memory
        (create_acpi_tables sdt p.memory (aml p.device_manager cpus) cpus p.device_manager) file
        host

  -- The last two steps.
  unfoldable pub start_kernel :
      List ℕ → Partition → Host → Outcome (Result (List Register × Host) StartError)
  unfolding load_kernel
  start_kernel file p host = and_then (load_kernel 1 file p host) λ r. elim r [
    | err e ↦ done (err (load_failed e))
    | ok (entry, host') ↦ done (elim (setup_linux_registers p.memory entry host') [
      | err e ↦ err (registers_failed e)
      | ok s ↦ ok s
    ])
  ]

  -- `main` with so much memory configured, one processor and the kernel's file.
  unfoldable pub start :
      HostCalls
      → (ℕ → Bool)
      → ℕ
      → List ℕ
      → Host
      → Outcome (Result (List Register × Host) StartError)
  unfolding start_kernel
  start calls made memory_size file host =
      let done_setup : Step =
        allocate_memory_with_size calls memory_size (new memory_size) >>= register_devices made in
      elim done_setup.0 [
        | err e ↦ done (err (setup_failed e))
        | ok _ ↦ start_kernel file done_setup.1 host
      ]

  module _ (calls : HostCalls) (source total : ℕ) (granted : IsGranted calls source total)
      (bound : total < 2 ^ 63) (room : 0xc000 < low_end total) (positive : 0 < total)
      (made : ℕ → Bool) (all_made : (i : ℕ) → made i ≡ true)
      (clear : (total ≤ 0xe800_0001) ⊎ (0xfec0_0000 < total)) where
    abbrev pub made_machine : Partition
    made_machine = (set_up calls source total granted positive bound made all_made total).1

    -- The host grants the memory, which is more than the page tables need and leaves the windows of
    -- the devices free, all devices can be made, and the kernel is loaded. Then `main` reaches the
    -- loop of the processor: the first instruction is at the entry that the loading gave, and with
    -- the page tables of the registers the processor takes every address below 4 GiB for itself.
    pub start_lem :
        (file : List ℕ) (host loaded : Host) (entry : ℕ)
        → load_kernel 1 file made_machine host ≡ done (ok (entry, loaded))
        → (registers : List Register) × (host' : Host) × (root : ℕ) × (start calls made total file
              host
            ≡ done (ok (registers, host')))
          × (first_instruction registers ≡ some entry)
          × (page_tables registers ≡ some root)
          × ((va : ℕ) → va < 2 ^ 32 → translate (λ a. host' (source + a)) root va ≡ some va)
    unfolding start start_kernel
    start_lem file host loaded entry kernel =
        let ready =
          (set_up_iff calls source total granted positive bound made all_made total).1 clear in
        let mem =
          set_up-memory calls source total granted positive bound made all_made total clear in
        let r = setup_linux_registers_lem source total windows bound room entry loaded in
        (r.0, r.1, r.2, rw (start, ready, start_kernel, kernel, mem, r.3) refl, r.4, r.5, r.6)
