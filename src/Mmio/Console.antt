-- ===== src/Mmio/Console.antt =====
-- The console as the transport sees it: src/devices/virtio/console/device.rs. What is printed to the
-- standard error is a list of bytes.
use whypa.Base.{
  ℕ, ◌^◌, ◌==◌, refl, if◌then◌else◌, Bool, true, false, Option, none, some, List, [], ◌∷◌, ◌++◌,
  bit_or, to_le_bytes, Outcome, done, panic,
}
use whypa.Mmio.Device.{VirtioDevice, IsVirtioDevice, QueueConfig, DeviceQueue}
use whypa.Mmio.Config.{read_config}

abbrev pub type_console : ℕ
type_console = 3

abbrev pub queue_config : List QueueConfig
queue_config = record { size = 256 } ∷ record { size = 256 } ∷ []

pub record ConsoleConfig : Type 0 where
  pub cols : ℕ
  pub rows : ℕ
  pub max_nr_ports : ℕ
  pub emerg_wr : ℕ

abbrev pub config_bytes : ConsoleConfig → List ℕ
config_bytes c =
    to_le_bytes 2 c.cols
    ++ (to_le_bytes 2 c.rows ++ (to_le_bytes 4 c.max_nr_ports ++ to_le_bytes 4 c.emerg_wr))

-- `worker_thread` has the receive and the transmit queue of the running worker.
pub record ConsoleDevice : Type 0 where
  pub avail_features : ℕ
  pub acked_features : ℕ
  pub activated : Bool
  pub worker_thread : Option (DeviceQueue × DeviceQueue)
  pub config : ConsoleConfig
  pub stderr : List ℕ

-- `f_version_1` is the number of a feature, a constant of the virtio headers; that of the size is 0.
abbrev pub new : ℕ → ℕ → ℕ → ConsoleDevice
new f_version_1 cols rows = record {
  avail_features = bit_or (2 ^ f_version_1) (2 ^ 0);
  acked_features = 0;
  activated = false;
  worker_thread = none;
  config = record { cols = cols; rows = rows; max_nr_ports = 0; emerg_wr = 0 };
  stderr = [];
}

unfoldable pub write_config : ConsoleDevice → ℕ → List ℕ → ConsoleDevice
write_config d offset [] = d
write_config d offset (ch ∷ rest) =
    if offset == 8 then record d { stderr = d.stderr ++ (ch ∷ []) } else d

unfoldable pub start_worker :
    ConsoleDevice → Option (DeviceQueue × DeviceQueue) → List DeviceQueue → Outcome ConsoleDevice
start_worker d (some worker) queues = panic
start_worker d none [] = panic
start_worker d none (rx ∷ []) = panic
start_worker d none (rx ∷ tx ∷ []) =
    done (record d { activated = true; worker_thread = some (rx, tx) })
start_worker d none (rx ∷ tx ∷ q ∷ queues) = panic

abbrev pub activate : ConsoleDevice → List DeviceQueue → Outcome ConsoleDevice
activate d queues = start_worker d d.worker_thread queues

abbrev pub reset : ConsoleDevice → Bool × ConsoleDevice
reset d = (true, record d { activated = false; worker_thread = none })

abbrev pub console : VirtioDevice ConsoleDevice
console = record {
  avail_features = λ d. d.avail_features;
  acked_features = λ d. d.acked_features;
  set_acked_features = λ d f. record d { acked_features = f };
  device_type = λ d. type_console;
  queue_config = λ d. queue_config;
  read_config = λ d offset buf. read_config (config_bytes d.config) offset buf;
  write_config = write_config;
  activate = activate;
  is_activated = λ d. d.activated;
  reset = reset;
  shm_region = λ d. none;
}

pub console-IsVirtioDevice : IsVirtioDevice console
console-IsVirtioDevice = record { acked_set = λ d f. refl; avail_set = λ d f. refl }
