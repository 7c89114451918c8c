-- ===== src/Mmio/Rng.antt =====
-- The entropy device as the transport sees it: src/devices/virtio/rng/device.rs. Its worker is a thread
-- that owns the queue; what the thread does is not part of this.
use whypa.Base.{
  ℕ, ◌^◌, refl, Bool, true, false, Option, none, some, List, [], ◌∷◌, Outcome, done, panic,
}
use whypa.Mmio.Device.{VirtioDevice, IsVirtioDevice, QueueConfig, DeviceQueue}

abbrev pub type_rng : ℕ
type_rng = 4

abbrev pub queue_config : List QueueConfig
queue_config = record { size = 256 } ∷ []

-- `activated` is the device state; `worker_thread` is the queue of the running worker.
pub record Rng : Type 0 where
  pub avail_features : ℕ
  pub acked_features : ℕ
  pub activated : Bool
  pub worker_thread : Option DeviceQueue

-- `f_version_1` is the number of a feature, a constant of the virtio headers.
abbrev pub new : ℕ → Rng
new f_version_1 = record {
  avail_features = 2 ^ f_version_1;
  acked_features = 0;
  activated = false;
  worker_thread = none;
}

-- A second worker is a panic, and so is another number of queues than one, by the `expect` of the
-- transport on the device's error.
unfoldable pub start_worker : Rng → Option DeviceQueue → List DeviceQueue → Outcome Rng
start_worker d (some worker) queues = panic
start_worker d none [] = panic
start_worker d none (q ∷ []) = done (record d { activated = true; worker_thread = some q })
start_worker d none (q ∷ r ∷ queues) = panic

abbrev pub activate : Rng → List DeviceQueue → Outcome Rng
activate d queues = start_worker d d.worker_thread queues

abbrev pub reset : Rng → Bool × Rng
reset d = (true, record d { activated = false; worker_thread = none })

abbrev pub rng : VirtioDevice Rng
rng = record {
  avail_features = λ d. d.avail_features;
  acked_features = λ d. d.acked_features;
  set_acked_features = λ d f. record d { acked_features = f };
  device_type = λ d. type_rng;
  queue_config = λ d. queue_config;
  read_config = λ d offset buf. buf;
  write_config = λ d offset buf. d;
  activate = activate;
  is_activated = λ d. d.activated;
  reset = reset;
  shm_region = λ d. none;
}

pub rng-IsVirtioDevice : IsVirtioDevice rng
rng-IsVirtioDevice = record { acked_set = λ d f. refl; avail_set = λ d f. refl }
