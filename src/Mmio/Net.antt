-- ===== src/Mmio/Net.antt =====
-- The network device as the transport sees it: src/devices/virtio/net/device.rs. Starting gvproxy is a
-- call of the host; `spawned` tells whether it succeeded.
use whypa.Base.{
  ℕ, ◌^◌, refl, Bool, true, false, Option, none, some, List, [], ◌∷◌, ◌++◌, bit_or, to_le_bytes,
  Outcome, done, panic,
}
use whypa.Mmio.Device.{VirtioDevice, IsVirtioDevice, QueueConfig, DeviceQueue}
use whypa.Mmio.Config.{read_config}

abbrev pub type_net : ℕ
type_net = 1

abbrev pub queue_config : List QueueConfig
queue_config = record { size = 1024 } ∷ record { size = 1024 } ∷ []

pub record NetConfig : Type 0 where
  pub mac : List ℕ
  pub status : ℕ
  pub max_virtqueue_pairs : ℕ

abbrev pub config_bytes : NetConfig → List ℕ
config_bytes c = c.mac ++ (to_le_bytes 2 c.status ++ to_le_bytes 2 c.max_virtqueue_pairs)

pub record NetDevice : Type 0 where
  pub avail_features : ℕ
  pub acked_features : ℕ
  pub activated : Bool
  pub worker_thread : Option (DeviceQueue × DeviceQueue)
  pub config : NetConfig
  pub spawned : Bool

-- The numbers of the features are constants of the virtio headers.
abbrev pub new : ℕ → ℕ → List ℕ → Bool → NetDevice
new f_version_1 f_mac mac spawned = record {
  avail_features = bit_or (2 ^ f_version_1) (2 ^ f_mac);
  acked_features = 0;
  activated = false;
  worker_thread = none;
  config = record { mac = mac; status = 0; max_virtqueue_pairs = 1 };
  spawned = spawned;
}

-- A second worker is a panic; gvproxy that does not start and another number of queues than two are
-- errors, for which the transport panics.
unfoldable pub start_worker :
    NetDevice → Option (DeviceQueue × DeviceQueue) → Bool → List DeviceQueue → Outcome NetDevice
start_worker d (some worker) spawned queues = panic
start_worker d none false queues = panic
start_worker d none true [] = panic
start_worker d none true (rx ∷ []) = panic
start_worker d none true (rx ∷ tx ∷ []) =
    done (record d { activated = true; worker_thread = some (rx, tx) })
start_worker d none true (rx ∷ tx ∷ q ∷ queues) = panic

abbrev pub activate : NetDevice → List DeviceQueue → Outcome NetDevice
activate d queues = start_worker d d.worker_thread d.spawned queues

abbrev pub reset : NetDevice → Bool × NetDevice
reset d = (true, record d { activated = false; worker_thread = none })

abbrev pub net : VirtioDevice NetDevice
net = record {
  avail_features = λ d. d.avail_features;
  acked_features = λ d. d.acked_features;
  set_acked_features = λ d f. record d { acked_features = f };
  device_type = λ d. type_net;
  queue_config = λ d. queue_config;
  read_config = λ d offset buf. read_config (config_bytes d.config) offset buf;
  write_config = λ d offset buf. d;
  activate = activate;
  is_activated = λ d. d.activated;
  reset = reset;
  shm_region = λ d. none;
}

pub net-IsVirtioDevice : IsVirtioDevice net
net-IsVirtioDevice = record { acked_set = λ d f. refl; avail_set = λ d f. refl }
