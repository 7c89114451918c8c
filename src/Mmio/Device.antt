-- ===== src/Mmio/Device.antt =====
-- What a virtio device offers to the transport, as a record of operations over the device's state,
-- and the methods that the trait itself defines.
use whypa.Base.{
  ℕ, ◌==◌, ◌≡◌, if◌then◌else◌, Bool, Option, List, bit_and, bit_or, u32, complement, ◌<<<◌, ◌>>>◌,
  Outcome,
}
use whypa.Queue.Vring.{Queue}

-- An event of the host, by its handle.
abbrev pub WindowsEvent : Type 0
WindowsEvent = ℕ

pub record QueueConfig : Type 0 where
  pub size : ℕ

pub record DeviceQueue : Type 0 where
  pub queue : Queue
  pub event : WindowsEvent

pub record VirtioShmRegion : Type 0 where
  pub host_addr : ℕ
  pub guest_addr : ℕ
  pub size : ℕ

-- `activate` panics where the transport's `expect` does on an error of the device.
pub record VirtioDevice (D : Type 0) : Type 0 where
  pub avail_features : D → ℕ
  pub acked_features : D → ℕ
  pub set_acked_features : D → ℕ → D
  pub device_type : D → ℕ
  pub queue_config : D → List QueueConfig
  pub read_config : D → ℕ → List ℕ → List ℕ
  pub write_config : D → ℕ → List ℕ → D
  pub activate : D → List DeviceQueue → Outcome D
  pub is_activated : D → Bool
  pub reset : D → Bool × D
  pub shm_region : D → Option VirtioShmRegion

-- What the trait's documentation asks of the acknowledged features.
pub record IsVirtioDevice {D : Type 0} (dev : VirtioDevice D) : Type 0 where
  pub acked_set : (d : D) (f : ℕ) → dev.acked_features (dev.set_acked_features d f) ≡ f
  pub avail_set :
      (d : D) (f : ℕ) → dev.avail_features (dev.set_acked_features d f) ≡ dev.avail_features d

-- The value moved to its page.
unfoldable pub page_value : ℕ → ℕ → ℕ
page_value page value = if page == 0 then value else if page == 1 then value <<< 32 else 0

module _ {D : Type 0} (dev : VirtioDevice D) where
  unfoldable pub avail_features_by_page : D → ℕ → ℕ
  avail_features_by_page d page =
      if page == 0
      then u32 (dev.avail_features d)
      else if page == 1
      then u32 (dev.avail_features d >>> 32)
      else 0

  unfoldable pub ack_features_by_page : D → ℕ → ℕ → D
  unfolding page_value
  ack_features_by_page d page value =
      let v = page_value page value in
      let unrequested = bit_and v (complement 64 (dev.avail_features d)) in
      let claimed = if unrequested == 0 then v else bit_and v (complement 64 unrequested) in
      dev.set_acked_features d (bit_or (dev.acked_features d) claimed)
