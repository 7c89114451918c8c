-- ===== src/Mmio/Block.antt =====
-- The block device as the transport sees it: src/devices/virtio/block/device.rs. The image is a handle,
-- opened before; its size is a call of the image library, and so is the alignment of discards.
use whypa.Base.{
  ℕ, ◌^◌, ◌/◌, ◌≡◌, refl, inl, inr, Option-cases, arith, if◌then◌else◌, Bool, true, false, Option,
  none, some, List, [], ◌∷◌, ◌++◌, bit_or, u32, to_le_bytes, replicate, Outcome, done, panic,
}
use whypa.Worker.Block.{CacheType, DiskProperties}
use whypa.Mmio.Device.{VirtioDevice, IsVirtioDevice, QueueConfig, DeviceQueue}
use whypa.Mmio.Config.{read_config}

abbrev pub type_block : ℕ
type_block = 2

abbrev pub queue_config : List QueueConfig
queue_config = record { size = 256 } ∷ []

-- The size is cut to sectors of 512 bytes.
abbrev pub new_disk_properties : {K : Type 0} → (K → ℕ) → K → List ℕ → CacheType → DiskProperties K
new_disk_properties size image image_id cache_type = record {
  cache_type = cache_type;
  file = image;
  nsectors = size image / 512;
  image_id = image_id;
}

-- The fields that are zero throughout stand in `config_bytes`.
pub record VirtioBlkConfig : Type 0 where
  pub capacity : ℕ
  pub seg_max : ℕ
  pub max_discard_sectors : ℕ
  pub max_discard_seg : ℕ
  pub discard_sector_alignment : ℕ
  pub max_write_zeroes_sectors : ℕ
  pub max_write_zeroes_seg : ℕ
  pub write_zeroes_may_unmap : ℕ

-- `size_max`, then `geometry` to `num_queues`, are zero.
abbrev pub config_bytes : VirtioBlkConfig → List ℕ
config_bytes c =
    to_le_bytes 8 c.capacity
    ++ (replicate 4 0
        ++ (to_le_bytes 4 c.seg_max
            ++ (replicate 20 0
                ++ (to_le_bytes 4 c.max_discard_sectors
                    ++ (to_le_bytes 4 c.max_discard_seg
                        ++ (to_le_bytes 4 c.discard_sector_alignment
                            ++ (to_le_bytes 4 c.max_write_zeroes_sectors
                                ++ (to_le_bytes 4 c.max_write_zeroes_seg
                                    ++ to_le_bytes 1 c.write_zeroes_may_unmap))))))))

-- The numbers of the features, constants of the virtio headers.
pub record BlkFeatures : Type 0 where
  pub f_version_1 : ℕ
  pub f_seg_max : ℕ
  pub f_discard : ℕ
  pub f_write_zeroes : ℕ
  pub f_event_idx : ℕ
  pub f_flush : ℕ
  pub f_ro : ℕ

pub record BlockDevice (K : Type 0) : Type 0 where
  pub disk : Option (DiskProperties K)
  pub cache_type : CacheType
  pub disk_image : K
  pub disk_image_id : List ℕ
  pub worker_thread : Option (DeviceQueue × DiskProperties K)
  pub avail_features : ℕ
  pub acked_features : ℕ
  pub config : VirtioBlkConfig
  pub activated : Bool

abbrev pub avail_features : BlkFeatures → Bool → Bool → ℕ
avail_features b syncs is_disk_read_only =
    let base =
      bit_or
        (bit_or (bit_or (bit_or (2 ^ b.f_version_1) (2 ^ b.f_seg_max)) (2 ^ b.f_discard))
          (2 ^ b.f_write_zeroes))
        (2 ^ b.f_event_idx) in
    let flushed = if syncs then bit_or base (2 ^ b.f_flush) else base in
    if is_disk_read_only then bit_or flushed (2 ^ b.f_ro) else flushed

module _ {K : Type 0} (size : K → ℕ) where
  abbrev pub new : BlkFeatures → CacheType → K → List ℕ → ℕ → Bool → Bool → BlockDevice K
  new b cache_type image image_id discard_alignment syncs is_disk_read_only =
      let properties = new_disk_properties size image image_id cache_type in
      record {
        disk = some properties;
        cache_type = cache_type;
        disk_image = image;
        disk_image_id = image_id;
        worker_thread = none;
        avail_features = avail_features b syncs is_disk_read_only;
        acked_features = 0;
        config = record {
          capacity = properties.nsectors;
          seg_max = 254;
          max_discard_sectors = 0xffff_ffff;
          max_discard_seg = 1;
          discard_sector_alignment = u32 discard_alignment / 512;
          max_write_zeroes_sectors = 0xffff_ffff;
          max_write_zeroes_seg = 1;
          write_zeroes_may_unmap = 1;
        };
        activated = false;
      }

  -- The properties go to the worker; they are made again for a later one.
  unfoldable pub take_disk : BlockDevice K → Option (DiskProperties K) → DiskProperties K
  take_disk d (some disk) = disk
  take_disk d none = new_disk_properties size d.disk_image d.disk_image_id d.cache_type

  unfoldable pub start_worker :
      BlockDevice K
      → Option (DeviceQueue × DiskProperties K)
      → List DeviceQueue
      → Outcome (BlockDevice K)
  start_worker d (some worker) queues = panic
  start_worker d none [] = panic
  start_worker d none (q ∷ []) =
      done
        (record d { disk = none; worker_thread = some (q, take_disk d d.disk); activated = true })
  start_worker d none (q ∷ r ∷ queues) = panic

  abbrev pub activate : BlockDevice K → List DeviceQueue → Outcome (BlockDevice K)
  activate d queues = start_worker d d.worker_thread queues

  abbrev pub reset : BlockDevice K → Bool × BlockDevice K
  reset d = (true, record d { activated = false; worker_thread = none })

  abbrev pub block : VirtioDevice (BlockDevice K)
  block = record {
    avail_features = λ d. d.avail_features;
    acked_features = λ d. d.acked_features;
    set_acked_features = λ d f. record d { acked_features = f };
    device_type = λ d. type_block;
    queue_config = λ d. queue_config;
    read_config = λ d offset buf. read_config (config_bytes d.config) offset buf;
    write_config = λ d offset buf. d;
    activate = activate;
    is_activated = λ d. d.activated;
    reset = reset;
    shm_region = λ d. none;
  }

  pub block-IsVirtioDevice : IsVirtioDevice block
  block-IsVirtioDevice = record { acked_set = λ d f. refl; avail_set = λ d f. refl }

  -- A block device is activated, reset and activated again with the same image: the second worker
  -- has the properties that the first one had, if the size of the image has stayed the same.
  pub activate-reset-activate :
      (d d' d'' : BlockDevice K) (q r : DeviceQueue)
      → d.disk ≡ some (new_disk_properties size d.disk_image d.disk_image_id d.cache_type)
      → activate d (q ∷ []) ≡ done d'
      → activate ((reset d').1) (r ∷ []) ≡ done d''
      → d''.worker_thread ≡ some (r, take_disk d d.disk)
  unfolding start_worker take_disk
  activate-reset-activate d d' d'' q r opened first second = elim (Option-cases d.worker_thread) [
    | inl idle ↦ ground arith
    | inr (w, running) ↦ absurd (ground arith)
  ]
