-- ===== src/Mmio/Examples.antt =====
-- The entropy device behind its transport, with one queue, one event and line 21.
use whypa.Base.{
  ℕ, ◌/◌, ◌%◌, ◌==◌, ◌^◌, ◌≡◌, refl, true, false, ◌&&◌, ◌||◌, none, some, List, [], ◌∷◌, complement,
  from_le_bytes, done, arith,
}
use whypa.Base.Bits.{bit}
use whypa.Queue.Vring.{new as new_queue, set_event_idx}
use whypa.IoApic.Device.{InterruptTypes, new as new_ioapic}
use whypa.Mmio.Device.{ack_features_by_page}
use whypa.Mmio.Transport.{
  MmioTransport, set_device_status, activate, activate_queues, activated, device_queues,
}
use whypa.Mmio.Access.{write_register, write, run}
use whypa.Mmio.Features.{ack_features_by_page-bit}
use whypa.Mmio.Status.{IsTransport, OwnsQueues, run-IsTransport, queues_leave_at_driver_ok}
use whypa.Mmio.Rng.{Rng, rng, rng-IsVirtioDevice, new as new_rng, start_worker}

abbrev types : InterruptTypes
types = record { fixed = 0; lowest_priority = 1; nmi = 4; init = 5 }

abbrev event_idx : ℕ
event_idx = 29

abbrev fresh : MmioTransport Rng
fresh = record {
  device = new_rng 32;
  features_select = 0;
  acked_features_select = 0;
  queue_select = 0;
  device_status = 0;
  config_generation = 0;
  queues = some (new_queue 256 ∷ []);
  queue_evts = 7 ∷ [];
  queue_config = record { size = 256 } ∷ [];
  shm_region_select = 0;
  status = 0;
  irq_line = some 21;
  event = 8;
  intc = new_ioapic;
  signals = [];
}

-- After ACKNOWLEDGE, DRIVER and FEATURES_OK.
abbrev negotiating : MmioTransport Rng
negotiating = record fresh { device_status = 11 }

abbrev status_write : ℕ → ℕ × List ℕ
status_write v = (0x70, v ∷ 0 ∷ 0 ∷ 0 ∷ [])

ack_features_by_page-bit_example :
    (bit (ack_features_by_page rng (new_rng 32) 1 5).acked_features 32
      ≡ (bit 0 32 || (32 / 32 == 1 && bit 5 (32 % 32)) && bit (2 ^ 32) 32))
    × ((ack_features_by_page rng (new_rng 32) 1 5).avail_features ≡ 2 ^ 32)
ack_features_by_page-bit_example =
    ack_features_by_page-bit rng rng-IsVirtioDevice (new_rng 32) 1 5 32 (omega arith) (omega arith)
      (omega arith)

acknowledged :
    run rng types event_idx fresh (status_write 1 ∷ []) ≡ done (record fresh { device_status = 1 })
unfolding run write write_register set_device_status from_le_bytes complement
acknowledged = refl

fresh-IsTransport : IsTransport fresh
unfolding OwnsQueues
fresh-IsTransport = refl

run-IsTransport_example : IsTransport (record fresh { device_status = 1 })
run-IsTransport_example =
    run-IsTransport rng types event_idx fresh (record fresh { device_status = 1 })
      (status_write 1 ∷ []) fresh-IsTransport acknowledged

abbrev live : MmioTransport Rng
live = record negotiating {
  device_status = 15;
  device = record (new_rng 32) {
    activated = true;
    worker_thread = some (record { queue = set_event_idx (new_queue 256) false; event = 7 });
  };
  queues = none;
}

goes_live : write rng types event_idx negotiating 0x70 (15 ∷ 0 ∷ 0 ∷ 0 ∷ []) ≡ done live
unfolding write write_register set_device_status activate activate_queues activated start_worker
    from_le_bytes complement device_queues
goes_live = refl

queues_leave_at_driver_ok_example :
    (negotiating.device_status ≡ 11) × (negotiating.device.activated ≡ false) × (bit 15 2 ≡ true)
queues_leave_at_driver_ok_example =
    queues_leave_at_driver_ok rng types event_idx negotiating live 0x70 (15 ∷ 0 ∷ 0 ∷ 0 ∷ [])
      (new_queue 256 ∷ []) refl goes_live refl
