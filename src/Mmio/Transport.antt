-- ===== src/Mmio/Transport.antt =====
-- The state of the transport and its operations. The interrupt controller behind it is the I/O
-- interrupt controller; the events that notifications signal are kept in order with the state.
use whypa.Base.{
  ℕ, ◌^◌, ◌==◌, if◌then◌else◌, Bool, not, ◌&&◌, Option, none, some, List, [], ◌∷◌, map, get_elem?,
  set, bit_and, bit_or, complement, Outcome, done, panic,
}
use whypa.Queue.Vring.{Queue, new as new_queue, set_event_idx}
use whypa.IoApic.Device.{IoApic, InterruptTypes, set_irq, clear_irq}
use whypa.Mmio.Device.{VirtioDevice, QueueConfig, DeviceQueue, WindowsEvent}

-- The bits of the device status.
abbrev pub init : ℕ
init = 0

abbrev pub acknowledge : ℕ
acknowledge = 1

abbrev pub driver : ℕ
driver = 2

abbrev pub failed : ℕ
failed = 128

abbrev pub features_ok : ℕ
features_ok = 8

abbrev pub driver_ok : ℕ
driver_ok = 4

abbrev pub int_vring : ℕ
int_vring = 1

abbrev pub int_config : ℕ
int_config = 2

-- `status` and `irq_line` are those of the interrupt that transport and device share; `signals`
-- are the events signalled so far, the oldest last.
pub record MmioTransport (D : Type 0) : Type 0 where
  pub device : D
  pub features_select : ℕ
  pub acked_features_select : ℕ
  pub queue_select : ℕ
  pub device_status : ℕ
  pub config_generation : ℕ
  pub queues : Option (List Queue)
  pub queue_evts : List WindowsEvent
  pub queue_config : List QueueConfig
  pub shm_region_select : ℕ
  pub status : ℕ
  pub irq_line : Option ℕ
  pub event : WindowsEvent
  pub intc : IoApic
  pub signals : List WindowsEvent

abbrev pub create_queues : List QueueConfig → List Queue
create_queues queue_config = map (λ (c : QueueConfig). new_queue c.size) queue_config

-- The queues and the events in pairs; the longer list is cut.
unfoldable pub device_queues : List Queue → List WindowsEvent → List DeviceQueue
device_queues [] events = []
device_queues (q ∷ qs) [] = []
device_queues (q ∷ qs) (e ∷ es) = record { queue = q; event = e } ∷ device_queues qs es

-- `get_mut` and the change of the queue; an index out of range changes nothing.
unfoldable pub modify_at : (Queue → Queue) → ℕ → List Queue → List Queue
modify_at f i queues = elim (get_elem? queues i) [
  | none ↦ queues
  | some queue ↦ set queues i (f queue)
]

unfoldable pub update_selected : (Queue → Queue) → ℕ → Option (List Queue) → Option (List Queue)
update_selected f i none = none
update_selected f i (some queues) = some (modify_at f i queues)

module _ {D : Type 0} where
  -- `shared` tells that an activated device holds the interrupt as well.
  unfoldable pub set_irq_line : MmioTransport D → Bool → ℕ → MmioTransport D
  set_irq_line t shared irq_line = if shared then t else record t { irq_line = some irq_line }

  abbrev pub check_device_status : MmioTransport D → ℕ → ℕ → Bool
  check_device_status t sets clr = bit_and t.device_status (bit_or sets clr) == sets

  unfoldable pub with_queue : MmioTransport D → ℕ → (Queue → ℕ) → ℕ
  with_queue t d f = elim t.queues [
    | none ↦ d
    | some queues ↦ elim (get_elem? queues t.queue_select) [ none ↦ d | some queue ↦ f queue ]
  ]

  unfoldable pub with_queue_mut : MmioTransport D → (Queue → Queue) → MmioTransport D
  with_queue_mut t f = record t { queues = update_selected f t.queue_select t.queues }

  unfoldable pub update_queue_field : MmioTransport D → (Queue → Queue) → MmioTransport D
  update_queue_field t f =
      if check_device_status t features_ok failed then with_queue_mut t f else t

  -- The state of the device is not the transport's to reset.
  unfoldable pub reset : MmioTransport D → MmioTransport D
  reset t = record t {
    features_select = 0;
    acked_features_select = 0;
    queue_select = 0;
    status = 0;
    device_status = init;
    queues = some (create_queues t.queue_config);
  }

  -- The interrupt of the bus.
  abbrev pub interrupt : MmioTransport D → ℕ → MmioTransport D
  interrupt t irq_mask = record t {
    status = bit_or t.status irq_mask;
    signals = t.event ∷ t.signals;
  }

module _ {D : Type 0} (types : InterruptTypes) where
  unfoldable pub try_signal : MmioTransport D → ℕ → MmioTransport D
  try_signal t status = record t {
    status = bit_or t.status status;
    intc = set_irq types t.intc t.irq_line;
  }

  abbrev pub try_clear_irq : MmioTransport D → MmioTransport D
  try_clear_irq t = record t { intc = clear_irq types t.intc t.irq_line }

  abbrev pub signal_used_queue : MmioTransport D → MmioTransport D
  signal_used_queue t = try_signal t int_vring

  abbrev pub signal_config_change : MmioTransport D → MmioTransport D
  signal_config_change t = try_signal t int_config

-- `ring_f_event_idx` is the number of the feature bit, a constant of the virtio headers.
module _ {D : Type 0} (dev : VirtioDevice D) (ring_f_event_idx : ℕ) where
  -- The events are those that the host hands out.
  unfoldable pub new : IoApic → D → List WindowsEvent → WindowsEvent → MmioTransport D
  new intc device queue_evts event = record {
    device = device;
    features_select = 0;
    acked_features_select = 0;
    queue_select = 0;
    device_status = init;
    config_generation = 0;
    queues = some (create_queues (dev.queue_config device));
    queue_evts = queue_evts;
    queue_config = dev.queue_config device;
    shm_region_select = 0;
    status = 0;
    irq_line = none;
    event = event;
    intc = intc;
    signals = [];
  }

  -- The queues with the ring feature that was negotiated.
  abbrev pub negotiated : D → List DeviceQueue → List DeviceQueue
  negotiated d queues =
      let event_idx_enabled = not (bit_and (dev.acked_features d) (2 ^ ring_f_event_idx) == 0) in
      map (λ (dq : DeviceQueue). record dq { queue = set_event_idx dq.queue event_idx_enabled })
        queues

  -- An error of the device's `activate` is a panic.
  unfoldable pub activated : MmioTransport D → Outcome D → Outcome (MmioTransport D)
  activated t panic = panic
  activated t (done d) = done (record t { device = d; queues = none })

  unfoldable pub activate_queues : MmioTransport D → Option (List Queue) → Outcome (MmioTransport D)
  activate_queues t none = done t
  activate_queues t (some queues) =
      activated t (dev.activate t.device (negotiated t.device (device_queues queues t.queue_evts)))

  unfoldable pub activate : MmioTransport D → Outcome (MmioTransport D)
  activate t = activate_queues t t.queues

  -- The guest writes 0.
  unfoldable pub reset_device : MmioTransport D → MmioTransport D
  reset_device t =
      let result = dev.reset t.device in
      let asked : MmioTransport D =
        if not (dev.is_activated t.device)
        then t
        else if result.0
        then record t { device = result.1 }
        else record t { device = result.1; device_status = bit_or t.device_status failed } in
      if bit_and asked.device_status failed == 0 then reset asked else asked

  -- The guest writes what is no step of the handshake.
  unfoldable pub other_status : MmioTransport D → ℕ → MmioTransport D
  other_status t status =
      if not (bit_and status failed == 0)
      then record t { device_status = bit_or t.device_status failed }
      else if status == 0
      then reset_device t
      else t

  unfoldable pub set_device_status : MmioTransport D → ℕ → Outcome (MmioTransport D)
  set_device_status t status =
      let changed = bit_and (complement 32 t.device_status) status in
      let moved : MmioTransport D = record t { device_status = status } in
      if changed == acknowledge && t.device_status == init
      then done moved
      else if changed == driver && t.device_status == acknowledge
      then done moved
      else if changed == features_ok && t.device_status == bit_or acknowledge driver
      then done moved
      else if changed == driver_ok
          && t.device_status == bit_or (bit_or acknowledge driver) features_ok
      then (if dev.is_activated t.device then done moved else activate moved)
      else done (other_status t status)
