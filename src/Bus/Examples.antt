-- ===== src/Bus/Examples.antt =====
-- A bus with a timer at 0x608 and a second device above it.
use whypa.Base.{ℕ, ◌<◌, ◌≡◌, some, ◌↔◌, [], ◌∷◌, ok, err, arith}
use whypa.Bus.{Bus, get_device, insert}
use whypa.Bus.Insert.{IsFree, insert_iff, insert-get_device}

abbrev two_devices : Bus ℕ
two_devices = record {
  devices = (record { base = 0x608; len = 4 }, 0) ∷ (record { base = 0x700; len = 16 }, 1) ∷ [];
}

insert_iff_example :
    ((insert two_devices 2 0x60c 4).0 ≡ ok tt) ↔ ((0 < 4) × IsFree 0x60c 0x610 two_devices.devices)
insert_iff_example = insert_iff two_devices 2 0x60c 4 (omega arith) (omega arith)

insert-get_device_example :
    get_device (insert two_devices 2 0x60c 4).1 0x60d ≡ (elim (insert two_devices 2 0x60c 4).0 [
      | ok _ ↦ some (1, 2)
      | err _ ↦ get_device two_devices 0x60d
    ])
insert-get_device_example =
    insert-get_device two_devices 2 0x60c 4 (omega arith) (omega arith) 0x60d (omega arith)
