-- ===== src/Buffers/Examples.antt =====
-- Readers and writers over two slices, of three bytes at 100 and of two at 200.
use whypa.Base.{ℕ, ◌+◌, ◌*◌, ◌^◌, ◌<◌, ◌≡◌, refl, none, some, [], ◌∷◌, Host, ok, done, arith}
use whypa.Memory.{MemoryManager, find_region, last_addr}
use whypa.Queue.Descriptor.{DescriptorChain}
use whypa.Buffers.Concrete.{slices, slices-IsVolatileSlice}
use whypa.Buffers.Consumer.{DescriptorChainConsumer, read, write, consumer_of, slices_of}
use whypa.Buffers.Slice.{get_slice}
use whypa.Buffers.Flat.{addresses, span, put_all}
use whypa.Buffers.Consume.{left, Consumed, read_lem, write_lem}
use whypa.Buffers.Build.{AreMapped, consumer_of-AreMapped}

abbrev memory : Host
memory a = a * 2

abbrev two_slices : DescriptorChainConsumer (ℕ × ℕ)
two_slices = record { buffers = (100, 3) ∷ (200, 2) ∷ []; bytes_consumed = 7 }

read_lem_example :
    (c' : DescriptorChainConsumer (ℕ × ℕ)) × (read slices two_slices memory 4
      ≡ done (ok 4, c', 200 ∷ 202 ∷ 204 ∷ 400 ∷ []))
    × Consumed slices slices-IsVolatileSlice two_slices 4 c'
unfolding addresses span
read_lem_example = read_lem slices slices-IsVolatileSlice two_slices memory 4 (omega arith)

write_lem_example :
    (c' : DescriptorChainConsumer (ℕ × ℕ)) × (write slices two_slices
        (1 ∷ 2 ∷ 3 ∷ 4 ∷ 5 ∷ 6 ∷ [])
        memory
      ≡ done (
        ok 5,
        c',
        put_all (100 ∷ 101 ∷ 102 ∷ 200 ∷ 201 ∷ []) (1 ∷ 2 ∷ 3 ∷ 4 ∷ 5 ∷ 6 ∷ []) memory,
      ))
    × Consumed slices slices-IsVolatileSlice two_slices 5 c'
unfolding addresses span
write_lem_example =
    write_lem slices slices-IsVolatileSlice two_slices (1 ∷ 2 ∷ 3 ∷ 4 ∷ 5 ∷ 6 ∷ []) memory
      (omega arith)

-- One region of 4096 bytes at guest address 0, mapped at 1000.
abbrev guest : MemoryManager
guest = record {
  regions = record { gpa = 0; size = 4096; perms = 3; hpa = some 1000 } ∷ [];
  mmio_regions = [];
  access_log = [];
  acpi_address = none;
}

abbrev head : DescriptorChain
head = record {
  desc_table = 0;
  queue_size = 4;
  ttl = 4;
  index = 0;
  addr = 16;
  len = 8;
  flags = 0;
  next = 0;
}

abbrev eight_bytes : DescriptorChainConsumer (ℕ × ℕ)
eight_bytes = record { buffers = (1016, 8) ∷ []; bytes_consumed = 0 }

built : consumer_of slices guest (head ∷ []) ≡ ok eight_bytes
unfolding consumer_of slices_of get_slice find_region last_addr
built = refl

consumer_of-AreMapped_example :
    AreMapped slices slices-IsVolatileSlice guest (head ∷ []) eight_bytes.buffers
    × (eight_bytes.bytes_consumed ≡ 0)
    × (eight_bytes.bytes_consumed + left slices slices-IsVolatileSlice eight_bytes < 2 ^ 64)
consumer_of-AreMapped_example =
    consumer_of-AreMapped slices slices-IsVolatileSlice guest (head ∷ []) eight_bytes built
