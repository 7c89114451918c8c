-- ===== src/Worker/Examples.antt =====
-- The workers on a queue of four descriptors, in a region of 4096 bytes at 0x1000 that is mapped at
-- 0x9000, with one chain of one descriptor.
use whypa.Base.{
  ℕ, ◌+◌, ◌≡◌, refl, true, false, Option, none, some, List, [], ◌∷◌, replicate, Host, copy_in,
  to_le_bytes, ok, done, arith,
}
use whypa.Memory.{MemoryManager, find_region, last_addr}
use whypa.Queue.Descriptor.{DescriptorChain, writable, is_read_only, is_write_only}
use whypa.Queue.Vring.{Queue}
use whypa.Buffers.Concrete.{slices, slices-IsVolatileSlice}
use whypa.Buffers.Consumer.{DescriptorChainConsumer, consumer_of, slices_of}
use whypa.Buffers.Slice.{get_slice}
use whypa.Buffers.Flat.{addresses, span, put_all}
use whypa.Worker.{Pass, used}
use whypa.Worker.Console.{Console, filter_dsr_and_respond}
use whypa.Worker.Console.Filter.{
  with_queries, HasNoEscape, AllPlain, filter_dsr_and_respond-with_queries,
}
use whypa.Worker.Net.{Net, send_frame, handle_net_rx}
use whypa.Worker.Net.Framing.{recorder, read_frame, read_frame-send_frame}
use whypa.Worker.Net.Delivery.{handle_net_rx_lem}
use whypa.Worker.Block.{DiskImage, Request, unsafe}
use whypa.Worker.Block.Requests.{request_in}
use whypa.Worker.Block.Reading.{request_in_lem}

abbrev mem : MemoryManager
mem = record {
  regions = record { gpa = 0x1000; size = 0x1000; perms = 3; hpa = some 0x9000 } ∷ [];
  mmio_regions = [];
  access_log = [];
  acpi_address = none;
}

abbrev queue : Queue
queue = record {
  max_size = 256;
  size = 4;
  ready = true;
  desc_table = 0x1000;
  avail_ring = 0x1100;
  used_ring = 0x1200;
  next_avail = 5;
  next_used = 5;
  event_idx_enabled = true;
  num_added = 2;
}

abbrev host : Host
host = copy_in (6 ∷ []) 0x9102 (
    copy_in (2 ∷ []) 0x9106
      (copy_in (0x00 ∷ 0x13 ∷ 0 ∷ 0 ∷ 0 ∷ 0 ∷ 0 ∷ 0 ∷ 64 ∷ 0 ∷ 0 ∷ 0 ∷ 2 ∷ []) 0x9020 (λ a. 0)))

abbrev head : DescriptorChain
head = record {
  desc_table = 0x1000;
  queue_size = 4;
  ttl = 4;
  index = 2;
  addr = 0x1300;
  len = 4;
  flags = 2;
  next = 0;
}

-- A generator that counts, with its next number as state.
abbrev random : ℕ → ℕ → Option (List ℕ) × ℕ
random r n = (some (replicate n r), r + 1)

abbrev start : Pass ℕ
start = record { dev = 7; queue = queue; host = host; used_any = false }

-- The guest puts its memory back before each look.
abbrev restore : ℕ → Host → Host
restore n h = host

-- So it is the memory of the start at each look.
abbrev IsRestored : Host → Type 0
IsRestored h = h ≡ host

abbrev console : Console
console = record {
  stdout = [];
  input_buffer = [];
  input_event = false;
  input = 104 ∷ 105 ∷ 33 ∷ 33 ∷ 10 ∷ [];
}

-- "$ ", a query, "x".
filter_dsr_and_respond-with_queries_example :
    filter_dsr_and_respond (36 ∷ 32 ∷ 27 ∷ 91 ∷ 54 ∷ 110 ∷ 120 ∷ []) console ≡ (
      36 ∷ 32 ∷ 120 ∷ [],
      record console { input_buffer = 27 ∷ 91 ∷ 49 ∷ 59 ∷ 49 ∷ 82 ∷ []; input_event = true },
    )
unfolding with_queries HasNoEscape AllPlain
filter_dsr_and_respond-with_queries_example =
    filter_dsr_and_respond-with_queries (36 ∷ 32 ∷ []) ((120 ∷ []) ∷ []) console
      (ground arith, (ground arith, tt)) ((ground arith, tt), tt)

read_frame-send_frame_example : read_frame (2 ∷ 0 ∷ 8 ∷ 9 ∷ 5 ∷ []) ≡ (ok (8 ∷ 9 ∷ []), 5 ∷ [])
unfolding send_frame to_le_bytes
read_frame-send_frame_example =
    read_frame-send_frame (8 ∷ 9 ∷ []) (5 ∷ []) (omega arith) (omega arith)

abbrev sixteen_bytes : DescriptorChainConsumer (ℕ × ℕ)
sixteen_bytes = record { buffers = (0x9300, 16) ∷ []; bytes_consumed = 0 }

abbrev long_head : DescriptorChain
long_head = record head { len = 16 }

sixteen_writable : consumer_of slices mem (writable (long_head ∷ [])) ≡ ok sixteen_bytes
unfolding consumer_of slices_of get_slice find_region writable is_read_only is_write_only last_addr
sixteen_writable = refl

abbrev net : Net (List ℕ)
net = record { gvproxy_stdin = []; rx_pending = []; packets = (8 ∷ 9 ∷ []) ∷ (7 ∷ []) ∷ [] }

handle_net_rx_lem_example :
    handle_net_rx recorder slices mem (long_head ∷ []) net host
    ≡ done (
      used 14,
      record net { packets = (7 ∷ []) ∷ [] },
      put_all
          (addresses slices ((0x9300, 16) ∷ []))
          (0 ∷ 0 ∷ 0 ∷ 0 ∷ 0 ∷ 0 ∷ 0 ∷ 0 ∷ 0 ∷ 0 ∷ 1 ∷ 0 ∷ 8 ∷ 9 ∷ [])
          host,
    )
unfolding addresses span
handle_net_rx_lem_example =
    handle_net_rx_lem recorder slices slices-IsVolatileSlice mem (long_head ∷ []) net host
      sixteen_bytes (8 ∷ 9 ∷ []) ((7 ∷ []) ∷ []) refl sixteen_writable (omega arith)

-- An image of zeroes.
abbrev zeroes : DiskImage (Unit {0})
zeroes = record {
  readv = λ k n offset. (ok tt, replicate n 0);
  writev = λ k bytes offset. (ok tt, k);
  flush = λ k. (ok tt, k);
  sync = λ k. (ok tt, k);
  discard_to_any = λ k offset n. (ok tt, k);
  discard_to_zero = λ k offset n. (ok tt, k);
  write_zeroes = λ k offset n. (ok tt, k);
}

-- A sector at 0x9300, and the status at 0x9800.
abbrev request : Request (ℕ × ℕ) (Unit {0})
request = record {
  reader = record { buffers = []; bytes_consumed = 16 };
  writer = record { buffers = (0x9300, 512) ∷ (0x9800, 1) ∷ []; bytes_consumed = 0 };
  disk = record { cache_type = unsafe; file = tt; nsectors = 8; image_id = [] };
  host = host;
}

request_in_lem_example :
    (c' : DescriptorChainConsumer (ℕ × ℕ)) × (request_in slices zeroes 3 request
      ≡ done (
        ok 512,
        record request {
          writer = c';
          host = put_all (addresses slices ((0x9300, 512) ∷ [])) (replicate 512 0) host;
        },
      ))
    × (addresses slices c'.buffers ≡ 0x9800 ∷ [])
unfolding addresses span
request_in_lem_example =
    request_in_lem slices slices-IsVolatileSlice zeroes request ((0x9300, 512) ∷ [])
      ((0x9800, 1) ∷ []) 3 (replicate 512 0) refl refl refl (omega arith) refl
