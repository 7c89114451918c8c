-- ===== src/Worker/Console.antt =====
-- The chains of the console: the bodies of `process_tx_queue` and `process_rx_input` in
-- src/devices/virtio/console/worker.rs. What is written to the host's terminal is a list of bytes.
pub mod Filter
pub mod Bytes
use whypa.Base.{
  ℕ, zero, suc, Bool, true, false, not, ◌==◌, ◌&&◌, if◌then◌else◌, List, [], ◌∷◌, ◌++◌, length,
  take, drop, min, Host, Result, ok, err, Outcome, done, and_then,
}
use whypa.Memory.{MemoryManager}
use whypa.Queue.Descriptor.{DescriptorChain, readable, writable}
use whypa.Buffers.Slice.{VolatileSlice}
use whypa.Buffers.Consumer.{DescriptorChainConsumer, IoError, available_bytes, consumer_of, read}
use whypa.Buffers.Exact.{write_all}
use whypa.Worker.{Answer, skipped, used, Worker}

-- `input` is what `process_rx_input` has taken out of the input buffer and not yet given to the
-- guest; `input_event` tells whether the event was signalled.
pub record Console : Type 0 where
  pub stdout : List ℕ
  pub input_buffer : List ℕ
  pub input_event : Bool
  pub input : List ℕ

abbrev pub dsr : List ℕ
dsr = 27 ∷ 91 ∷ 54 ∷ 110 ∷ []

abbrev pub cpr : List ℕ
cpr = 27 ∷ 91 ∷ 49 ∷ 59 ∷ 49 ∷ 82 ∷ []

unfoldable pub starts_with : List ℕ → List ℕ → Bool
starts_with [] xs = true
starts_with (p ∷ ps) [] = false
starts_with (p ∷ ps) (x ∷ xs) = x == p && starts_with ps xs

-- The bytes that are kept, and whether a query was found; `over` bytes of a query are still to be
-- passed over.
unfoldable pub filter_dsr : ℕ → List ℕ → List ℕ × Bool
filter_dsr over [] = ([], false)
filter_dsr (suc over) (x ∷ xs) = filter_dsr over xs
filter_dsr zero (x ∷ xs) =
    let passed = filter_dsr 3 xs in
    let kept = filter_dsr 0 xs in
    if starts_with dsr (x ∷ xs) then (passed.0, true) else (x ∷ kept.0, kept.1)

unfoldable pub filter_dsr_and_respond : List ℕ → Console → List ℕ × Console
filter_dsr_and_respond buf con =
    let filtered = filter_dsr 0 buf in
    (
      filtered.0,
      if filtered.1
          then record con { input_buffer = con.input_buffer ++ cpr; input_event = true }
          else con,
    )

module _ {V : Type 0} (vs : VolatileSlice V) (mem : MemoryManager) where
  unfoldable pub sent :
      Console
      → Host
      → Result ℕ IoError × DescriptorChainConsumer V × List ℕ
      → Answer × Console × Host
  sent con host (err _, c, bytes) = (used 0, con, host)
  sent con host (ok n, c, bytes) =
      let filtered = filter_dsr_and_respond bytes con in
      let con' = filtered.1 in (used 0, record con' { stdout = con'.stdout ++ filtered.0 }, host)

  unfoldable pub handle_tx :
      List DescriptorChain → Console → Host → Outcome (Answer × Console × Host)
  handle_tx descs con host = elim (consumer_of vs mem (readable descs)) [
    | err _ ↦ done (skipped, con, host)
    | ok c ↦
        let avail = available_bytes vs c in
        if avail == 0
        then done (used 0, con, host)
        else and_then (read vs c host avail) (λ r. done (sent con host r))
  ]

  abbrev pub tx_worker : Worker Console
  tx_worker = record { more = λ con. (true, con); handle = handle_tx; starved = λ con. con }

  -- The offset moves on only if all was written.
  unfoldable pub received :
      ℕ
      → Console
      → Result (Unit {0}) IoError × DescriptorChainConsumer V × Host
      → Answer × Console × Host
  received to_write con (ok _, c, host) =
      (used to_write, record con { input = drop to_write con.input }, host)
  received to_write con (err _, c, host) = (used to_write, con, host)

  unfoldable pub handle_rx :
      List DescriptorChain → Console → Host → Outcome (Answer × Console × Host)
  handle_rx descs con host = elim (consumer_of vs mem (writable descs)) [
    | err _ ↦ done (skipped, con, host)
    | ok c ↦
        let to_write = min (length con.input) (available_bytes vs c) in
        and_then (write_all vs (take to_write con.input) 2 c host)
          (λ r. done (received to_write con r))
  ]

  -- Without a chain the rest of the input is dropped.
  abbrev pub rx_worker : Worker Console
  rx_worker = record {
    more = λ con. (not (length con.input == 0), con);
    handle = handle_rx;
    starved = λ con. record con { input = [] };
  }

-- What `process_rx_input` begins with.
unfoldable pub drain_input : Console → Console
drain_input con = record con { input_buffer = []; input = con.input_buffer }
