-- ===== src/Mmio/Registers.antt =====
-- The halves of a ring's address, written to two registers of the selected queue.
use whypa.Base.{
  ℕ, zero, suc, ◌+◌, ◌-◌, ◌*◌, ◌/◌, ◌%◌, ◌^◌, ◌<◌, ◌≡◌, refl, ap, ◌∙◌, ltb, if◌then◌else◌, true,
  Option, some, List, [], ◌∷◌, length, set, get_elem?, get_elem?-set_self, bit_and, complement,
  to_le_bytes, from_le_bytes, length-to_le_bytes, from_le_bytes-to_le_bytes, done, dec_lt, arith,
}
use whypa.Base.Bits.{
  bit, bit_ext, bit_or_lt, bit_and-low_mask, bit-bit_and, bit-bit_or, bit-complement, bit-low_mask,
  bit-shl, bit-shr, bit-mod_two_pow,
}
use whypa.Queue.Vring.{Queue}
use whypa.IoApic.Device.{InterruptTypes}
use whypa.Mmio.Device.{VirtioDevice}
use whypa.Mmio.Transport.{
  MmioTransport, features_ok, failed, check_device_status, update_selected, modify_at,
  with_queue_mut, update_queue_field,
}
use whypa.Mmio.Access.{lo, hi, write_register, write, run}

-- Each digit of the address put together.
halves :
    (v a i : ℕ)
    → i < 64
    → bit (hi (lo v (a % 2 ^ 32)) (a / 2 ^ 32)) i
      ≡ (if ltb i 32 then bit a i else bit a (32 + (i - 32)))
halves v a i k = ground (
  arith,
  bit-bit_or (bit_and (lo v (a % 2 ^ 32)) 0xffff_ffff) (a / 2 ^ 32 * 2 ^ 32) i,
  bit-bit_and (lo v (a % 2 ^ 32)) 0xffff_ffff i,
  bit-bit_or (bit_and v (complement 64 0xffff_ffff)) (a % 2 ^ 32) i,
  bit-bit_and v (complement 64 0xffff_ffff) i,
  bit-complement 64 0xffff_ffff i (omega arith) k,
  bit-low_mask 32 i,
  bit-mod_two_pow a 32 i,
  bit-shl (a / 2 ^ 32) 32 i,
  bit-shr a 32 (i - 32),
)

-- The two halves make up the address, whatever was there before.
pub hi-lo : (v a : ℕ) → a < 2 ^ 64 → hi (lo v (a % 2 ^ 32)) (a / 2 ^ 32) ≡ a
hi-lo v a h =
    let low = lo v (a % 2 ^ 32) in
    let small : bit_and low 0xffff_ffff < 2 ^ 64 = omega (arith, bit_and-low_mask 32 low) in
    bit_ext 64 (hi low (a / 2 ^ 32)) a
      (bit_or_lt 64 (bit_and low 0xffff_ffff) (a / 2 ^ 32 * 2 ^ 32) small (omega arith)) h
      λ i k.
        let high : (i < 32 → ⊥) → bit a (32 + (i - 32)) ≡ bit a i = λ n. ap (bit a) (omega arith) in
        elim (dec_lt i 32) [
          | yes p ↦ ground (arith, halves v a i k)
          | no p ↦ ground (arith, halves v a i k, high p)
        ]

set-set : (xs : List Queue) (i : ℕ) (a b : Queue) → set (set xs i a) i b ≡ set xs i b
set-set [] i a b = refl
set-set (x ∷ xs) zero a b = refl
set-set (x ∷ xs) (suc i) a b = ap (λ r. x ∷ r) (set-set xs i a b)

present : (qs : List Queue) (i : ℕ) (q : Queue) → get_elem? qs i ≡ some q → i < length qs
present [] i q e = ground arith
present (x ∷ qs) zero q e = omega arith
present (x ∷ qs) (suc i) q e = omega (arith, present qs i q e)

modify-modify :
    (f g : Queue → Queue) (i : ℕ) (qs : List Queue) (q : Queue)
    → get_elem? qs i ≡ some q
    → modify_at g i (modify_at f i qs) ≡ set qs i (g (f q))
unfolding modify_at
modify-modify f g i qs q e =
    let once : modify_at f i qs ≡ set qs i (f q) = rw (modify_at, e) refl in
    let found = get_elem?-set_self qs i (f q) (present qs i q e) in
    rw once (rw (modify_at, found) (set-set qs i (f q) (g (f q))))

module _ {D : Type 0} (dev : VirtioDevice D) (types : InterruptTypes) (ring_f_event_idx : ℕ) where
  written : (v : ℕ) → v < 2 ^ 32 → from_le_bytes (to_le_bytes 4 v) ≡ v
  written v h = from_le_bytes-to_le_bytes 4 v h

  write_at :
      (t : MmioTransport D) (offset v : ℕ)
      → offset < 0x100
      → v < 2 ^ 32
      → write dev types ring_f_event_idx t offset (to_le_bytes 4 v)
        ≡ write_register dev types ring_f_event_idx t offset v
  unfolding write
  write_at t offset v low h =
      let size = length-to_le_bytes 4 v in let number = written v h in ground (arith, size, number)

  -- With FEATURES_OK and not FAILED, when the selected queue is there, the two halves of an
  -- address below 2 ^ 64 written to the registers 0x80 and 0x84 are the queue's descriptor table
  -- address then, and nothing else in the transport changes.
  pub write_desc_table :
      (t : MmioTransport D) (qs : List Queue) (q : Queue) (a : ℕ)
      → check_device_status t features_ok failed ≡ true
      → t.queues ≡ some qs
      → get_elem? qs t.queue_select ≡ some q
      → a < 2 ^ 64
      → run dev types ring_f_event_idx t
          ((0x80, to_le_bytes 4 (a % 2 ^ 32)) ∷ (0x84, to_le_bytes 4 (a / 2 ^ 32)) ∷ [])
        ≡ done (record t { queues = some (set qs t.queue_select (record q { desc_table = a })) })
  write_desc_table t qs q a ok there selected h =
      let low = λ (r : Queue). record r { desc_table = lo r.desc_table (a % 2 ^ 32) } in
      let high = λ (r : Queue). record r { desc_table = hi r.desc_table (a / 2 ^ 32) } in
      let put = λ (x : Option (List Queue)). done (record t { queues = x }) in
      let first : MmioTransport D = record t {
        queues = update_selected low t.queue_select t.queues;
      } in
      let one : write dev types ring_f_event_idx t 0x80 (to_le_bytes 4 (a % 2 ^ 32)) ≡ done first =
        write_at t 0x80 (a % 2 ^ 32) (omega arith) (omega arith)
        ∙ (unfold write_register update_queue_field with_queue_mut in rw ok refl) in
      let two : write dev types ring_f_event_idx first 0x84 (to_le_bytes 4 (a / 2 ^ 32))
          ≡ put
              (update_selected high t.queue_select (update_selected low t.queue_select t.queues)) =
        write_at first 0x84 (a / 2 ^ 32) (omega arith) (omega arith)
        ∙ (unfold write_register update_queue_field with_queue_mut in rw ok refl) in
      let both : update_selected high t.queue_select (update_selected low t.queue_select t.queues)
          ≡ some (set qs t.queue_select (record q { desc_table = a })) =
        ap (λ x. update_selected high t.queue_select (update_selected low t.queue_select x)) there
        ∙ (unfold update_selected in
            ap some (
              modify-modify low high t.queue_select qs q selected
              ∙ ap (λ d. set qs t.queue_select (record q { desc_table = d }))
                  (hi-lo q.desc_table a h))) in
      unfold run in (rw (one, two) (ap put both))
