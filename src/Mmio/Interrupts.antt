-- ===== src/Mmio/Interrupts.antt =====
-- What an acknowledgement of interrupts does to the interrupt controller.
use whypa.Base.{ℕ, ◌<◌, ◌≡◌, refl, ap, ◌∙◌, ◌==◌, true, not, ◌&&◌, some, bit_and, complement, arith}
use whypa.Base.Bits.{bit, bit_clear}
use whypa.IoApic.Device.{IoApic, InterruptTypes, clear_irq}
use whypa.Mmio.Transport.{MmioTransport, driver_ok, check_device_status}
use whypa.Mmio.Access.{ack_interrupt}

module _ (types : InterruptTypes) where
  clear_irq_lem :
      (s : IoApic) (line : ℕ)
      → line < 24
      → ((clear_irq types s (some line)).requests ≡ s.requests)
        × ((j : ℕ)
            → j < 24
            → bit (clear_irq types s (some line)).irr j ≡ (bit s.irr j && not (line == j)))
  unfolding clear_irq
  clear_irq_lem s line h =
      (ground arith, λ j k. ground (arith, bit_clear 32 s.irr line j (omega arith) (omega arith)))

  -- Of a running device whose line is below 24, an acknowledgement of all causes that are left
  -- leaves no cause, takes the line's request back from the interrupt controller, leaves the
  -- requests of all other lines, and delivers nothing.
  pub ack_interrupt_lem :
      {D : Type 0} (t : MmioTransport D) (v line : ℕ)
      → t.irq_line ≡ some line
      → line < 24
      → check_device_status t driver_ok 0 ≡ true
      → bit_and t.status (complement 64 v) ≡ 0
      → ((ack_interrupt types t v).status ≡ 0)
        × ((ack_interrupt types t v).intc.requests ≡ t.intc.requests)
        × ((j : ℕ)
            → j < 24
            → bit (ack_interrupt types t v).intc.irr j ≡ (bit t.intc.irr j && not (line == j)))
  ack_interrupt_lem t v line there h running all =
      let no_cause : (bit_and t.status (complement 64 v) == 0) ≡ true = ground arith in
      let taken : (ack_interrupt types t v).intc ≡ clear_irq types t.intc t.irq_line =
        unfold ack_interrupt in (rw (running, no_cause) refl) in
      let cleared : (ack_interrupt types t v).intc ≡ clear_irq types t.intc (some line) =
        taken ∙ ap (clear_irq types t.intc) there in
      let after = clear_irq_lem t.intc line h in
      let none_left : (ack_interrupt types t v).status ≡ 0 =
        unfold ack_interrupt in (rw (running, no_cause) all) in
      (
        none_left,
        ap (λ (s : IoApic). s.requests) cleared ∙ after.0,
        λ j k. ap (λ (s : IoApic). bit s.irr j) cleared ∙ after.1 j k,
      )
