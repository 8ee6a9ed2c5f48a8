-- ===== src/Driver/Interrupt/Handler.antt =====
-- The handlers of driver/ibs-interrupt.c and the ring invariant.
use amd_ibs_toolkit.Base.{ℕ, Bool-cases, inl, inr}
use amd_ibs_toolkit.Driver.Scatter.{is_set}
use amd_ibs_toolkit.Driver.Device.{Kernel, IbsDev, Log}
use amd_ibs_toolkit.Driver.Registers.{msr_ibs_op_ctl, msr_ibs_fetch_ctl, ibs_op_val, ibs_fetch_val}
use amd_ibs_toolkit.Driver.Interrupt
use amd_ibs_toolkit.Driver.Ring.{IsValid}
use amd_ibs_toolkit.Driver.Ring.Put.{put_sample-IsValid}

module _ (k : Kernel) (ctx : Interrupt.Context) where
  handle_ibs_op_event-IsValid :
      (dev : IbsDev) (lfsr : ℕ) (log : Log)
      → IsValid dev
      → IsValid (Interrupt.handle_ibs_op_event k ctx dev lfsr log).dev
  unfolding Interrupt.handle_ibs_op_event
  handle_ibs_op_event-IsValid dev lfsr log v =
      elim (Bool-cases (Interrupt.skips dev (k.rdmsr log ctx.cpu msr_ibs_op_ctl))) [
        | inl stopped ↦ rw stopped v
        | inr counted ↦ rw counted (put_sample-IsValid _ v)
      ]

  handle_ibs_fetch_event-IsValid :
      (dev : IbsDev) (log : Log)
      → IsValid dev
      → IsValid (Interrupt.handle_ibs_fetch_event k ctx dev log).0
  unfolding Interrupt.handle_ibs_fetch_event
  handle_ibs_fetch_event-IsValid dev log v = put_sample-IsValid _ v

  fetch_half-IsValid :
      (c : Interrupt.Core) (n : ℕ)
      → IsValid c.op_dev
      → IsValid c.fetch_dev
      → IsValid (Interrupt.fetch_half k ctx c n).1.op_dev
        × IsValid (Interrupt.fetch_half k ctx c n).1.fetch_dev
  fetch_half-IsValid c n v w =
      elim (Bool-cases (is_set (k.rdmsr c.log ctx.cpu msr_ibs_fetch_ctl) ibs_fetch_val)) [
        | inl raised ↦ rw raised (v, handle_ibs_fetch_event-IsValid c.fetch_dev c.log w)
        | inr quiet ↦ rw quiet (v, w)
      ]

  -- An interrupt leaves both rings of its CPU valid, whatever the registers hold, if they were
  -- valid.
  pub handle_ibs_event-IsValid :
      (c : Interrupt.Core)
      → IsValid c.op_dev
      → IsValid c.fetch_dev
      → IsValid (Interrupt.handle_ibs_event k ctx c).1.op_dev
        × IsValid (Interrupt.handle_ibs_event k ctx c).1.fetch_dev
  unfolding Interrupt.handle_ibs_event
  handle_ibs_event-IsValid c v w =
      let h = Interrupt.handle_ibs_op_event k ctx c.op_dev c.lfsr c.log in
      elim (Bool-cases (is_set (k.rdmsr c.log ctx.cpu msr_ibs_op_ctl) ibs_op_val)) [
        | inl raised ↦ rw raised (
            fetch_half-IsValid (record c { op_dev = h.dev; lfsr = h.lfsr; log = h.log }) 1
              (handle_ibs_op_event-IsValid c.op_dev c.lfsr c.log v) w)
        | inr quiet ↦ rw quiet (fetch_half-IsValid c 0 v w)
      ]
