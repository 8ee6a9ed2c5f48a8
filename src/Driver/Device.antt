-- ===== src/Driver/Device.antt =====
-- `struct ibs_dev` and the samples of driver/ibs-structs.h, what the driver asks of the kernel and
-- of the hardware, and the log of what it does to them.
use amd_ibs_toolkit.Base.{ℕ, Bool, Option, List, ◌∷◌}
use amd_ibs_toolkit.Driver.Registers.{Flavor}

-- `struct ibs_op`
pub record IbsOp : Type 0 where
  pub op_ctl : ℕ
  pub op_rip : ℕ
  pub op_data : ℕ
  pub op_data2 : ℕ
  pub op_data3 : ℕ
  pub op_data4 : ℕ
  pub dc_lin_ad : ℕ
  pub dc_phys_ad : ℕ
  pub br_target : ℕ
  pub tsc : ℕ
  pub cr3 : ℕ
  pub tid : ℕ
  pub pid : ℕ
  pub cpu : ℕ
  pub kern_mode : ℕ

-- `struct ibs_fetch`
pub record IbsFetch : Type 0 where
  pub fetch_ctl : ℕ
  pub fetch_ctl_extd : ℕ
  pub fetch_lin_ad : ℕ
  pub fetch_phys_ad : ℕ
  pub tsc : ℕ
  pub cr3 : ℕ
  pub tid : ℕ
  pub pid : ℕ
  pub cpu : ℕ
  pub kern_mode : ℕ

-- An entry of the buffer, which holds one of the two.
pub data Sample : Type 0 where
  op_sample : IbsOp → Sample
  fetch_sample : IbsFetch → Sample

-- `struct ibs_dev`. `buf` is read by entries; `mapped` says that it points at memory that is
-- allocated. The locks and wait queues show in the log.
pub record IbsDev : Type 0 where
  pub buf : ℕ → Sample
  pub mapped : Bool
  pub size : ℕ
  pub entry_size : ℕ
  pub capacity : ℕ
  pub wr : ℕ
  pub rd : ℕ
  pub entries : ℕ
  pub lost : ℕ
  pub poll_threshold : ℕ
  pub ctl : ℕ
  pub cpu : ℕ
  pub flavor : Flavor
  pub in_use : ℕ
  pub ibs_fetch_supported : Bool
  pub ibs_op_supported : Bool
  pub ibs_brn_trgt_supported : Bool
  pub ibs_op_cnt_ext_supported : Bool
  pub ibs_rip_invalid_chk_supported : Bool
  pub ibs_op_brn_fuse_supported : Bool
  pub ibs_fetch_ctl_extd_supported : Bool
  pub ibs_op_data4_supported : Bool
  pub workaround_fam10h_err_420 : Bool
  pub workaround_fam15h_err_718 : Bool
  pub workaround_fam17h_zn : Bool

pub data Lock : Type 0 where
  read_lock ctl_lock : Lock
  workaround_lock : ℕ → Lock

-- What loading the driver takes from the kernel.
pub data Resource : Type 0 where
  op_devs fetch_devs workaround_structs chrdev ibs_class hotplug nmi_handler : Resource
  -- `get_online_cpus`
  online_cpus : Resource

-- What the driver does to its surroundings: `wrmsr cpu register value` and so on.
pub data Effect : Type 0 where
  wrmsr : ℕ → ℕ → ℕ → Effect
  udelay : ℕ → Effect
  copied : List Sample → Effect
  acquire release : Lock → Effect
  wake_readq wake_pollq queue_irq_work : Effect
  freed : Effect
  pr_info pr_warn pr_err : Effect
  cpu_offline cpu_online : ℕ → Effect
  device_create device_destroy : Flavor → ℕ → Effect
  -- `setup_APIC_eilvt` on a CPU, with the offset
  setup_apic_eilvt : ℕ → ℕ → Effect
  took gave_back : Resource → Effect

-- Newest first.
abbrev pub Log : Type 0
Log = List Effect

-- The kernel and the hardware: each answer may depend on all that was done before.
pub record Kernel : Type 0 where
  -- `rdmsr` of a register on a CPU
  pub rdmsr : Log → ℕ → ℕ → ℕ
  -- `vmalloc` of some bytes, with what the memory holds
  pub vmalloc : Log → ℕ → Option (ℕ → Sample)
  -- `copy_to_user` of some bytes fails
  pub copy_fails : Log → ℕ → Bool
  -- `setup_APIC_eilvt` on a CPU, with the offset, does not answer 0
  pub eilvt_fails : Log → ℕ → ℕ → Bool
  -- both allocations of `init_workaround_structs` succeed
  pub alloc_structs : Log → Bool
  -- `cpumask_first(topology_sibling_cpumask(cpu))` and the CPUs of that mask
  pub first_sibling : ℕ → ℕ
  pub siblings : ℕ → List ℕ

pub data Errno : Type 0 where
  eacces ebusy einval efault eagain erestartsys enotty enomem : Errno

-- A return value: a number from 0 on, or a negated error number.
pub data Ret : Type 0 where
  ok : ℕ → Ret
  err : Errno → Ret

pub record Sys : Type 0 where
  pub dev : IbsDev
  pub log : Log

abbrev pub emit : Effect → Sys → Sys
emit e s = record s { log = e ∷ s.log }
