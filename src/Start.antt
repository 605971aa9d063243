-- ===== src/Start.antt =====
-- main of kernel/core/start/start.c, of a kernel that is not built for testing, without what it prints and
-- the clearing of its own memory.
pub mod Ends
pub mod Boots
mod Tests
use swink.Common.{ℕ, Result, ok, panic, ◌>>=◌, Option, some, none}
use swink.LinkedLists.{LinkedLists}
use swink.Io.Uart.{Uart}
use swink.Io.Console.{console_init}
use swink.Io.Pmc.{pmc_shutdown}
use swink.Io.Vc.{SharedBus}
use swink.Io.Vc.Functions.{
  vc_functions_get_arm_memory_region, vc_functions_get_board_model, vc_functions_get_vc_revision,
}
use swink.Pfa.State.{Pfa}
use swink.Pmap.Boot.{KernelMap, Vm, pmap_vm_init}

-- What main asks the VideoCore for.
pub record Properties : Type 0 where
  pub arm_ram_base : ℕ
  pub arm_ram_size : ℕ
  pub board_model : ℕ
  pub board_revision : ℕ
  pub videocore_fw : ℕ

module _ (shared : SharedBus) (fuel address : ℕ) where
  open shared use {bus}

  -- One call of the condition; the next is made only if it answers.
  unfoldable pub and_then :
      {A B : Type 0}
      → Result (Option A × bus.Device)
      → (A → bus.Device → Result (Option B × bus.Device))
      → Result (Option B × bus.Device)
  and_then call next =
      call >>= λ (answer, d). elim answer [ none ↦ ok (none, d) | some a ↦ next a d ]

  -- `board_revision` is read by the call for the firmware's revision, as in the source.
  unfoldable pub get_properties : bus.Device → Result (Option Properties × bus.Device)
  unfolding and_then vc_functions_get_arm_memory_region vc_functions_get_board_model
      vc_functions_get_vc_revision
  get_properties d =
      and_then (vc_functions_get_arm_memory_region shared fuel address d) (λ (base, size) d1.
        and_then (vc_functions_get_board_model shared fuel address d1) (λ model d2.
          and_then (vc_functions_get_vc_revision shared fuel address d2) (λ revision d3.
            and_then (vc_functions_get_vc_revision shared fuel address d3) (λ firmware d4. ok (
              some (record {
                arm_ram_base = base;
                arm_ram_size = size;
                board_model = model;
                board_revision = revision;
                videocore_fw = firmware;
              }),
              d4,
            )))))

  module _ (lists : LinkedLists) where
    open lists use {Store}

    -- The tables, the allocator and the device when the core goes idle.
    unfoldable pub main :
        ℕ → KernelMap → ℕ → (ℕ → ℕ) → Pfa Store → Uart bus → Result (Vm × Pfa Store × bus.Device)
    unfolding get_properties console_init pmap_vm_init pmc_shutdown
    main kernel_base k bootstrap_pa_reserved memory pfa u = console_init bus u >>= λ u'.
        get_properties u'.device >>= λ (properties, d). elim properties [
          | none ↦ panic
          | some p ↦
              pmap_vm_init lists kernel_base k p.arm_ram_base p.arm_ram_size bootstrap_pa_reserved
                memory pfa
              >>= λ (vm, pfa'). ok (vm, pfa', pmc_shutdown bus d)
        ]
