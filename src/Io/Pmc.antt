-- ===== src/Io/Pmc.antt =====
-- kernel/machine/io/pmc/pmc.c on a bus. routines_core_idle, which does not return, is left to the
-- caller: the device is the one at that call.
use swink.Common.{ℕ, bit_and, bit_or}
use swink.Io.{Bus}
use swink.Io.Registers.{pm_rsts, pm_wdog, pm_rstc, pm_wdog_magic, pm_rstc_fullrst}

-- `~0xfffffaaa`
abbrev pub partition_mask : ℕ
partition_mask = 1365

module _ (bus : Bus) where
  open bus use {Device, read, write}

  unfoldable pub pm_restart : ℕ → Device → Device
  pm_restart r d =
      write pm_rstc (bit_or pm_wdog_magic pm_rstc_fullrst)
        (write pm_wdog (bit_or pm_wdog_magic 10) (write pm_rsts (bit_or pm_wdog_magic r) d))

  unfoldable pub pmc_reset : Device → Device
  unfolding pm_restart
  pmc_reset d = let (r, d') = read pm_rsts d in pm_restart (bit_and r partition_mask) d'

  -- 0x555 is 1365.
  unfoldable pub pmc_shutdown : Device → Device
  unfolding pm_restart
  pmc_shutdown d =
      let (r, d') = read pm_rsts d in pm_restart (bit_or (bit_and r partition_mask) 1365) d'
