-- ===== src/Io/Registers.antt =====
-- kernel/machine/io/gpio.h: the addresses of the registers.
use swink.Common.{ℕ, ◌+◌}
use swink.Pmap.Boot.{mmio_base}

abbrev pub gp_base : ℕ
gp_base = mmio_base + 2097152

abbrev pub gpfsel0 : ℕ
gpfsel0 = gp_base + 0

abbrev pub gpfsel1 : ℕ
gpfsel1 = gp_base + 4

abbrev pub gpfsel2 : ℕ
gpfsel2 = gp_base + 8

abbrev pub gpfsel3 : ℕ
gpfsel3 = gp_base + 12

abbrev pub gpfsel4 : ℕ
gpfsel4 = gp_base + 16

abbrev pub gpfsel5 : ℕ
gpfsel5 = gp_base + 20

abbrev pub gpset0 : ℕ
gpset0 = gp_base + 28

abbrev pub gpset1 : ℕ
gpset1 = gp_base + 32

abbrev pub gpclr0 : ℕ
gpclr0 = gp_base + 40

abbrev pub gplev0 : ℕ
gplev0 = gp_base + 52

abbrev pub gplev1 : ℕ
gplev1 = gp_base + 56

abbrev pub gpeds0 : ℕ
gpeds0 = gp_base + 64

abbrev pub gpeds1 : ℕ
gpeds1 = gp_base + 68

abbrev pub gphen0 : ℕ
gphen0 = gp_base + 100

abbrev pub gphen1 : ℕ
gphen1 = gp_base + 104

abbrev pub gppud : ℕ
gppud = gp_base + 148

abbrev pub gppudclk0 : ℕ
gppudclk0 = gp_base + 152

abbrev pub gppudclk1 : ℕ
gppudclk1 = gp_base + 156

abbrev pub aux_mu_base : ℕ
aux_mu_base = mmio_base + 2183168

abbrev pub aux_mu_enable : ℕ
aux_mu_enable = aux_mu_base + 4

abbrev pub aux_mu_io : ℕ
aux_mu_io = aux_mu_base + 64

abbrev pub aux_mu_ier : ℕ
aux_mu_ier = aux_mu_base + 68

abbrev pub aux_mu_iir : ℕ
aux_mu_iir = aux_mu_base + 72

abbrev pub aux_mu_lcr : ℕ
aux_mu_lcr = aux_mu_base + 76

abbrev pub aux_mu_mcr : ℕ
aux_mu_mcr = aux_mu_base + 80

abbrev pub aux_mu_lsr : ℕ
aux_mu_lsr = aux_mu_base + 84

abbrev pub aux_mu_msr : ℕ
aux_mu_msr = aux_mu_base + 88

abbrev pub aux_mu_scratch : ℕ
aux_mu_scratch = aux_mu_base + 92

abbrev pub aux_mu_cntl : ℕ
aux_mu_cntl = aux_mu_base + 96

abbrev pub aux_mu_stat : ℕ
aux_mu_stat = aux_mu_base + 100

abbrev pub aux_mu_baud : ℕ
aux_mu_baud = aux_mu_base + 104

abbrev pub pm_base : ℕ
pm_base = mmio_base + 1048576

abbrev pub pm_rstc : ℕ
pm_rstc = pm_base + 28

abbrev pub pm_rsts : ℕ
pm_rsts = pm_base + 32

abbrev pub pm_wdog : ℕ
pm_wdog = pm_base + 36

-- 0x5a000000
abbrev pub pm_wdog_magic : ℕ
pm_wdog_magic = 1509949440

-- 0x00000020
abbrev pub pm_rstc_fullrst : ℕ
pm_rstc_fullrst = 32

abbrev pub vc_mailbox_base : ℕ
vc_mailbox_base = mmio_base + 47232

abbrev pub vc_mailbox_read : ℕ
vc_mailbox_read = vc_mailbox_base + 0

abbrev pub vc_mailbox_poll : ℕ
vc_mailbox_poll = vc_mailbox_base + 16

abbrev pub vc_mailbox_sender : ℕ
vc_mailbox_sender = vc_mailbox_base + 20

abbrev pub vc_mailbox_status : ℕ
vc_mailbox_status = vc_mailbox_base + 24

abbrev pub vc_mailbox_config : ℕ
vc_mailbox_config = vc_mailbox_base + 28

abbrev pub vc_mailbox_write : ℕ
vc_mailbox_write = vc_mailbox_base + 32

-- 0x80000000
abbrev pub vc_mailbox_response : ℕ
vc_mailbox_response = 2147483648

-- 0x80000000
abbrev pub vc_mailbox_full : ℕ
vc_mailbox_full = 2147483648

-- 0x40000000
abbrev pub vc_mailbox_empty : ℕ
vc_mailbox_empty = 1073741824
