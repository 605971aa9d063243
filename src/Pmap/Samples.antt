-- ===== src/Pmap/Samples.antt =====
-- An image of five pages, 2 ^ 17 pages of memory and an allocator that is not initialised.
use swink.Common.{List, [], ℕ, ◌+◌, ◌-◌, ◌^◌, ◌≤◌, arith}
use swink.Synchs.{lock_init}
use swink.Pfa.State.{Pfa}
use swink.Pmap.Boot.{KernelMap}
use swink.Pmap.Boot.Kernel.{IsBootable}

abbrev pub zeros : ℕ → ℕ
zeros a = 0

abbrev pub bootstrap : ℕ
bootstrap = 2 ^ 21

abbrev pub kernel_base : ℕ
kernel_base = 2 ^ 19

abbrev pub one_gigabyte : ℕ
one_gigabyte = 2 ^ 30

abbrev pub image : KernelMap
image = record {
  map_start = 2 ^ 64 - 2 ^ 39;
  text = record { section_start = 2 ^ 64 - 2 ^ 39; section_end = 2 ^ 64 - 2 ^ 39 + 8192 };
  ro_data = record {
    section_start = 2 ^ 64 - 2 ^ 39 + 8192;
    section_end = 2 ^ 64 - 2 ^ 39 + 12288;
  };
  rw_data = record {
    section_start = 2 ^ 64 - 2 ^ 39 + 12288;
    section_end = 2 ^ 64 - 2 ^ 39 + 20480;
  };
}

pub image-IsBootable :
    (ram_size : ℕ) → ram_size ≤ one_gigabyte → IsBootable image ram_size bootstrap
image-IsBootable ram_size le = record {
  text_starts = omega arith;
  text_sized = omega arith;
  ro_starts = omega arith;
  ro_sized = omega arith;
  rw_starts = omega arith;
  rw_sized = omega arith;
  image_fits = omega arith;
  image_word = omega arith;
  ram_addressable = omega arith;
  bootstrap_aligned = omega arith;
  bootstrap_low = omega arith;
}

abbrev pub pages : ℕ
pages = 2 ^ 17

abbrev pub fresh : Pfa (ℕ → List ℕ)
fresh = record {
  lock = lock_init;
  page_base = 0;
  page_count = 0;
  buddy_lists = λ level. [];
  buddy_bitmaps = λ level i. 0;
  metadata = λ i. 0;
}
