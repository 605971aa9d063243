-- ===== src/Exceptions/Frame/Trips.antt =====
-- What an exception saves in its frame is what the handler reads, and comes back when it returns.
use swink.Common.{
  ℕ, zero, suc, ◌+◌, ◌*◌, ◌/◌, ◌%◌, ◌^◌, ◌<◌, ◌≡◌, refl, ◌∙◌, ap, leb, ltb, ◌==◌, ◌&&◌,
  if◌then◌else◌, arith, ℕ_discrete,
}
use swink.Exceptions.Frame.{
  Registers, arm64_gp, arm64_neon_q, load_w, load_x, load_q, spill, context_at, unspill_x,
  unspill_q, set_x, unspill,
}
use swink.Exceptions.Frame.Words.{part, x_word, lr_word, sp_word, q_word, status_words}

-- The registers have the sizes of the machine.
pub record AreSized (r : Registers) : Type 0 where
  pub x : (i : ℕ) → r.x i < 2 ^ 64
  pub sp : r.sp < 2 ^ 64
  pub q : (i : ℕ) → r.q i < 2 ^ 128
  pub fpsr : r.fpsr < 2 ^ 32
  pub fpcr : r.fpcr < 2 ^ 32
  pub esr_el1 : r.esr_el1 < 2 ^ 32
  pub spsr_el1 : r.spsr_el1 < 2 ^ 32
  pub far_el1 : r.far_el1 < 2 ^ 64
  pub elr_el1 : r.elr_el1 < 2 ^ 64

load_x_words :
    (i v : ℕ) (m : ℕ → ℕ)
    → v < 2 ^ 64
    → m (2 * i + 0) ≡ part v 0
    → m (2 * i + 1) ≡ part v 1
    → load_x (8 * i) m ≡ v
unfolding load_x load_w
load_x_words i v m lt e e' = omega (
  arith,
  e,
  e',
  ap m {x = 8 * i / 4} {y = 2 * i + 0} (omega arith),
  ap m {x = (8 * i + 4) / 4} {y = 2 * i + 1} (omega arith),
)

module _ (r : Registers) (m : ℕ → ℕ) (s : AreSized r) where
  x_saved : (i : ℕ) → i < 30 → load_x (8 * i) (spill r m) ≡ r.x i
  x_saved i lt =
      load_x_words i (r.x i) (spill r m) (s.x i) (x_word i 0 r m lt (omega arith))
        (x_word i 1 r m lt (omega arith))

  lr_saved : load_x 240 (spill r m) ≡ r.x 30
  lr_saved =
      load_x_words 30 (r.x 30) (spill r m) (s.x 30) (lr_word 0 r m (omega arith))
        (lr_word 1 r m (omega arith))

  sp_saved : load_x 248 (spill r m) ≡ r.sp
  sp_saved =
      load_x_words 31 r.sp (spill r m) s.sp (sp_word 0 r m (omega arith))
        (sp_word 1 r m (omega arith))

  q_half :
      (i h : ℕ)
      → i < 32
      → h < 2
      → load_x (256 + 16 * i + 8 * h) (spill r m) ≡ r.q i / 2 ^ (64 * h) % 2 ^ 64
  unfolding load_x load_w
  q_half i zero lt lt' = omega (
    arith,
    q_word i 0 r m lt,
    q_word i 1 r m lt,
    ap (spill r m) {x = (256 + 16 * i + 8 * 0) / 4} {y = 64 + 4 * i + 0} (omega arith),
    ap (spill r m) {x = (256 + 16 * i + 8 * 0 + 4) / 4} {y = 64 + 4 * i + 1} (omega arith),
  )
  q_half i (suc zero) lt lt' = omega (
    arith,
    q_word i 2 r m lt,
    q_word i 3 r m lt,
    ap (spill r m) {x = (256 + 16 * i + 8 * 1) / 4} {y = 64 + 4 * i + 2} (omega arith),
    ap (spill r m) {x = (256 + 16 * i + 8 * 1 + 4) / 4} {y = 64 + 4 * i + 3} (omega arith),
  )
  q_half i (suc (suc h)) lt lt' = absurd (omega arith)

  status_saved :
      (load_w 768 (spill r m) ≡ r.fpsr)
      × (load_w 772 (spill r m) ≡ r.fpcr)
      × (load_w 776 (spill r m) ≡ r.esr_el1)
      × (load_w 780 (spill r m) ≡ r.spsr_el1)
      × (load_x 784 (spill r m) ≡ r.far_el1)
      × (load_x 792 (spill r m) ≡ r.elr_el1)
  unfolding load_x load_w
  status_saved =
      let words = status_words r m in
      (
        omega (arith, words, s.fpsr),
        omega (arith, words, s.fpcr),
        omega (arith, words, s.esr_el1),
        omega (arith, words, s.spsr_el1),
        omega (arith, words, s.far_el1),
        omega (arith, words, s.elr_el1),
      )

unspill_x_lem :
    (pairs n i : ℕ) (m x : ℕ → ℕ)
    → unspill_x pairs n m x i
      ≡ (if leb n i && ltb i (n + 2 * pairs) then load_x (arm64_gp i) m else x i)
unfolding unspill_x
unspill_x_lem zero n i m x = ground arith
unspill_x_lem (suc pairs) n i m x = ground (arith, unspill_x_lem pairs (n + 2) i m x)

unspill_q_lem :
    (pairs n i : ℕ) (m q : ℕ → ℕ)
    → unspill_q pairs n m q i
      ≡ (if leb n i && ltb i (n + 2 * pairs) then load_q (arm64_neon_q i) m else q i)
unfolding unspill_q
unspill_q_lem zero n i m q = ground arith
unspill_q_lem (suc pairs) n i m q = ground (arith, unspill_q_lem pairs (n + 2) i m q)

set_x_of : (f x : ℕ → ℕ) (n v i : ℕ) → v ≡ f n → set_x n v x i ≡ (if n == i then f i else x i)
unfolding set_x
set_x_of f x n v i at = elim (ℕ_discrete n i) [
  | yes same ↦ ground (arith, at ∙ ap f same)
  | no other ↦ ground arith
]

module _ (r r' : Registers) (m : ℕ → ℕ) (s : AreSized r) where
  x_back :
      (i : ℕ)
      → i < 31
      → set_x 1
          (load_x (arm64_gp 0 + 8) (spill r m))
          (set_x 0
            (load_x (arm64_gp 0) (spill r m))
            (set_x 30 (load_x 240 (spill r m)) (unspill_x 14 2 (spill r m) r'.x)))
          i
        ≡ r.x i
  x_back i lt =
      let last = unspill_x 14 2 (spill r m) r'.x in
      let lr = set_x 30 (load_x 240 (spill r m)) last in
      let zeroth = set_x 0 (load_x (arm64_gp 0) (spill r m)) lr in
      ground (
        arith,
        set_x_of r.x zeroth 1 (load_x (arm64_gp 0 + 8) (spill r m)) i
            (x_saved r m s 1 (omega arith)),
        set_x_of r.x lr 0 (load_x (arm64_gp 0) (spill r m)) i (x_saved r m s 0 (omega arith)),
        set_x_of r.x last 30 (load_x 240 (spill r m)) i (lr_saved r m s),
        unspill_x_lem 14 2 i (spill r m) r'.x,
        x_saved r m s i,
      )

  q_whole : (i : ℕ) → i < 32 → load_q (256 + 16 * i) (spill r m) ≡ r.q i
  unfolding load_q
  q_whole i lt = omega (
    arith,
    s.q i,
    q_half r m s i 0 lt (omega arith),
    q_half r m s i 1 lt (omega arith),
    ap (λ t. load_x t (spill r m)) {x = 256 + 16 * i + 8 * 0} {y = 256 + 16 * i} (omega arith),
  )

  q_back : (i : ℕ) → i < 32 → unspill_q 16 0 (spill r m) r'.q i ≡ r.q i
  q_back i lt = ground (arith, unspill_q_lem 16 0 i (spill r m) r'.q, q_whole i lt)

-- For registers of the machine's sizes, on a stack with any contents, the C structure at the
-- pointer that the handler is given holds each general register, fp, lr and sp, the low and the
-- high half of each vector register in turn, both floating-point registers, the syndrome, the saved
-- program status, the fault address and the return address.
pub context_at-spill :
    (r : Registers) (m : ℕ → ℕ)
    → AreSized r
    → ((i : ℕ) → i < 29 → (context_at (spill r m)).gp.x i ≡ r.x i)
      × ((context_at (spill r m)).gp.fp ≡ r.x 29)
      × ((context_at (spill r m)).gp.lr ≡ r.x 30)
      × ((context_at (spill r m)).gp.sp ≡ r.sp)
      × ((i h : ℕ)
          → i < 32
          → h < 2
          → (context_at (spill r m)).neon.q (2 * i + h) ≡ r.q i / 2 ^ (64 * h) % 2 ^ 64)
      × ((context_at (spill r m)).neon.fpsr ≡ r.fpsr)
      × ((context_at (spill r m)).neon.fpcr ≡ r.fpcr)
      × ((context_at (spill r m)).esr ≡ r.esr_el1)
      × ((context_at (spill r m)).cpsr ≡ r.spsr_el1)
      × ((context_at (spill r m)).far ≡ r.far_el1)
      × ((context_at (spill r m)).pc ≡ r.elr_el1)
unfolding context_at
context_at-spill r m s =
    let (fpsr, fpcr, esr, spsr, far, elr) = status_saved r m s in
    (
      λ i lt. x_saved r m s i (omega arith),
      x_saved r m s 29 (omega arith),
      lr_saved r m s,
      sp_saved r m s,
      λ i h lt lt'.
          ap (λ t. load_x t (spill r m)) {x = 256 + 8 * (2 * i + h)} {y = 256 + 16 * i + 8 * h}
            (omega arith)
          ∙ q_half r m s i h lt lt',
      fpsr,
      fpcr,
      esr,
      spsr,
      far,
      elr,
    )

-- For registers of the machine's sizes, on a stack with any contents, and whatever the registers
-- hold when the handler returns, the general registers, sp, the vector registers, the
-- floating-point status, the program status and the return address are those from before the
-- exception. The floating-point control is not restored: it is what it was when the handler
-- returned.
pub unspill-spill :
    (r r' : Registers) (m : ℕ → ℕ)
    → AreSized r
    → ((i : ℕ) → i < 31 → (unspill (spill r m) r').x i ≡ r.x i)
      × ((unspill (spill r m) r').sp ≡ r.sp)
      × ((i : ℕ) → i < 32 → (unspill (spill r m) r').q i ≡ r.q i)
      × ((unspill (spill r m) r').fpsr ≡ r.fpsr)
      × ((unspill (spill r m) r').spsr_el1 ≡ r.spsr_el1)
      × ((unspill (spill r m) r').elr_el1 ≡ r.elr_el1)
      × ((unspill (spill r m) r').fpcr ≡ r'.fpcr)
unfolding unspill
unspill-spill r r' m s =
    let (fpsr, fpcr, esr, spsr, far, elr) = status_saved r m s in
    (x_back r r' m s, sp_saved r m s, q_back r r' m s, fpsr, spsr, elr, refl)
