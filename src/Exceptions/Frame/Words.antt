-- ===== src/Exceptions/Frame/Words.antt =====
-- What an exception saves in its frame is there for the handler, and comes back.
use swink.Common.{
  ℕ, zero, suc, ◌+◌, ◌*◌, ◌/◌, ◌%◌, ◌^◌, ◌≤◌, ◌<◌, ◌≡◌, refl, ◌∙◌, ap, ℕ_discrete, ◌⊎◌, inl, leb,
  ltb, ◌==◌, ◌&&◌, if◌then◌else◌, arith,
}
use swink.Exceptions.Frame.{
  Registers, store_w, store_x, store_q, spill_x, spill_q, enter_vector, spill_gp, spill_status,
  spill,
}

-- A 32-bit word of a number
abbrev pub part : ℕ → ℕ → ℕ
part v j = v / 2 ^ (32 * j) % 2 ^ 32

store_x_at :
    (n i j v : ℕ) (m : ℕ → ℕ)
    → j < 2
    → store_x (8 * n) v m (2 * i + j) ≡ (if n == i then part v j else m (2 * i + j))
unfolding store_x store_w
store_x_at n i zero v m lt = ground arith
store_x_at n i (suc zero) v m lt = ground arith
store_x_at n i (suc (suc j)) v m lt = absurd (omega arith)

-- The store of a register of a file
store_x_of :
    (x : ℕ → ℕ) (n i j : ℕ) (m : ℕ → ℕ)
    → j < 2
    → store_x (8 * n) (x n) m (2 * i + j) ≡ (if n == i then part (x i) j else m (2 * i + j))
store_x_of x n i j m lt = elim (ℕ_discrete n i) [
  | yes same ↦
      store_x_at n i j (x n) m lt ∙ ap (λ t. if n == i then part (x t) j else m (2 * i + j)) same
  | no other ↦ ground (arith, store_x_at n i j (x n) m lt)
]

spill_x_lem :
    (pairs n i j : ℕ) (r : Registers) (m : ℕ → ℕ)
    → j < 2
    → spill_x pairs n r m (2 * i + j)
      ≡ (if leb n i && ltb i (n + 2 * pairs) then part (r.x i) j else m (2 * i + j))
unfolding spill_x
spill_x_lem zero n i j r m lt = ground arith
spill_x_lem (suc pairs) n i j r m lt =
    let second = store_x (8 * n + 8) (r.x (n + 1)) m in
    let at : store_x (8 * n + 8) (r.x (n + 1)) m (2 * i + j)
        ≡ (if n + 1 == i then part (r.x i) j else m (2 * i + j)) =
      ap (λ t. store_x t (r.x (n + 1)) m (2 * i + j)) (omega arith)
      ∙ store_x_of r.x (n + 1) i j m lt in
    ground (
      arith,
      spill_x_lem pairs (n + 2) i j r (store_x (8 * n) (r.x n) second) lt,
      store_x_of r.x n i j second lt,
      at,
    )

store_q_at :
    (n i j v : ℕ) (m : ℕ → ℕ)
    → j < 4
    → store_q (256 + 16 * n) v m (64 + 4 * i + j)
      ≡ (if n == i then part v j else m (64 + 4 * i + j))
unfolding store_q store_x store_w
store_q_at n i zero v m lt = ground arith
store_q_at n i (suc zero) v m lt = ground arith
store_q_at n i (suc (suc zero)) v m lt = ground arith
store_q_at n i (suc (suc (suc zero))) v m lt = ground arith
store_q_at n i (suc (suc (suc (suc j)))) v m lt = absurd (omega arith)

store_q_of :
    (q : ℕ → ℕ) (n i j : ℕ) (m : ℕ → ℕ)
    → j < 4
    → store_q (256 + 16 * n) (q n) m (64 + 4 * i + j)
      ≡ (if n == i then part (q i) j else m (64 + 4 * i + j))
store_q_of q n i j m lt = elim (ℕ_discrete n i) [
  | yes same ↦
      store_q_at n i j (q n) m lt
      ∙ ap (λ t. if n == i then part (q t) j else m (64 + 4 * i + j)) same
  | no other ↦ ground (arith, store_q_at n i j (q n) m lt)
]

spill_q_lem :
    (pairs n i j : ℕ) (r : Registers) (m : ℕ → ℕ)
    → j < 4
    → spill_q pairs n r m (64 + 4 * i + j)
      ≡ (if leb n i && ltb i (n + 2 * pairs) then part (r.q i) j else m (64 + 4 * i + j))
unfolding spill_q
spill_q_lem zero n i j r m lt = ground arith
spill_q_lem (suc pairs) n i j r m lt =
    let second = store_q (256 + 16 * n + 16) (r.q (n + 1)) m in
    let at : store_q (256 + 16 * n + 16) (r.q (n + 1)) m (64 + 4 * i + j)
        ≡ (if n + 1 == i then part (r.q i) j else m (64 + 4 * i + j)) =
      ap (λ t. store_q t (r.q (n + 1)) m (64 + 4 * i + j)) (omega arith)
      ∙ store_q_of r.q (n + 1) i j m lt in
    ground (
      arith,
      spill_q_lem pairs (n + 2) i j r (store_q (256 + 16 * n) (r.q n) second) lt,
      store_q_of r.q n i j second lt,
      at,
    )

-- Other words are as they were.
spill_x_other :
    (pairs n w : ℕ) (r : Registers) (m : ℕ → ℕ)
    → 2 * (n + 2 * pairs) ≤ w
    → spill_x pairs n r m w ≡ m w
unfolding spill_x store_x store_w
spill_x_other zero n w r m le = refl
spill_x_other (suc pairs) n w r m le =
    spill_x_other pairs (n + 2) w r _ (omega arith) ∙ ground arith

spill_q_other :
    (pairs n w : ℕ) (r : Registers) (m : ℕ → ℕ)
    → (w < 64) ⊎ (64 + 4 * (n + 2 * pairs) ≤ w)
    → spill_q pairs n r m w ≡ m w
unfolding spill_q store_q store_x store_w
spill_q_other zero n w r m out = refl
spill_q_other (suc pairs) n w r m out =
    spill_q_other pairs (n + 2) w r _ (ground arith) ∙ ground arith

status_other : (w : ℕ) (r : Registers) (m : ℕ → ℕ) → w < 192 → spill_status r m w ≡ m w
unfolding spill_status store_x store_w
status_other w r m lt = ground arith

gp_lem :
    (i j : ℕ) (r : Registers) (m : ℕ → ℕ)
    → i < 30
    → j < 2
    → spill_gp r (enter_vector r m) (2 * i + j) ≡ part (r.x i) j
unfolding spill_gp enter_vector
gp_lem i j r m lt lt' =
    let m1 = spill_x 1 0 r m in
    ground (
      arith,
      store_x_at 30 i j (r.x 30) (spill_x 14 2 r (store_x 248 r.sp m1)) lt',
      spill_x_lem 14 2 i j r (store_x 248 r.sp m1) lt',
      store_x_at 31 i j r.sp m1 lt',
      spill_x_lem 1 0 i j r m lt',
    )

lr_lem :
    (j : ℕ) (r : Registers) (m : ℕ → ℕ)
    → j < 2
    → spill_gp r (enter_vector r m) (60 + j) ≡ part (r.x 30) j
unfolding spill_gp enter_vector
lr_lem j r m lt =
    store_x_at 30 30 j (r.x 30) (spill_x 14 2 r (store_x 248 r.sp (spill_x 1 0 r m))) lt

sp_lem :
    (j : ℕ) (r : Registers) (m : ℕ → ℕ)
    → j < 2
    → spill_gp r (enter_vector r m) (62 + j) ≡ part r.sp j
unfolding spill_gp enter_vector
sp_lem j r m lt =
    let m1 = spill_x 1 0 r m in
    store_x_at 30 31 j (r.x 30) (spill_x 14 2 r (store_x 248 r.sp m1)) lt
    ∙ spill_x_other 14 2 (62 + j) r (store_x 248 r.sp m1) (omega arith)
    ∙ store_x_at 31 31 j r.sp m1 lt

below_q :
    (w : ℕ) (r : Registers) (m : ℕ → ℕ) → w < 64 → spill r m w ≡ spill_gp r (enter_vector r m) w
unfolding spill
below_q w r m lt =
    status_other w r (spill_q 16 0 r (spill_gp r (enter_vector r m))) (omega arith)
    ∙ spill_q_other 16 0 w r (spill_gp r (enter_vector r m)) (inl lt)

-- The words of the frame
pub x_word :
    (i j : ℕ) (r : Registers) (m : ℕ → ℕ) → i < 30 → j < 2 → spill r m (2 * i + j) ≡ part (r.x i) j
x_word i j r m lt lt' = below_q (2 * i + j) r m (omega arith) ∙ gp_lem i j r m lt lt'

pub lr_word : (j : ℕ) (r : Registers) (m : ℕ → ℕ) → j < 2 → spill r m (60 + j) ≡ part (r.x 30) j
lr_word j r m lt = below_q (60 + j) r m (omega arith) ∙ lr_lem j r m lt

pub sp_word : (j : ℕ) (r : Registers) (m : ℕ → ℕ) → j < 2 → spill r m (62 + j) ≡ part r.sp j
sp_word j r m lt = below_q (62 + j) r m (omega arith) ∙ sp_lem j r m lt

pub q_word :
    (i j : ℕ) (r : Registers) (m : ℕ → ℕ)
    → i < 32
    → j < 4
    → spill r m (64 + 4 * i + j) ≡ part (r.q i) j
unfolding spill
q_word i j r m lt lt' =
    status_other (64 + 4 * i + j) r (spill_q 16 0 r (spill_gp r (enter_vector r m))) (omega arith)
    ∙ ground (arith, spill_q_lem 16 0 i j r (spill_gp r (enter_vector r m)) lt')

-- Floating-point status and control, syndrome and program status, fault address and return address
pub status_words :
    (r : Registers) (m : ℕ → ℕ)
    → (spill r m 192 ≡ part r.fpsr 0)
      × (spill r m 193 ≡ part r.fpcr 0)
      × (spill r m 194 ≡ part r.esr_el1 0)
      × (spill r m 195 ≡ part r.spsr_el1 0)
      × (spill r m 196 ≡ part r.far_el1 0)
      × (spill r m 197 ≡ part r.far_el1 1)
      × (spill r m 198 ≡ part r.elr_el1 0)
      × (spill r m 199 ≡ part r.elr_el1 1)
unfolding spill spill_status store_x store_w
status_words r m = ground arith
