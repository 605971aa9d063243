-- ===== src/Testing/Sweeps/Oom.antt =====
-- oom_sweep passes.
use swink.Common.{
  ℕ, zero, suc, ◌+◌, ◌*◌, ◌^◌, ◌≤◌, ◌<◌, ◌≡◌, ◌≢◌, refl, ◌∙◌, ap, subst, sym, List, [], ◌∷◌, map,
  some, ok, arith, length, count, count-cons, count_nil, length_le_range, ◌==◌, ne→==,
  if◌then◌else◌, inl, inr,
}
use swink.Common.Word.{u64}
use swink.LinkedLists.{LinkedLists}
use swink.Pmap.{page_size, phys_addr_invalid, pa_to_kva, physmap_kva_to_pa-pa_to_kva}
use swink.Pfa.State.{Pfa}
use swink.Pfa.Invariant.{IsFreePage, IsMerged, Inv}
use swink.Pfa.Ledger.{Accounts, Accounts-same, within, within_cases, out-managed}
use swink.Pfa.Ledger.Steps.{allocate_step}
use swink.Testing.{pos}
use swink.Testing.Sweeps.{
  World, allocate, release, compare_state, allocate_all, release_all, oom_sweep, oom_sweep_magic,
}
use swink.Testing.Sweeps.Steps.{with_pfa, allocate_eq, release_lem, compare_state_lem}

module _ (lists : LinkedLists) (V : ℕ) where
  open lists use {Store, contents}

  abbrev kva : ℕ → ℕ
  kva x = pa_to_kva V (x * page_size)

  abbrev mark : World Store → ℕ
  mark w = u64 (oom_sweep_magic + w.oom_sweep_run_cnt)

  -- The world after the words at the start of some pages were written.
  abbrev changed : World Store → Pfa Store → (ℕ → ℕ) → World Store
  changed w pfa magic = record w { pfa = pfa; magic = magic }

  abbrev marked : World Store → ℕ → ℕ → ℕ
  marked w page a = if a == kva page then mark w else w.magic a

  -- No free page has the mark.
  abbrev pub IsUnmarked : World Store → Type 0
  IsUnmarked w = (x : ℕ) → IsFreePage w.pfa x → w.magic (kva x) ≢ mark w

  got_eq :
      (fuel page : ℕ) (l : List ℕ) (w : World Store) (pfa' : Pfa Store)
      → allocate lists V 1 w ≡ ok (page * page_size, with_pfa w pfa')
      → page < 2 ^ 20
      → w.magic (kva page) ≢ mark w
      → allocate_all lists V (suc fuel) l w
        ≡ allocate_all lists V fuel (kva page ∷ l) (changed w pfa' (marked w page))
  unfolding allocate_all
  got_eq fuel page l w pfa' e small fresh =
      rw
        (
          e,
          ne→== (page * page_size) phys_addr_invalid (λ h. omega arith),
          ne→== (w.magic (kva page)) (mark w) fresh,
        )
        refl

  last_eq :
      (fuel : ℕ) (l : List ℕ) (w : World Store) (pfa' : Pfa Store)
      → allocate lists V 1 w ≡ ok (phys_addr_invalid, with_pfa w pfa')
      → allocate_all lists V (suc fuel) l w ≡ ok (some l, with_pfa w pfa')
  unfolding allocate_all
  last_eq fuel l w pfa' e = rw e refl

  module _ (start : Pfa Store) where
    -- What the first loop leaves.
    record All (fuel : ℕ) (l : List ℕ) (w : World Store) : Type 0 where
      pages : List ℕ
      pfa' : Pfa Store
      magic' : ℕ → ℕ
      runs : allocate_all lists V fuel l w ≡ ok (some (map kva pages), changed w pfa' magic')
      accounts : Accounts lists V start pfa' (λ x. count x pages)

    -- Pages that are out are no more than there are.
    out_length :
        (pfa : Pfa Store) (pages : List ℕ)
        → Accounts lists V start pfa (λ x. count x pages)
        → length pages ≤ start.page_count
    out_length pfa pages a =
        length_le_range start.page_count start.page_base pages a.once (λ e some. omega (
          arith,
          out-managed lists V start pfa (λ x. count x pages) e a some,
          a.same_base,
          a.same_count,
        ))

    one_more :
        (pfa : Pfa Store) (page : ℕ) (pages : List ℕ)
        → Accounts lists V start pfa (λ x. count x pages + within page 1 x)
        → Accounts lists V start pfa (λ x. count x (page ∷ pages))
    one_more pfa page pages =
        Accounts-same lists V start pfa _ _
          (λ x. ground (arith, count-cons x page pages, within_cases page 1 x))

    kva_apart :
        (x page : ℕ) (pfa : Pfa Store)
        → Inv lists V pfa
        → x < pfa.page_base + pfa.page_count
        → page < pfa.page_base + pfa.page_count
        → x ≢ page
        → kva x ≢ kva page
    unfolding pa_to_kva
    kva_apart x page pfa inv lt lt' other same = omega (arith, inv.mapped)

    free_lt : (pfa : Pfa Store) (x : ℕ) → IsFreePage pfa x → x < pfa.page_base + pfa.page_count
    free_lt pfa x (k, p, f, lo, hi) = omega (arith, f.0)

    still-IsUnmarked :
        (w : World Store) (pfa' : Pfa Store) (page : ℕ)
        → Inv lists V w.pfa
        → IsFreePage w.pfa page
        → ((x : ℕ) → IsFreePage pfa' x → IsFreePage w.pfa x × (x ≢ page))
        → IsUnmarked w
        → IsUnmarked (changed w pfa' (marked w page))
    still-IsUnmarked w pfa' page inv f fewer un x h =
        let (before, other) = fewer x h in
        ground (
          arith,
          un x before,
          kva_apart x page w.pfa inv (free_lt w.pfa x before) (free_lt w.pfa page f) other,
        )

    allocate_all_lem :
        (fuel : ℕ) (pages : List ℕ) (w : World Store)
        → start.page_count < fuel + length pages
        → Accounts lists V start w.pfa (λ x. count x pages)
        → IsUnmarked w
        → All fuel (map kva pages) w
    allocate_all_lem zero pages w enough a un = absurd (omega (arith, out_length w.pfa pages a))
    allocate_all_lem (suc fuel) pages w enough a un =
        let (addr, pfa', e, answer) =
          allocate_step lists V start w.pfa (λ x. count x pages) 1 w.pfa_metadata_m a (omega arith)
            (omega arith) in
        let runs = allocate_eq lists V 1 addr w pfa' e in
        elim answer [
          | inr (at, same, none) ↦ last addr pfa' runs at same
          | inl (k, page, at, room, f, t, b) ↦
              let free = t.were_free page (omega arith) (omega arith) in
              let fewer : (x : ℕ) → IsFreePage pfa' x → IsFreePage w.pfa x × (x ≢ page) =
                λ x h. (((t.taken.free x).0 h).0, λ eq. omega (arith, ((t.taken.free x).0 h).1)) in
              next addr page pfa' runs at free (
                allocate_all_lem fuel (page ∷ pages) (changed w pfa' (marked w page)) (omega arith)
                  (one_more pfa' page pages b) (still-IsUnmarked w pfa' page a.inv free fewer un))
        ]
      where
        last :
            (addr : ℕ) (pfa' : Pfa Store)
            → allocate lists V 1 w ≡ ok (addr, with_pfa w pfa')
            → addr ≡ phys_addr_invalid
            → pfa' ≡ w.pfa
            → All (suc fuel) (map kva pages) w
        last addr pfa' runs at same = record {
          pages = pages;
          pfa' = pfa';
          magic' = w.magic;
          runs =
              last_eq fuel (map kva pages) w pfa'
                (runs ∙ ap (λ (at : ℕ). ok (at, with_pfa w pfa')) at);
          accounts = subst (λ q. Accounts lists V start q (λ x. count x pages)) (sym same) a;
        }

        next :
            (addr page : ℕ) (pfa' : Pfa Store)
            → allocate lists V 1 w ≡ ok (addr, with_pfa w pfa')
            → addr ≡ page * page_size
            → IsFreePage w.pfa page
            → All fuel (kva page ∷ map kva pages) (changed w pfa' (marked w page))
            → All (suc fuel) (map kva pages) w
        next addr page pfa' runs at f rest = record {
          pages = rest.pages;
          pfa' = rest.pfa';
          magic' = rest.magic';
          runs =
              got_eq fuel page (map kva pages) w pfa'
                (runs ∙ ap (λ (at : ℕ). ok (at, with_pfa w pfa')) at)
                (omega (arith, free_lt w.pfa page f, a.inv.small)) (un page f)
              ∙ rest.runs;
          accounts = rest.accounts;
        }

    release_eq :
        (page : ℕ) (pages : List ℕ) (w : World Store) (pfa' : Pfa Store)
        → V + page * page_size < 2 ^ 64
        → release lists V (page * page_size) 1 w ≡ ok (with_pfa w pfa')
        → release_all lists V (kva page ∷ map kva pages) w
          ≡ release_all lists V (map kva pages) (with_pfa w pfa')
    unfolding release_all
    release_eq page pages w pfa' room e =
        rw (physmap_kva_to_pa-pa_to_kva V (page * page_size) room, e) refl

    release_all_lem :
        (pages : List ℕ) (w : World Store)
        → Accounts lists V start w.pfa (λ x. count x pages)
        → (pfa' : Pfa Store) × (release_all lists V (map kva pages) w ≡ ok (with_pfa w pfa'))
          × Accounts lists V start pfa' (λ x. 0)
    release_all_lem [] w a = (
      w.pfa,
      unfold release_all in refl,
      Accounts-same lists V start w.pfa _ _ (λ x. count_nil x [] refl) a,
    )
    release_all_lem (page ∷ pages) w a =
        let out =
          out-managed lists V start w.pfa (λ x. count x (page ∷ pages)) page a
            (ground (arith, count-cons page page pages)) in
        let (pfa1, e, b) =
          release_lem lists V start w (λ x. count x (page ∷ pages)) (λ x. count x pages) page 1 a
            (λ x. ground (arith, count-cons x page pages, within_cases page 1 x)) (omega arith)
            (omega arith) in
        let (pfa', e', c) = release_all_lem pages (with_pfa w pfa1) b in
        (pfa', release_eq page pages w pfa1 (omega (arith, a.inv.mapped, out)) e ∙ e', c)

    oom_eq :
        (fuel : ℕ) (w : World Store) (pages : List ℕ) (pfa1 pfa2 : Pfa Store) (magic' : ℕ → ℕ)
        → allocate_all lists V fuel [] (record w { oom_sweep_run_cnt = w.oom_sweep_run_cnt + 1 })
          ≡ ok (
            some pages,
            record w { oom_sweep_run_cnt = w.oom_sweep_run_cnt + 1; pfa = pfa1; magic = magic' },
          )
        → release_all lists V pages
            (record w { oom_sweep_run_cnt = w.oom_sweep_run_cnt + 1; pfa = pfa1; magic = magic' })
          ≡ ok
              (record w { oom_sweep_run_cnt = w.oom_sweep_run_cnt + 1; pfa = pfa2; magic = magic' })
        → oom_sweep lists V fuel w
          ≡ compare_state lists V
              (record w { oom_sweep_run_cnt = w.oom_sweep_run_cnt + 1; pfa = pfa2; magic = magic' })
    unfolding oom_sweep
    oom_eq fuel w pages pfa1 pfa2 magic' e e' = rw (e, e') refl

    module _ (inv : Inv lists V start) (merged : IsMerged start) where
      pub oom_sweep_run :
          (fuel : ℕ) (w : World Store)
          → start.page_count < fuel
          → ((i : ℕ) → i < 6 → w.pfa_original_state i ≡ length (contents start.buddy_lists i))
          → Accounts lists V start w.pfa (λ x. 0)
          → IsUnmarked (record w { oom_sweep_run_cnt = w.oom_sweep_run_cnt + 1 })
          → (w' : World Store) × (oom_sweep lists V fuel w ≡ ok (pos 0, w'))
            × Accounts lists V start w'.pfa (λ x. 0)
      oom_sweep_run fuel w enough sizes a un =
          let all =
            allocate_all_lem fuel [] (record w { oom_sweep_run_cnt = w.oom_sweep_run_cnt + 1 })
              (omega arith)
              (Accounts-same lists V start w.pfa (λ x. 0) _ (λ x. sym (count_nil x [] refl)) a)
              un in
          let (pfa2, e, b) = release_all_lem all.pages _ all.accounts in
          (
            _,
            oom_eq fuel w (map kva all.pages) all.pfa' pfa2 all.magic' all.runs e
                ∙ compare_state_lem lists V start _ (λ x. 0) inv merged sizes b (λ x. refl),
            b,
          )
