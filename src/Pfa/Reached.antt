-- ===== src/Pfa/Reached.antt =====
-- Any number of requests and frees of pmap_pfa.c, in any order in which only pages that are out are
-- freed.
pub mod Progress
use swink.Common.{
  ℕ, ◌+◌, ◌*◌, ◌%◌, ◌^◌, ◌≤◌, ◌<◌, ◌≡◌, ◌⊎◌, ◌↔◌, inl, inr, refl, ◌∙◌, ap, sym, subst, List, [],
  ◌∷◌, ◌++◌, arith, Result, ok, panic, diverges,
}
use swink.LinkedLists.{LinkedLists}
use swink.Pmap.{page_size, phys_addr_invalid}
use swink.Pfa.State.{Pfa}
use swink.Pfa.Invariant.{IsFree, IsFreePage, IsMerged, Inv}
use swink.Pfa.Alloc.{alloc_contig}
use swink.Pfa.Free.{free_contig}
use swink.Pfa.Ledger.{within, Accounts, Accounts-same, opening}
use swink.Pfa.Ledger.Steps.{allocate_step, release_step}
use swink.Pfa.Unique.{same_entries}

-- Pages that are out together.
pub record Block : Type 0 where
  pub page : ℕ
  pub count : ℕ

-- How many of the blocks hold a page.
unfoldable pub owners : List Block → ℕ → ℕ
owners [] x = 0
owners (b ∷ blocks) x = within b.page b.count x + owners blocks x

abbrev pub AreSized : List Block → Type 0
AreSized [] = Unit {0}
AreSized (b ∷ blocks) = (0 < b.count) × (b.count ≤ 32) × AreSized blocks

owners-without :
    (before : List Block) (b : Block) (after : List Block) (x : ℕ)
    → owners (before ++ (b ∷ after)) x ≡ within b.page b.count x + owners (before ++ after) x
unfolding owners
owners-without [] b after x = refl
owners-without (c ∷ before) b after x = omega (arith, owners-without before b after x)

AreSized-without :
    (before : List Block) (b : Block) (after : List Block)
    → AreSized (before ++ (b ∷ after))
    → (0 < b.count) × (b.count ≤ 32) × AreSized (before ++ after)
AreSized-without [] b after sized = sized
AreSized-without (c ∷ before) b after (some, le, sized) =
    let (some_b, le_b, rest) = AreSized-without before b after sized in
    (some_b, le_b, (some, le, rest))

answer_or : {A : Type 0} → A → Result A → A
answer_or a (ok b) = b
answer_or a panic = a
answer_or a diverges = a

same_answer : {A : Type 0} {a b : A} {r : Result A} → r ≡ ok a → r ≡ ok b → a ≡ b
unfolding answer_or
same_answer {A} {a} {b} e e' = ap (answer_or a) (sym e ∙ e')

module _ (lists : LinkedLists) (V : ℕ) where
  open lists use {Store}

  -- The states that come after `start`, with the blocks that are out then.
  pub data Reached (start : Pfa Store) : Pfa Store → List Block → Type 0 where
    none_out : Reached start start []
    allocated :
        (n m page : ℕ) (pfa pfa' : Pfa Store) (blocks : List Block)
        → 0 < n
        → n ≤ 32
        → Reached start pfa blocks
        → alloc_contig lists V (page_size * n) m pfa ≡ ok (page * page_size, pfa')
        → Reached start pfa' (record { page = page; count = n } ∷ blocks)
    refused :
        (n m : ℕ) (pfa pfa' : Pfa Store) (blocks : List Block)
        → 0 < n
        → n ≤ 32
        → Reached start pfa blocks
        → alloc_contig lists V (page_size * n) m pfa ≡ ok (phys_addr_invalid, pfa')
        → Reached start pfa' blocks
    released :
        (b : Block) (before after : List Block) (pfa pfa' : Pfa Store)
        → Reached start pfa (before ++ (b ∷ after))
        → free_contig lists V (b.page * page_size) (page_size * b.count) pfa ≡ ok pfa'
        → Reached start pfa' (before ++ after)

  module _ (start : Pfa Store) (inv : Inv lists V start) (unlocked : start.lock.semaphore.value ≡ 1)
      (merged : IsMerged start) where
    allocate-Accounts :
        (n m page : ℕ) (pfa pfa' : Pfa Store) (blocks : List Block)
        → 0 < n
        → n ≤ 32
        → Accounts lists V start pfa (owners blocks)
        → alloc_contig lists V (page_size * n) m pfa ≡ ok (page * page_size, pfa')
        → Accounts lists V start pfa' (owners (record { page = page; count = n } ∷ blocks))
    unfolding owners
    allocate-Accounts n m page pfa pfa' blocks some le a e =
        let (addr, pfa2, e', answer) =
          allocate_step lists V start pfa (owners blocks) n m a some le in
        let same = same_answer e' e in
        let at : addr ≡ page * page_size = ap (λ (r : ℕ × Pfa Store). r.0) same in
        elim answer [
          | inr (none, _, _) ↦ absurd (omega (arith, at, none))
          | inl (k, p, at', _, _, _, b) ↦
              let here : p ≡ page = omega (arith, at, at') in
              subst
                (λ (q : Pfa Store).
                  Accounts lists V start q (λ x. within page n x + owners blocks x))
                (ap (λ (r : ℕ × Pfa Store). r.1) same)
                (Accounts-same lists V start pfa2 _ _
                  (λ x. omega (arith, ap (λ t. within t n x) here)) b)
        ]

    refuse-Accounts :
        (n m : ℕ) (pfa pfa' : Pfa Store) (out : ℕ → ℕ)
        → 0 < n
        → n ≤ 32
        → Accounts lists V start pfa out
        → alloc_contig lists V (page_size * n) m pfa ≡ ok (phys_addr_invalid, pfa')
        → Accounts lists V start pfa' out
    refuse-Accounts n m pfa pfa' out some le a e =
        let (addr, pfa2, e', answer) = allocate_step lists V start pfa out n m a some le in
        let same = same_answer e' e in
        let at : addr ≡ phys_addr_invalid = ap (λ (r : ℕ × Pfa Store). r.0) same in
        elim answer [
          | inl (k, p, at', _, _, _, b) ↦ absurd (omega (arith, at, at'))
          | inr (_, kept, _) ↦
              subst (λ (q : Pfa Store). Accounts lists V start q out)
                (sym kept ∙ ap (λ (r : ℕ × Pfa Store). r.1) same) a
        ]

    pub release-Accounts :
        (b : Block) (before after : List Block) (pfa : Pfa Store)
        → Accounts lists V start pfa (owners (before ++ (b ∷ after)))
        → AreSized (before ++ (b ∷ after))
        → (pfa' : Pfa Store) × (free_contig lists V (b.page * page_size) (page_size * b.count) pfa
            ≡ ok pfa')
          × Accounts lists V start pfa' (owners (before ++ after))
    release-Accounts b before after pfa a sized =
        let (some, le, rest) = AreSized-without before b after sized in
        release_step lists V start pfa (owners (before ++ (b ∷ after))) (owners (before ++ after))
          b.page b.count a (owners-without before b after) some le

    pub Reached-Accounts :
        {pfa : Pfa Store} {blocks : List Block}
        → Reached start pfa blocks
        → Accounts lists V start pfa (owners blocks) × AreSized blocks
    Reached-Accounts none_out = (
      Accounts-same lists V start start (λ x. 0) (owners []) (λ x. unfold owners in refl)
          (opening lists V start inv merged unlocked),
      tt,
    )
    Reached-Accounts (allocated n m page pfa pfa' blocks some le r e) =
        let (a, sized) = Reached-Accounts r in
        (allocate-Accounts n m page pfa pfa' blocks some le a e, (some, le, sized))
    Reached-Accounts (refused n m pfa pfa' blocks some le r e) =
        let (a, sized) = Reached-Accounts r in
        (refuse-Accounts n m pfa pfa' (owners blocks) some le a e, sized)
    Reached-Accounts (released b before after pfa pfa' r e) =
        let (a, sized) = Reached-Accounts r in
        let (pfa2, e', c) = release-Accounts b before after pfa a sized in
        (
          subst (λ (q : Pfa Store). Accounts lists V start q (owners (before ++ after)))
              (same_answer e' e) c,
          (AreSized-without before b after sized).2,
        )
