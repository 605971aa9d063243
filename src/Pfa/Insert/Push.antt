-- ===== src/Pfa/Insert/Push.antt =====
-- A block whose buddy is not free can be made free with nothing left to merge.
use swink.Common.{ℕ, ◌<◌, ◌≡◌, ◌⊎◌, inl, inr, ap₂, subst₂, ◌≢◌, sym, ◌∙◌, arith}
use native.Mathlib.Nat.{one-le-pow}
use swink.LinkedLists.{LinkedLists}
use swink.Pfa.Levels.{get_buddy_page_id_for_page}
use swink.Pfa.Levels.Buddies.{buddy-buddy, buddy-AreHalves}
use swink.Pfa.State.{Pfa}
use swink.Pfa.Insert.{free_entry_kva, push_free_entry}
use swink.Pfa.Insert.Range.{push-IsFree}
use swink.Pfa.Invariant.{IsBlock, IsFree, IsAllocated, IsMerged, Inv}

module _ (lists : LinkedLists) (V : ℕ) (pfa : Pfa lists.Store) (inv : Inv lists V pfa) (k p : ℕ)
    (block : IsBlock pfa k p) (fresh : IsAllocated pfa k p) where
  abbrev pushed : Pfa lists.Store
  pushed = push_free_entry lists (free_entry_kva V p) p k pfa

  not_own_buddy : (j q : ℕ) → j < 5 → IsBlock pfa j q → ¬ (get_buddy_page_id_for_page q j ≡ q)
  not_own_buddy j q lt b same = omega (
    arith,
    buddy-AreHalves q j lt (omega (arith, b, inv.small, one-le-pow j 2)) b.3,
    one-le-pow j 2,
  )

  -- Making the block free leaves nothing to merge, if its buddy is not free.
  pub push-IsMerged :
      (k ≡ 5) ⊎ (¬ IsFree pfa k (get_buddy_page_id_for_page p k)) → IsMerged pfa → IsMerged pushed
  push-IsMerged (inl top) merged j q lt f g =
      merged j q lt (below j q (omega arith) f)
        (below j (get_buddy_page_id_for_page q j) (omega arith) g)
    where
      below : (j q : ℕ) → j ≢ k → IsFree pushed j q → IsFree pfa j q
      below j q other h = elim (push-IsFree lists V pfa k p inv block fresh j q h) [
        | inl (same, _) ↦ absurd (other same)
        | inr old ↦ old
      ]
  push-IsMerged (inr taken) merged j q lt f g =
      elim (push-IsFree lists V pfa k p inv block fresh j q f) [
        | inl (ej, eq) ↦
            elim (push-IsFree lists V pfa k p inv block fresh j (get_buddy_page_id_for_page q j)
              g) [
                | inl (_, same) ↦
                    not_own_buddy k p (omega arith) block
                      (sym (ap₂ (λ a b. get_buddy_page_id_for_page b a) ej eq) ∙ same)
                | inr old ↦
                    taken (subst₂ (λ a b. IsFree pfa a (get_buddy_page_id_for_page b a)) ej eq old)
              ]
        | inr old_q ↦
            elim (push-IsFree lists V pfa k p inv block fresh j (get_buddy_page_id_for_page q j)
              g) [
                | inl (ej, same) ↦ taken (
                    subst₂ (IsFree pfa) ej
                      (sym (
                          buddy-buddy q j (omega arith)
                            (omega (arith, old_q, inv.small, one-le-pow j 2)))
                        ∙ ap₂ (λ a b. get_buddy_page_id_for_page b a) ej same)
                      old_q)
                | inr old ↦ merged j q lt old_q old
              ]
      ]
