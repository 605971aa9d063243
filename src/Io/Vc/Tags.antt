-- ===== src/Io/Vc/Tags.antt =====
-- The tags of a message, as message_add_tag lays them out in its body.
use swink.Common.{
  ℕ, ◌+◌, ◌*◌, ◌^◌, ◌≤◌, ◌<◌, ◌≡◌, refl, ◌∙◌, ap, List, [], ◌∷◌, ◌++◌, ◌⊎◌, inl, inr, some, none,
  dec_lt, arith,
}
use swink.Common.Word.{u32}
use swink.Io.Vc.{Message, message_init, message_add_tag, used_slots, write_body}

-- The tags from slot `at` to slot `to`: each is its type, the length of its buffer, a third word and
-- the buffer.
unfoldable pub Holds : (ℕ → ℕ) → ℕ → ℕ → List (ℕ × ℕ) → Type 0
Holds body at to [] = at ≡ to
Holds body at to ((tag_type, slots) ∷ tags) =
    (body at ≡ tag_type) × (body (at + 1) ≡ 4 * slots) × Holds body (at + 3 + slots) to tags

pub record IsMessage (m : Message) (used : ℕ) (tags : List (ℕ × ℕ)) : Type 0 where
  pub length_used : m.length ≡ 4 * (3 + used)
  pub fits : used < 32
  pub rest_zero : (i : ℕ) → used ≤ i → i < 32 → m.body i ≡ 0
  pub holds : Holds m.body 0 used tags

Holds-le : (body : ℕ → ℕ) (tags : List (ℕ × ℕ)) (at to : ℕ) → Holds body at to tags → at ≤ to
unfolding Holds
Holds-le body [] at to h = omega (arith, h)
Holds-le body ((t, slots) ∷ tags) at to (e, e', h) =
    omega (arith, Holds-le body tags (at + 3 + slots) to h)

Holds-snoc :
    (body body' : ℕ → ℕ) (tag_type slots : ℕ) (tags : List (ℕ × ℕ)) (at to : ℕ)
    → ((i : ℕ) → i < to → body' i ≡ body i)
    → body' to ≡ tag_type
    → body' (to + 1) ≡ 4 * slots
    → Holds body at to tags
    → Holds body' at (to + 3 + slots) (tags ++ ((tag_type, slots) ∷ []))
unfolding Holds
Holds-snoc body body' tag_type slots [] at to kept e e' h =
    (ap body' h ∙ e, ap (λ (i : ℕ). body' (i + 1)) h ∙ e', ap (λ (i : ℕ). i + 3 + slots) h)
Holds-snoc body body' tag_type slots ((t, n) ∷ tags) at to kept e e' (f, f', h) =
    let le = Holds-le body tags (at + 3 + n) to h in
    (
      kept at (omega (arith, le)) ∙ f,
      kept (at + 1) (omega (arith, le)) ∙ f',
      Holds-snoc body body' tag_type slots tags (at + 3 + n) to kept e e' h,
    )

pub message_init-IsMessage : IsMessage message_init 0 []
unfolding Holds
message_init-IsMessage = record {
  length_used = refl;
  fits = omega arith;
  rest_zero = λ i lo hi. refl;
  holds = refl;
}

-- Adding a tag of fewer than 2 ^ 30 slots to a message whose body holds tags one after the other,
-- with zeros behind them, either answers NULL, if tags, the new one and an end tag have no room in
-- the 32 words, or puts the new tag behind the others with its type and the size of its buffer,
-- with zeros behind it and the message's length that of them all.
pub message_add_tag_lem :
    (m : Message) (used : ℕ) (tags : List (ℕ × ℕ)) (tag_type slots : ℕ)
    → IsMessage m used tags
    → slots < 2 ^ 30
    → ((m' : Message) × (used + 3 + slots < 32)
        × (message_add_tag m tag_type slots ≡ some (used, m'))
        × IsMessage m' (used + 3 + slots) (tags ++ ((tag_type, slots) ∷ [])))
      ⊎ ((32 ≤ used + 3 + slots) × (message_add_tag m tag_type slots ≡ none))
unfolding message_add_tag
message_add_tag_lem m used tags tag_type slots is small = elim (dec_lt (used + 3 + slots) 32) [
  | yes lt ↦ inl (
    record m {
      length = u32 (m.length + 4 * u32 (3 + slots));
      body = write_body (used + 1) (u32 (4 * slots)) (write_body used tag_type m.body);
    },
    lt,
    rw used_eq (ground (arith, is.fits)),
    record {
      length_used = omega (arith, is.length_used, is.fits);
      fits = lt;
      rest_zero = λ i lo hi. ground (arith, is.rest_zero i (omega arith) hi);
      holds =
          Holds-snoc m.body
            (write_body (used + 1) (u32 (4 * slots)) (write_body used tag_type m.body)) tag_type
            slots tags 0 used (λ i lt. ground arith) (ground arith) (ground arith) is.holds;
    },
  )
  | no over ↦ inr (omega (arith, over), rw used_eq (ground (arith, is.fits)))
]
  where
    used_eq : used_slots m ≡ used
    used_eq = omega (arith, is.length_used, is.fits)
