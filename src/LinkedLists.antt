-- ===== src/LinkedLists.antt =====
-- The doubly linked lists of kernel/lib/list.c, which the page-frame allocator only calls: an
-- interface with what kernel/lib/list.h documents. A list and an element are known by their
-- addresses, `Store` is the memory that holds the links, and `contents` is what a walk from the
-- front to the back of a list passes.
use swink.Common.{
  ℕ, ◌≡◌, ◌≢◌, refl, Bool, List, [], ◌∷◌, arith, ◌==◌, if◌then◌else◌, is_nil, length, count, erase,
  Bool-cases, inl, inr,
}

pub record LinkedLists : Type 1 where
  pub Store : Type 0
  pub contents : Store → ℕ → List ℕ
  pub list_init : ℕ → Store → Store
  pub list_empty : ℕ → Store → Bool
  pub list_front : ℕ → Store → ℕ
  pub list_size : ℕ → Store → ℕ
  pub list_push_front : ℕ → ℕ → Store → Store
  pub list_remove : ℕ → Store → Store
  -- "Initializes LIST as an empty list."
  pub init_lem :
      (s : Store) (l k : ℕ) → contents (list_init l s) k ≡ (if l == k then [] else contents s k)
  -- "Returns true if LIST is empty, false otherwise."
  pub empty_lem : (s : Store) (l : ℕ) → list_empty l s ≡ is_nil (contents s l)
  -- "Returns the front element in LIST. Undefined behavior if LIST is empty."
  pub front_lem : (s : Store) (l e : ℕ) (es : List ℕ) → contents s l ≡ e ∷ es → list_front l s ≡ e
  -- "Returns the number of elements in LIST."
  pub size_lem : (s : Store) (l : ℕ) → list_size l s ≡ length (contents s l)
  -- "Inserts ELEM at the beginning of LIST, so that it becomes the front": of an element that is in
  -- no list.
  pub push_front_lem :
      (s : Store) (l e k : ℕ)
      → ((j : ℕ) → count e (contents s j) ≡ 0)
      → contents (list_push_front l e s) k ≡ (if l == k then e ∷ contents s k else contents s k)
  -- "Removes ELEM from its list": of an element that is in one list, once.
  pub remove_lem :
      (s : Store) (l e k : ℕ)
      → count e (contents s l) ≡ 1
      → ((j : ℕ) → l ≢ j → count e (contents s j) ≡ 0)
      → contents (list_remove e s) k ≡ (if l == k then erase e (contents s k) else contents s k)

-- Lists as a function from the address to the elements meet the interface.
unfoldable pub front_or_zero : List ℕ → ℕ
front_or_zero [] = 0
front_or_zero (e ∷ es) = e

erase_absent : (e : ℕ) (xs : List ℕ) → count e xs ≡ 0 → erase e xs ≡ xs
unfolding count erase
erase_absent e [] h = refl
erase_absent e (x ∷ xs) h = ground (arith, erase_absent e xs)

pub function_remove :
    (s : ℕ → List ℕ) (l e k : ℕ)
    → count e (s l) ≡ 1
    → ((j : ℕ) → l ≢ j → count e (s j) ≡ 0)
    → erase e (s k) ≡ (if l == k then erase e (s k) else s k)
function_remove s l e k one others = elim (Bool-cases (l == k)) [
  | inl same ↦ rw same
  | inr other ↦ rw other (erase_absent e (s k) (others k (ground arith)))
]

pub function_front : (e : ℕ) (es xs : List ℕ) → xs ≡ e ∷ es → front_or_zero xs ≡ e
unfolding front_or_zero
function_front e es xs h = rw h

abbrev pub function_lists : LinkedLists
function_lists = record {
  Store = ℕ → List ℕ;
  contents = λ s. s;
  list_init = λ l s k. if l == k then [] else s k;
  list_empty = λ l s. is_nil (s l);
  list_front = λ l s. front_or_zero (s l);
  list_size = λ l s. length (s l);
  list_push_front = λ l e s k. if l == k then e ∷ s k else s k;
  list_remove = λ e s k. erase e (s k);
  init_lem = λ s l k. refl;
  empty_lem = λ s l. refl;
  front_lem = λ s l e es h. function_front e es (s l) h;
  size_lem = λ s l. refl;
  push_front_lem = λ s l e k h. refl;
  remove_lem = λ s l e k one others. function_remove s l e k one others;
}
