-- ===== src/LinkedList.antt =====
-- The doubly linked lists of lib/list.h, which is copied from librbraun: a parameter of the
-- components that link nodes. A node is named by its address or its number.
use x.Base.{
  ℕ, ◌≡◌, refl, Bool, true, false, Option, none, some, List, [], ◌∷◌, ◌++◌, count, erase, ◌==◌,
  if◌then◌else◌,
}

-- The test of `list_empty`, on the nodes that a traversal visits.
abbrev pub is_nil : List ℕ → Bool
is_nil [] = true
is_nil (x ∷ xs) = false

-- The node that `list_first` returns; `none` is the head itself, the end of the traversal.
abbrev pub first? : List ℕ → Option ℕ
first? [] = none
first? (x ∷ xs) = some x

-- A node in front of another one; `none` is the head, whose predecessor is the last node.
abbrev pub insert_in_front : Option ℕ → ℕ → List ℕ → List ℕ
insert_in_front none node xs = xs ++ (node ∷ [])
insert_in_front (some next) node [] = node ∷ []
insert_in_front (some next) node (y ∷ ys) =
    if y == next then node ∷ y ∷ ys else y ∷ insert_in_front (some next) node ys

-- `Head` is a list as its head stands for it, and `nodes` what `list_for_each` visits. A node may be
-- inserted where it is not linked, and removed where it is linked once.
pub record LinkedList : Type 1 where
  pub Head : Type 0
  pub list_init : Head
  pub list_insert_head : Head → ℕ → Head
  pub list_insert_tail : Head → ℕ → Head
  pub list_insert_before : Head → Option ℕ → ℕ → Head
  pub list_remove : Head → ℕ → Head
  pub list_empty : Head → Bool
  pub list_first : Head → Option ℕ
  pub nodes : Head → List ℕ
  pub nodes-init : nodes list_init ≡ []
  pub nodes-insert_head :
      (h : Head) (n : ℕ) → count n (nodes h) ≡ 0 → nodes (list_insert_head h n) ≡ n ∷ nodes h
  pub nodes-insert_tail :
      (h : Head) (n : ℕ)
      → count n (nodes h) ≡ 0
      → nodes (list_insert_tail h n) ≡ nodes h ++ (n ∷ [])
  pub nodes-insert_before :
      (h : Head) (next : Option ℕ) (n : ℕ)
      → count n (nodes h) ≡ 0
      → nodes (list_insert_before h next n) ≡ insert_in_front next n (nodes h)
  pub nodes-remove :
      (h : Head) (n : ℕ) → count n (nodes h) ≡ 1 → nodes (list_remove h n) ≡ erase n (nodes h)
  pub empty-nodes : (h : Head) → list_empty h ≡ is_nil (nodes h)
  pub first-nodes : (h : Head) → list_first h ≡ first? (nodes h)

-- Sequences of nodes meet the interface.
instance abbrev pub sequences : LinkedList
sequences = record {
  Head = List ℕ;
  list_init = [];
  list_insert_head = λ h n. n ∷ h;
  list_insert_tail = λ h n. h ++ (n ∷ []);
  list_insert_before = λ h next n. insert_in_front next n h;
  list_remove = λ h n. erase n h;
  list_empty = is_nil;
  list_first = first?;
  nodes = λ h. h;
  nodes-init = refl;
  nodes-insert_head = λ h n _. refl;
  nodes-insert_tail = λ h n _. refl;
  nodes-insert_before = λ h next n _. refl;
  nodes-remove = λ h n _. refl;
  empty-nodes = λ h. refl;
  first-nodes = λ h. refl;
}
