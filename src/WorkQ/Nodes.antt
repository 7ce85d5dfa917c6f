-- ===== src/WorkQ/Nodes.antt =====
-- What the work queue calls of the single-linked list of sys/slist.h, and what it relies on.
use ares_common.Common.{
  ℕ, ◌+◌, ◌-◌, ◌≡◌, ◌≢◌, Bool, List, [], ◌∷◌, ◌++◌, Option, none, some, if◌then◌else◌, ◌==◌, arith,
  length,
}

-- A list of nodes, each given by its address: `sys_slist_t` and the calls that are made of it.
-- `nodes` is what SYS_SLIST_FOR_EACH_CONTAINER_SAFE visits.
pub record NodeList : Type 1 where
  pub Nodes : Type 0
  pub init : Nodes
  pub is_empty : Nodes → Bool
  pub append : Nodes → ℕ → Nodes
  pub prepend : Nodes → ℕ → Nodes
  pub insert : Nodes → ℕ → ℕ → Nodes
  pub get : Nodes → Nodes × Option ℕ
  pub remove : Nodes → Option ℕ → ℕ → Nodes
  pub find_and_remove : Nodes → ℕ → Nodes
  pub nodes : Nodes → List ℕ

-- How often a node stands in a list.
abbrev pub count : ℕ → List ℕ → ℕ
count n [] = 0
count n (m ∷ l) = (if m == n then 1 else 0) + count n l

-- A node behind another one.
abbrev pub insert_after : ℕ → ℕ → List ℕ → List ℕ
insert_after prev n [] = []
insert_after prev n (m ∷ l) = if m == prev then m ∷ n ∷ l else m ∷ insert_after prev n l

abbrev pub erase : ℕ → List ℕ → List ℕ
erase n [] = []
erase n (m ∷ l) = if m == n then l else m ∷ erase n l

abbrev pub split : List ℕ → List ℕ × Option ℕ
split [] = ([], none)
split (n ∷ l) = (l, some n)

-- What the calls do to the nodes. A node that is in the list already must not be added: its link is
-- overwritten then.
pub record IsNodeList (S : NodeList) : Type 0 where
  pub nodes-init : S.nodes S.init ≡ []
  pub is_empty_lem : (l : S.Nodes) → S.is_empty l ≡ (length (S.nodes l) == 0)
  pub nodes-append :
      (l : S.Nodes) (n : ℕ) → count n (S.nodes l) ≡ 0 → S.nodes (S.append l n) ≡ S.nodes l ++ n ∷ []
  pub nodes-prepend :
      (l : S.Nodes) (n : ℕ) → count n (S.nodes l) ≡ 0 → S.nodes (S.prepend l n) ≡ n ∷ S.nodes l
  pub nodes-insert :
      (l : S.Nodes) (prev n : ℕ)
      → count n (S.nodes l) ≡ 0
      → S.nodes (S.insert l prev n) ≡ insert_after prev n (S.nodes l)
  pub get_lem : (l : S.Nodes) → (S.nodes (S.get l).0, (S.get l).1) ≡ split (S.nodes l)
  pub nodes-find_and_remove :
      (l : S.Nodes) (n : ℕ) → S.nodes (S.find_and_remove l n) ≡ erase n (S.nodes l)

pub count-append : (n : ℕ) (l k : List ℕ) → count n (l ++ k) ≡ count n l + count n k
count-append n [] k = omega arith
count-append n (m ∷ l) k = omega (arith, count-append n l k)

pub count-erase :
    (n m : ℕ) (l : List ℕ) → count n (erase m l) ≡ count n l - (if m == n then 1 else 0)
count-erase n m [] = ground arith
count-erase n m (p ∷ l) = ground (arith, count-erase n m l)

pub count-insert_after :
    (n prev m : ℕ) (l : List ℕ)
    → count prev l ≢ 0
    → count n (insert_after prev m l) ≡ count n l + (if m == n then 1 else 0)
count-insert_after n prev m [] h = ground arith
count-insert_after n prev m (p ∷ l) h = ground (arith, count-insert_after n prev m l)
