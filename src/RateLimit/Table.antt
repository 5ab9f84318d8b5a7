-- ===== src/RateLimit/Table.antt =====
-- The table as the limiters use it. DynamoDB and boto3 are not part of the program: a table is a
-- parameter, with the documented behaviour of a conditional update, a put and a delete as its laws.
use webbpulse_python.Base.{
  ℕ, ◌+◌, Bool, true, false, String, Option, none, some, List, [], ◌∷◌, ◌≡◌, ◌==◌, leb, ltb,
  if◌then◌else◌, ◌⊎◌, inl, inr, refl,
}

-- The number attributes of an item. An item that is not there has none.
abbrev pub Item : Type 0
Item = String → Option ℕ

-- The condition expressions that the limiters write.
pub data Condition : Type 0 where
  -- no condition
  always : Condition
  -- `#a >= :n`
  at_least : String → ℕ → Condition
  -- `attribute_not_exists(#a) OR #a < :n`
  absent_or_below : String → ℕ → Condition
  -- `attribute_not_exists(#a) OR #a > :n`
  absent_or_above : String → ℕ → Condition

abbrev pub holds : Condition → Item → Bool
holds always item = true
holds (at_least a n) item = elim (item a) [ none ↦ false | some v ↦ leb n v ]
holds (absent_or_below a n) item = elim (item a) [ none ↦ true | some v ↦ ltb v n ]
holds (absent_or_above a n) item = elim (item a) [ none ↦ true | some v ↦ ltb n v ]

-- One clause of an update expression.
pub data Clause : Type 0 where
  -- `ADD #a :n`, which counts from zero
  add : String → ℕ → Clause
  -- `SET #a = :n`
  set : String → ℕ → Clause
  -- `SET #a = if_not_exists(#a, :n)`
  set_absent : String → ℕ → Clause

abbrev pub or_zero : Option ℕ → ℕ
or_zero none = 0
or_zero (some n) = n

abbrev pub or_value : Option ℕ → ℕ → ℕ
or_value none n = n
or_value (some m) n = m

-- An update reads the item as it was before the call, in every clause.
abbrev pub written : List Clause → Item → Item
written [] item b = item b
written (add a n ∷ cs) item b = if a == b then some (or_zero (item a) + n) else written cs item b
written (set a n ∷ cs) item b = if a == b then some n else written cs item b
written (set_absent a n ∷ cs) item b =
    if a == b then some (or_value (item a) n) else written cs item b

-- What a call to the table answers: the item after an update, a failed condition, or any other
-- error.
pub data Reply : Type 0 where
  updated : Item → Reply
  condition_failed : Reply
  fault : Reply

pub Reply-cases :
    (r : Reply) → ((a : Item) × (r ≡ updated a)) ⊎ (r ≡ condition_failed) ⊎ (r ≡ fault)
Reply-cases (updated a) = inl (a, refl)
Reply-cases condition_failed = inr (inl refl)
Reply-cases fault = inr (inr refl)

pub record Table : Type 1 where
  pub State : Type 0
  pub item : State → String → Item
  pub update : String → List Clause → Condition → State → Reply × State
  pub put : String → Item → State → Reply × State
  pub delete : String → State → Reply × State
  -- An update that answers has met its condition, has written the item, and no other, and answers
  -- with the item as written.
  pub update_done :
      (k : String) (cs : List Clause) (c : Condition) (s s' : State) (answer : Item)
      → update k cs c s ≡ (updated answer, s')
      → (holds c (item s k) ≡ true)
        × ((j b : String) → item s' j b ≡ (if j == k then written cs (item s k) b else item s j b))
        × ((b : String) → answer b ≡ written cs (item s k) b)
  -- A failed condition was not met, and nothing was written.
  pub update_refused :
      (k : String) (cs : List Clause) (c : Condition) (s s' : State)
      → update k cs c s ≡ (condition_failed, s')
      → (holds c (item s k) ≡ false) × ((j b : String) → item s' j b ≡ item s j b)
  -- A put that answers has replaced the item, and no other.
  pub put_done :
      (k : String) (new : Item) (s s' : State) (answer : Item)
      → put k new s ≡ (updated answer, s')
      → (j b : String) → item s' j b ≡ (if j == k then new b else item s j b)
  -- A delete that answers has removed the item, and no other.
  pub delete_done :
      (k : String) (s s' : State) (answer : Item)
      → delete k s ≡ (updated answer, s')
      → (j b : String) → item s' j b ≡ (if j == k then none else item s j b)
