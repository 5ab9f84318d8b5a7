-- ===== src/Tests.antt =====
-- A runtime and a table to run the development on: text operations that leave their argument as it
-- is, timestamps that count seconds in unary, and a table that never fails.
mod Refresh
mod Limits
mod Accounts
mod Devices
mod Filters
mod Shares
use webbpulse_python.Base.{
  ℕ, zero, suc, ◌+◌, ◌*◌, ◌/◌, Bool, true, false, String, Option, none, some, List, [], ◌∷◌, ◌≡◌,
  ◌≢◌, ◌==◌, arith, refl, ap, sym, ◌∙◌, inl, inr, Bool-cases, if◌then◌else◌, if_true, if_false,
  suffixed, eq_iff,
}
use webbpulse_python.Runtime.{Runtime, Parsed, aware, microseconds, IsoLaws}
use webbpulse_python.RateLimit.Table.{
  Table, Item, Reply, updated, condition_failed, Clause, Condition, holds, written,
}

pub differ : (a b : String) → a == b ≡ false → a ≢ b
differ a b other e = cc (other, (eq_iff a b).1 e)

abbrev seconds_text : ℕ → String
seconds_text zero = ""
seconds_text (suc n) = suffixed "x" (seconds_text n)

abbrev seconds_of : String → ℕ
seconds_of String.[] = 0
seconds_of (String.◌∷◌ c s) = suc (seconds_of s)

abbrev read_back : String → Option Parsed
read_back String.[] = none
read_back (String.◌∷◌ c s) = some (aware (seconds_of s * microseconds))

abbrev pub demo : Runtime
demo = record {
  lower = λ t. t;
  upper = λ t. t;
  strip = λ t. t;
  split = λ t. t ∷ [];
  decimal = seconds_text;
  replace = λ t old new. t;
  urlencode = λ name value. value;
  isoformat = λ moment. suffixed "T" (seconds_text (moment / microseconds));
  isoformat_ms = λ moment. suffixed "T" (seconds_text (moment / microseconds));
  fromisoformat = read_back;
  sha256 = λ t. t;
}

seconds_of-text : (n : ℕ) → seconds_of (seconds_text n) ≡ n
seconds_of-text zero = refl
seconds_of-text (suc n) = ap suc (seconds_of-text n)

not_empty : (s : String) → suffixed "T" s == "" ≡ false
not_empty s = elim (Bool-cases (suffixed "T" s == "")) [
  | inl same ↦ absurd (cc ((eq_iff (suffixed "T" s) "").0 same))
  | inr other ↦ other
]

pub demo-IsoLaws : IsoLaws demo
demo-IsoLaws = record {
  reads_back = λ moment.
      ap (λ (n : ℕ). some (aware (n * microseconds))) (seconds_of-text (moment / microseconds));
  nonempty = λ moment. not_empty (seconds_text (moment / microseconds));
}

abbrev Items : Type 0
Items = String → Item

abbrev stored : String → Item → Items → Items
stored k new s j b = if j == k then new b else s j b

abbrev answered : String → List Clause → Condition → Items → Reply × Items
answered k cs c s =
    if holds c (s k)
    then (updated (written cs (s k)), stored k (written cs (s k)) s)
    else (condition_failed, s)

abbrev reply_item : Reply → Item → Item
reply_item (updated a) d = a
reply_item _ d = d

abbrev is_updated : Reply → Bool
is_updated (updated a) = true
is_updated _ = false

pub answered-done :
    (k : String) (cs : List Clause) (c : Condition) (s s' : Items) (answer : Item)
    → answered k cs c s ≡ (updated answer, s')
    → (holds c (s k) ≡ true)
      × ((j b : String) → s' j b ≡ (if j == k then written cs (s k) b else s j b))
      × ((b : String) → answer b ≡ written cs (s k) b)
answered-done k cs c s s' answer e = elim (Bool-cases (holds c (s k))) [
  | inl held ↦
      let same = sym (if_true _ _ _ held) ∙ e in
      (
        held,
        λ j b. sym (ap (λ (x : Reply × Items). x.1 j b) same),
        λ b. sym (ap (λ (x : Reply × Items). reply_item x.0 (s k) b) same),
      )
  | inr failed ↦
      absurd (cc (ap (λ (x : Reply × Items). is_updated x.0) (sym (if_false _ _ _ failed) ∙ e)))
]

pub answered-refused :
    (k : String) (cs : List Clause) (c : Condition) (s s' : Items)
    → answered k cs c s ≡ (condition_failed, s')
    → (holds c (s k) ≡ false) × ((j b : String) → s' j b ≡ s j b)
answered-refused k cs c s s' e = elim (Bool-cases (holds c (s k))) [
  | inl held ↦
      absurd (cc (ap (λ (x : Reply × Items). is_updated x.0) (sym (if_true _ _ _ held) ∙ e)))
  | inr failed ↦
      (failed, λ j b. sym (ap (λ (x : Reply × Items). x.1 j b) (sym (if_false _ _ _ failed) ∙ e)))
]

abbrev pub no_items : Items
no_items k b = none

abbrev pub demo_table : Table
demo_table = record {
  State = Items;
  item = λ s k. s k;
  update = answered;
  put = λ k new s. (updated new, stored k new s);
  delete = λ k s. (updated (s k), stored k (λ b. none) s);
  update_done = answered-done;
  update_refused = answered-refused;
  put_done = λ k new s s' answer e j b. sym (ap (λ (x : Reply × Items). x.1 j b) e);
  delete_done = λ k s s' answer e j b. sym (ap (λ (x : Reply × Items). x.1 j b) e);
}
