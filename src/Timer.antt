-- ===== src/Timer.antt =====
-- crates/sipr-net/src/timer.rs: the timer queue and the thread that drives it.
-- An Instant is a number of ticks; `TimerId` and `next_id` are u64, so arming wraps at 2 ^ 64.
-- `BinaryHeap` is a list kept in the order of `cmp`, greatest first (`peek` is the head); `HashSet`
-- is a list without duplicates.
pub mod Order
pub mod Live
pub mod Refine
pub mod History
pub mod Count
pub mod Service
mod Runs
use Prim.Native.Nat.{compare, Ordering}
use sipr.Common.{
  ℕ, ◌+◌, ◌-◌, ◌%◌, ◌^◌, Bool, true, false, not, List, [], ◌∷◌, ◌++◌, Option, none, some, length,
  ltb, ◌==◌, if◌then◌else◌,
}

pub record Entry {ℓ} (E : Type ℓ) : Type ℓ where
  pub deadline : ℕ
  pub id : ℕ
  pub event : E

-- `Ordering::then_with`.
abbrev pub then_with : Ordering → Ordering → Ordering
then_with a b = elim a [ Ordering.eq ↦ b | Ordering.lt ↦ Ordering.lt | Ordering.gt ↦ Ordering.gt ]

module _ {ℓ} {E : Type ℓ} where
  -- Both comparisons are the other way round, so that the max-heap pops the earliest entry.
  unfoldable pub cmp : Entry E → Entry E → Ordering
  cmp self other = then_with (compare other.deadline self.deadline) (compare other.id self.id)

  -- `BinaryHeap::push`.
  unfoldable pub push : Entry E → List (Entry E) → List (Entry E)
  push e [] = e ∷ []
  push e (x ∷ xs) = elim (cmp e x) [ Ordering.gt ↦ e ∷ x ∷ xs | _ ↦ x ∷ push e xs ]

-- `HashSet::contains`.
unfoldable pub contains : List ℕ → ℕ → Bool
contains [] i = false
contains (x ∷ xs) i = if x == i then true else contains xs i

-- `HashSet::insert`.
unfoldable pub insert : List ℕ → ℕ → List ℕ
insert xs i = if contains xs i then xs else i ∷ xs

-- `HashSet::remove`, without its answer, which is `contains`.
unfoldable pub remove : List ℕ → ℕ → List ℕ
remove [] i = []
remove (x ∷ xs) i = if x == i then xs else x ∷ remove xs i

pub record TimerQueue {ℓ} (E : Type ℓ) : Type ℓ where
  pub heap : List (Entry E)
  pub cancelled : List ℕ
  pub next_id : ℕ

module _ {ℓ} {E : Type ℓ} where
  unfoldable pub new : TimerQueue E
  new = record { heap = []; cancelled = []; next_id = 0 }

  unfoldable pub arm : TimerQueue E → ℕ → E → TimerQueue E × ℕ
  arm q deadline event =
      let id = (q.next_id + 1) % 2 ^ 64 in
      (
        record q {
          next_id = id;
          heap = push (record { deadline = deadline; id = id; event = event }) q.heap;
        },
        id,
      )

  -- `is_empty` of the heap.
  abbrev pub no_entries : List (Entry E) → Bool
  no_entries [] = true
  no_entries (e ∷ es) = false

  unfoldable pub cancel : TimerQueue E → ℕ → TimerQueue E
  cancel q id =
      if no_entries q.heap
      then record q { cancelled = [] }
      else record q { cancelled = insert q.cancelled id }

  -- The loop of `pop_due`, with what is left of the heap, the tombstones and what has fired.
  unfoldable pub pop_due_loop :
      ℕ → List (Entry E) → List ℕ → List E → List (Entry E) × List ℕ × List E
  pop_due_loop now [] cancelled fired = ([], cancelled, fired)
  pop_due_loop now (top ∷ rest) cancelled fired =
      let go =
        pop_due_loop now rest (remove cancelled top.id)
          (if not (contains cancelled top.id) then fired ++ (top.event ∷ []) else fired) in
      if ltb now top.deadline then (top ∷ rest, cancelled, fired) else go

  unfoldable pub pop_due : TimerQueue E → ℕ → TimerQueue E × List E
  pop_due q now =
      let (heap, cancelled, fired) = pop_due_loop now q.heap q.cancelled [] in
      (record q { heap = heap; cancelled = cancelled }, fired)

  unfoldable pub next_deadline_loop : List (Entry E) → List ℕ → List (Entry E) × List ℕ × Option ℕ
  next_deadline_loop [] cancelled = ([], cancelled, none)
  next_deadline_loop (top ∷ rest) cancelled =
      let go = next_deadline_loop rest (remove cancelled top.id) in
      if contains cancelled top.id then go else (top ∷ rest, cancelled, some top.deadline)

  unfoldable pub next_deadline : TimerQueue E → TimerQueue E × Option ℕ
  next_deadline q =
      let (heap, cancelled, found) = next_deadline_loop q.heap q.cancelled in
      (record q { heap = heap; cancelled = cancelled }, found)

  -- `saturating_sub` is the subtraction on ℕ.
  unfoldable pub len : TimerQueue E → ℕ
  len q = length q.heap - length q.cancelled

  unfoldable pub is_empty : TimerQueue E → Bool
  unfolding len
  is_empty q = len q == 0
