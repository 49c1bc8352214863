-- ===== src/MemoryPool/Vector.antt =====
-- `Vector` of src/memory_pool/Vector.h. The block that `first_` points to is a list of cells, `end_` is
-- its length and `last_` an index; a cell that holds no object is `none`. A call returns `none` where
-- the code has undefined behaviour: it leaves the block, reads or destroys a cell without an object,
-- or constructs one over a live object, or an `int` index overflows. `first_ == nullptr` is the block
-- without cells. The allocator's `allocate(n)` gives `n` raw cells. Its `deallocate` is always called
-- with the count 1; `lenient` says whether it takes that for a block of any size, as `MemoryPool` does,
-- or only for a block of one cell, as `std::allocator` does.
pub mod Contents
pub mod Sequence
pub mod Calls
mod Tests
use cpp_wtfsc.Base.{
  ℕ, zero, suc, ◌+◌, ◌-◌, ◌*◌, Bool, true, false, List, [], ◌∷◌, Option, none, some, ◌>>=◌, ◌==◌,
  leb, ltb, ◌^◌, ◌||◌, length, get_elem?, set, replicate, if◌then◌else◌,
}

pub record Vector (A : Type 0) : Type 0 where
  pub cells : List (Option A)
  pub last : ℕ

-- `++i` of an `int`.
abbrev pub next_index : ℕ → Option ℕ
next_index i = if ltb (i + 1) (2 ^ 31) then some (i + 1) else none

-- What the parameter of `push_back` refers to: an object elsewhere, or an element of the vector itself.
pub data Argument (A : Type 0) : Type 0 where
  outside : A → Argument A
  element : ℕ → Argument A

module _ {A : Type 0} where
  -- An access to the cell at an index of a block.
  unfoldable pub read : List (Option A) → ℕ → Option A
  read cells i = get_elem? cells i >>= λ cell. cell

  unfoldable pub construct_cell : List (Option A) → ℕ → A → Option (List (Option A))
  construct_cell cells i v = elim (get_elem? cells i) [
    | none ↦ none
    | some cell ↦ elim cell [ none ↦ some (set cells i (some v)) | some _ ↦ none ]
  ]

  unfoldable pub destroy_cell : List (Option A) → ℕ → Option (List (Option A))
  destroy_cell cells i = read cells i >>= λ v. some (set cells i none)

  -- `deallocate(first_, 1)`.
  abbrev pub deallocate : Bool → List (Option A) → Option (List (Option A))
  deallocate lenient cells = if lenient || (length cells == 1) then some cells else none

  -- The loop that constructs copies of `from`'s cells in `to`, from index `i` on.
  unfoldable pub copy_cells : ℕ → ℕ → List (Option A) → List (Option A) → Option (List (Option A))
  unfolding construct_cell
  copy_cells zero i from to = some to
  copy_cells (suc rounds) i from to = do
    v ← read from i
    to' ← construct_cell to i v
    i' ← next_index i
    copy_cells rounds i' from to'

  -- The loop that destroys the objects from `p` on.
  unfoldable pub destroy_cells : ℕ → ℕ → List (Option A) → Option (List (Option A))
  destroy_cells zero p cells = some cells
  destroy_cells (suc rounds) p cells = do
    cells' ← destroy_cell cells p
    destroy_cells rounds (p + 1) cells'

  unfoldable pub init : Vector A
  init = record { cells = replicate 1 none; last = 0 }

  -- The loop of the constructor with a size; `value` is `T()`.
  unfoldable pub construct_from : ℕ → ℕ → A → List (Option A) → Option (List (Option A))
  construct_from zero i value cells = some cells
  construct_from (suc rounds) i value cells = do
    cells' ← construct_cell cells i value
    i' ← next_index i
    construct_from rounds i' value cells'

  unfoldable pub init_size : A → ℕ → Option (Vector A)
  init_size value size = do
    cells ← construct_from size 0 value (replicate (size * 2) none)
    some (record { cells = cells; last = size })

  -- The constructor from an initializer list assigns to cells, which needs an object in each.
  unfoldable pub assign_cells : List A → ℕ → List (Option A) → Option (List (Option A))
  assign_cells [] i cells = some cells
  assign_cells (v ∷ init) i cells = do
    _ ← read cells i
    i' ← next_index i
    assign_cells init i' (set cells i (some v))

  unfoldable pub init_list : List A → Option (Vector A)
  unfolding assign_cells
  init_list init = do
    cells ← assign_cells init 0 (replicate (length init * 2) none)
    some (record { cells = cells; last = length init })

  -- The destructor, and the block as it is given back.
  unfoldable pub destroy : Bool → Vector A → Option (List (Option A))
  destroy lenient v = do cells ← destroy_cells v.last 0 v.cells; deallocate lenient cells

  unfoldable pub full_ : Vector A → Bool
  full_ v = v.last == length v.cells

  unfoldable pub is_empty : Vector A → Bool
  is_empty v = 0 == v.last

  unfoldable pub size : Vector A → ℕ
  size v = v.last

  unfoldable pub capacity : Vector A → ℕ
  capacity v = length v.cells

  -- `expand` copies as many cells as the block has.
  unfoldable pub expand : Bool → Vector A → Option (Vector A)
  expand lenient v = do
    ptmp ← copy_cells (length v.cells) 0 v.cells (replicate (length v.cells * 2) none)
    cells ← destroy_cells v.last 0 v.cells
    _ ← deallocate lenient cells
    some (record { cells = ptmp; last = length v.cells })

  -- What the reference that `push_back` got refers to then: an element of the vector itself is gone
  -- where the block was replaced.
  abbrev pub referent : Argument A → Bool → List (Option A) → Option A
  referent (outside x) replaced cells = some x
  referent (element i) replaced cells = if replaced then none else read cells i

  unfoldable pub push_back : Bool → Vector A → Argument A → Option (Vector A)
  unfolding full_ expand read
  push_back lenient v arg = do
    w ← (if full_ v then expand lenient v else some v)
    val ← referent arg (full_ v) w.cells
    cells ← construct_cell w.cells w.last val
    some (record { cells = cells; last = w.last + 1 })

  unfoldable pub pop_back : Vector A → Option (Vector A)
  unfolding is_empty
  pop_back v =
      let popped = destroy_cell v.cells (v.last - 1) >>= λ cells.
      some (record { cells = cells; last = v.last - 1 }) in
      if is_empty v then some v else popped

  unfoldable pub clear : Vector A → Option (Vector A)
  clear v = destroy_cells v.last 0 v.cells >>= λ cells. some (record { cells = cells; last = 0 })

  unfoldable pub reserve : Bool → Vector A → ℕ → Option (Vector A)
  unfolding capacity
  reserve lenient v n =
      let moved = (do
        ptmp ← copy_cells v.last 0 v.cells (replicate n none)
        cells ← destroy_cells v.last 0 v.cells
        _ ← deallocate lenient cells
        some (record { cells = ptmp; last = v.last })) in
      if leb n (capacity v) then some v else moved

  unfoldable pub back : Vector A → Option A
  back v = if is_empty v then none else read v.cells (v.last - 1)

  unfoldable pub elem : Vector A → ℕ → Option A
  elem v pos = read v.cells pos

  -- The copy constructor.
  unfoldable pub copy : Vector A → Option (Vector A)
  unfolding copy_cells
  copy other = do
    cells ← copy_cells other.last 0 other.cells (replicate (length other.cells) none)
    some (record { cells = cells; last = other.last })

  -- Copy assignment to another object.
  unfoldable pub assign : Bool → Vector A → Vector A → Option (Vector A)
  unfolding copy
  assign lenient this other = do
    cells ← destroy_cells this.last 0 this.cells
    _ ← deallocate lenient cells
    copy other

  -- The moved-to and the moved-from object.
  unfoldable pub move_ : Vector A → Vector A × Vector A
  move_ other = (other, record { cells = []; last = 0 })

  unfoldable pub move_assign : Vector A → Vector A → Option (Vector A × Vector A)
  unfolding move_
  move_assign this other = destroy_cells this.last 0 this.cells >>= λ _. some (move_ other)
