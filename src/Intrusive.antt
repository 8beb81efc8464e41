-- ===== src/Intrusive.antt =====
-- src/container/intrusive/linked_list.rs: a circular list through nodes that its users own. The
-- nodes lie in an explicit heap. `undefined` stands for undefined behaviour: an access to a node that is not alive, or
-- a violated safety condition.
pub mod Links
pub mod Ring
pub mod Append
pub mod Unlink
pub mod Pop
pub mod Move
mod Tests
use xx_core.Base.{ℕ, Bool, true, false, not, Option, none, some, ◌==◌, if◌then◌else◌}

abbrev pub Ptr : Type 0
Ptr = ℕ

abbrev pub null : Ptr
null = 0

-- The fields `prev` and `next` of every node, and the nodes that are alive.
pub record Heap : Type 0 where
  pub live : Ptr → Bool
  pub prev : Ptr → Ptr
  pub next : Ptr → Ptr

pub data Run (A : Type 0) : Type 0 where
  done : A → Heap → Run A
  undefined : Run A
  panicked : Run A

abbrev pub Cmd : Type 0 → Type 0
Cmd A = Heap → Run A

abbrev pub pure : {A : Type 0} → A → Cmd A
pure a h = done a h

module _ {A B : Type 0} where
  abbrev pub and_then : Run A → (A → Cmd B) → Run B
  and_then (done a h) k = k a h
  and_then undefined k = undefined
  and_then panicked k = panicked

  infixl 5 ◌>>=◌ ◌>>◌
  abbrev pub ◌>>=◌ : Cmd A → (A → Cmd B) → Cmd B
  ◌>>=◌ m k h = and_then (m h) k

  abbrev pub ◌>>◌ : Cmd A → Cmd B → Cmd B
  m >> n = m >>= λ _. n

abbrev pub update : (Ptr → Ptr) → Ptr → Ptr → Ptr → Ptr
update f p v a = if a == p then v else f a

get_prev : Ptr → Cmd Ptr
get_prev p h = if h.live p then done (h.prev p) h else undefined

get_next : Ptr → Cmd Ptr
get_next p h = if h.live p then done (h.next p) h else undefined

put_prev : Ptr → Ptr → Cmd (Unit {0})
put_prev p v h = if h.live p then done tt (record h { prev = update h.prev p v }) else undefined

put_next : Ptr → Ptr → Cmd (Unit {0})
put_next p v h = if h.live p then done tt (record h { next = update h.next p v }) else undefined

-- `assume` and `assert_unsafe_precondition!`
assume : Bool → Cmd (Unit {0})
assume true h = done tt h
assume false h = undefined

assert : Bool → Cmd (Unit {0})
assert true h = done tt h
assert false h = panicked

-- `a == b` on Booleans.
abbrev same : Bool → Bool → Bool
same true b = b
same false b = not b

-- `Node::set_ptrs`, one neighbour at a time.
link_prev : Ptr → Option Ptr → Cmd (Unit {0})
link_prev this none = pure tt
link_prev this (some p) = do put_prev this p; put_next p this

link_next : Ptr → Option Ptr → Cmd (Unit {0})
link_next this none = pure tt
link_next this (some n) = do put_next this n; put_prev n this

pub set_ptrs : Ptr → Option Ptr → Option Ptr → Cmd (Unit {0})
unfolding link_prev link_next put_prev put_next
set_ptrs this prev next = do link_prev this prev; link_next this next

-- The literal reading of `set_ptrs(this, Some(this), None)`.
pub set_circular : Ptr → Cmd (Unit {0})
unfolding set_ptrs
set_circular this = set_ptrs this (some this) none

pub linked : Ptr → Cmd Bool
unfolding get_prev get_next assume
linked this = do
  p ← get_prev this
  n ← get_next this
  assume (same (p == null) (n == null))
  pure (not (p == null))

pub unlink_unchecked : Ptr → Cmd (Unit {0})
unfolding linked put_prev put_next
unlink_unchecked this = do
  is_linked ← linked this
  assume is_linked
  p ← get_prev this
  put_prev this null
  n ← get_next this
  put_next this null
  put_next p n
  put_prev n p

pub unlink : Ptr → Cmd (Unit {0})
unfolding assert
unlink this = do is_linked ← linked this; assert is_linked; unlink_unchecked this

-- A list is the address of its base node.
pub head : Ptr → Cmd Ptr
unfolding linked
head base = do p ← get_next base; is_linked ← linked p; assume is_linked; pure p

-- As it stands in the source, this reads `next`.
pub tail : Ptr → Cmd Ptr
unfolding linked
tail base = do p ← get_next base; is_linked ← linked p; assume is_linked; pure p

pub is_empty : Ptr → Cmd Bool
unfolding head
is_empty base = do p ← head base; pure (base == p)

pub remove : Ptr → Cmd (Unit {0})
remove node = unlink_unchecked node

pop_edge : Ptr → Ptr → Cmd (Option Ptr)
unfolding is_empty remove
pop_edge base node = do
  empty ← is_empty base
  if empty then pure none else do remove node; pure (some node)

pub pop_front : Ptr → Cmd (Option Ptr)
unfolding pop_edge
pop_front base = do node ← head base; pop_edge base node

pub pop_back : Ptr → Cmd (Option Ptr)
unfolding pop_edge tail
pop_back base = do node ← tail base; pop_edge base node

pub append : Ptr → Ptr → Cmd (Unit {0})
unfolding get_prev set_ptrs
append base node = do last ← get_prev base; set_ptrs node (some last) (some base)

pub move_elements : Ptr → Ptr → Cmd (Unit {0})
unfolding is_empty get_prev get_next set_ptrs set_circular assume
move_elements base other = do
  other_empty ← is_empty other
  assume other_empty
  empty ← is_empty base
  if empty then pure tt else do
    p ← get_prev base
    n ← get_next base
    set_ptrs other (some p) (some n)
    set_circular base

-- `LinkedList::pin`
pub pin : Ptr → Cmd (Unit {0})
unfolding set_circular
pin base = set_circular base
