-- ===== src/Waiter.antt =====
-- src/async_std/sync/wait_list.rs: `AtomicWaiter`, whose one word is changed by atomic operations
-- of several threads. A thread is at a point between two atomic operations of its call.
pub mod Count
pub mod Once
mod Tests
use xx_core.Base.{ℕ, Bool, true, false, List, [], ◌∷◌, ◌++◌, ◌==◌, if◌then◌else◌}

-- `waiter`: null, `closed()`, or a request that waits.
pub data Word : Type 0 where
  null closed : Word
  waiting : ℕ → Word

-- What a request is completed with: `Ok(value)`, or a `WaitError`.
pub data WaitResult : Type 0 where
  woken : ℕ → WaitResult
  cancelled wait_closed : WaitResult

-- `set_waiter`: what was there, and what is there then.
abbrev pub set_waiter : Word → Word → Word × Word
set_waiter request null = (null, request)
set_waiter request closed = (closed, closed)
set_waiter request (waiting p) = (waiting p, request)

-- `cancel_wait`: whether the request was there, and what is there then.
abbrev pub cancel_wait : ℕ → Word → Bool × Word
cancel_wait request null = (false, null)
cancel_wait request closed = (false, closed)
cancel_wait request (waiting p) = if request == p then (true, null) else (false, waiting p)

-- The points of `suspend`, of its `cancel`, and of `wake_internal`.
pub data Thread : Type 0 where
  suspend_set : ℕ → Thread
  suspend_check : ℕ → Word → Thread
  suspend_settle : ℕ → Word → Bool → Thread
  cancel_try : ℕ → Thread
  cancel_complete : ℕ → Thread
  wake_set close_set : ℕ → Thread
  wake_complete : ℕ → ℕ → Thread
  finished : Thread

abbrev pub Completion : Type 0
Completion = ℕ × WaitResult

-- The end of `suspend`: the request that was there is cancelled, and the own one is done when it
-- has an error. It is pending else.
abbrev pub settle : ℕ → Word → Bool → List Completion
settle request null failed = if failed then (request, cancelled) ∷ [] else []
settle request closed failed = (request, wait_closed) ∷ []
settle request (waiting p) failed =
    (p, cancelled) ∷ (if failed then (request, cancelled) ∷ [] else [])

-- `wake_internal` behind `set_waiter`.
abbrev pub woke : Word → ℕ → Thread
woke null value = finished
woke closed value = finished
woke (waiting p) value = wake_complete p value

-- One atomic operation of a thread: the thread, the word, and the requests completed. `block` is
-- what `should_block` says.
pub advance : Bool → Thread → Word → Thread × (Word × List Completion)
advance block (suspend_set r) w =
    let (prev, new) = set_waiter (waiting r) w in (suspend_check r prev, (new, []))
advance true (suspend_check r prev) w = (suspend_settle r prev false, (w, []))
advance false (suspend_check r prev) w =
    let (failed, new) = cancel_wait r w in (suspend_settle r prev failed, (new, []))
advance block (suspend_settle r prev failed) w = (finished, (w, settle r prev failed))
advance block (cancel_try r) w =
    let (took, new) = cancel_wait r w in (if took then cancel_complete r else finished, (new, []))
advance block (cancel_complete r) w = (finished, (w, (r, cancelled) ∷ []))
advance block (wake_set value) w =
    let (prev, new) = set_waiter null w in (woke prev value, (new, []))
advance block (close_set value) w =
    let (prev, new) = set_waiter closed w in (woke prev value, (new, []))
advance block (wake_complete p value) w = (finished, (w, (p, woken value) ∷ []))
advance block finished w = (finished, (w, []))

pub record Waiters : Type 0 where
  pub word : Word
  pub threads : List Thread
  pub completions : List Completion

-- Any thread goes on by one operation.
pub data Step : Waiters → Waiters → Type 0 where
  goes :
      (block : Bool) (front back : List Thread) (t : Thread) (w : Word) (done : List Completion)
      → Step
          (record { word = w; threads = front ++ (t ∷ back); completions = done })
          (record {
            word = (advance block t w).1.0;
            threads = front ++ ((advance block t w).0 ∷ back);
            completions = (advance block t w).1.1 ++ done;
          })

pub data Steps : Waiters → Waiters → Type 0 where
  none_more : (s : Waiters) → Steps s s
  one_more : (s t u : Waiters) → Steps s t → Step t u → Steps s u
