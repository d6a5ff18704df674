-- ===== src/Tasks/Delta.antt =====
-- The part of the state that a change of priorities touches.
use mini_free_rtos.Common.{ℕ, ◌≡◌, refl, ◌∙◌, arith}
use mini_free_rtos.Dll.{Links, Header}
use mini_free_rtos.Trace.{Trace}
use mini_free_rtos.Kernel.{Kernel, Tcb, Queue, EventList}
use mini_free_rtos.Tasks.Lists.{set_waiters}

-- The parts of the state that priorities touch.
pub record Delta : Type 0 where
  pub task : ℕ → Tcb
  pub ready_links : Links
  pub ready_lists : ℕ → Header
  pub event_links : Links
  pub queue : ℕ → Queue
  pub trace : Trace

abbrev pub apply : Delta → Kernel → Kernel
apply d k = record k {
  task = d.task;
  ready_links = d.ready_links;
  ready_lists = d.ready_lists;
  event_links = d.event_links;
  queue = d.queue;
  trace = d.trace;
}

abbrev pub delta : Kernel → Delta
delta k = record {
  task = k.task;
  ready_links = k.ready_links;
  ready_lists = k.ready_lists;
  event_links = k.event_links;
  queue = k.queue;
  trace = k.trace;
}

-- A queue but for the headers of its two event lists.
pub record SameQueue (q q' : Queue) : Type 0 where
  pub kind : q'.kind ≡ q.kind
  pub storage : q'.storage ≡ q.storage
  pub storage_size : q'.storage_size ≡ q.storage_size
  pub length : q'.length ≡ q.length
  pub item_size : q'.item_size ≡ q.item_size
  pub head : q'.head ≡ q.head
  pub tail : q'.tail ≡ q.tail
  pub count : q'.count ≡ q.count
  pub max_count : q'.max_count ≡ q.max_count
  pub owner : q'.owner ≡ q.owner

pub SameQueue-refl : (q : Queue) → SameQueue q q
SameQueue-refl q = record {
  kind = refl;
  storage = refl;
  storage_size = refl;
  length = refl;
  item_size = refl;
  head = refl;
  tail = refl;
  count = refl;
  max_count = refl;
  owner = refl;
}

pub SameQueue-trans : {q r s : Queue} → SameQueue q r → SameQueue r s → SameQueue q s
SameQueue-trans x y = record {
  kind = y.kind ∙ x.kind;
  storage = y.storage ∙ x.storage;
  storage_size = y.storage_size ∙ x.storage_size;
  length = y.length ∙ x.length;
  item_size = y.item_size ∙ x.item_size;
  head = y.head ∙ x.head;
  tail = y.tail ∙ x.tail;
  count = y.count ∙ x.count;
  max_count = y.max_count ∙ x.max_count;
  owner = y.owner ∙ x.owner;
}

-- Writing a header of an event list leaves the rest of every queue.
pub set_waiters-SameQueue :
    (e : EventList) (h : Header) (queue : ℕ → Queue) (q : ℕ)
    → SameQueue (queue q) (set_waiters e h queue q)
set_waiters-SameQueue (EventList.send_waiters r) h queue q = record {
  kind = ground arith;
  storage = ground arith;
  storage_size = ground arith;
  length = ground arith;
  item_size = ground arith;
  head = ground arith;
  tail = ground arith;
  count = ground arith;
  max_count = ground arith;
  owner = ground arith;
}
set_waiters-SameQueue (EventList.receive_waiters r) h queue q = record {
  kind = ground arith;
  storage = ground arith;
  storage_size = ground arith;
  length = ground arith;
  item_size = ground arith;
  head = ground arith;
  tail = ground arith;
  count = ground arith;
  max_count = ground arith;
  owner = ground arith;
}
