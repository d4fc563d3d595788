-- ===== src/Relay/Lifecycle.antt =====
-- src/infrastructure/outbox/outbox-relay.ts: start, stop, trigger, the poll timer and the flag that guards
-- processBatch, as steps between which other code may run. What a sweep does is in Relay.antt.
use event_driven_kafka.Base.{
  ℕ, zero, suc, ◌+◌, ◌-◌, ◌≤◌, Bool, true, false, not, ◌||◌, List, [], ◌∷◌, Option, none, some, ◌≡◌,
  arith, ◌=?◌, any, length, if◌then◌else◌,
}
use event_driven_kafka.Base.Table.{delete_where}

-- Who waits for a sweep: the timer's callback, which then schedules the next poll, or trigger.
pub data Caller : Type 0 where
  poll_callback trigger_call : Caller

pub record Lifecycle : Type 0 where
  pub is_running : Bool
  pub is_processing : Bool
  pub poll_timer : Option ℕ  -- the handle that setTimeout gave last
  pub timers : List ℕ  -- the timers that have not fired
  pub next_timer : ℕ
  pub connecting : ℕ  -- calls of start that wait for producer.connect
  pub sweeps : List Caller  -- calls of processBatch that wait for the database or for Kafka

abbrev pub new_relay : Lifecycle
new_relay = record {
  is_running = false;
  is_processing = false;
  poll_timer = none;
  timers = [];
  next_timer = 0;
  connecting = 0;
  sweeps = [];
}

unfoldable pub schedule_poll : Lifecycle → Lifecycle
schedule_poll l =
    if l.is_running
    then record l {
      poll_timer = some l.next_timer;
      timers = l.next_timer ∷ l.timers;
      next_timer = l.next_timer + 1;
    }
    else l

-- start, up to the wait for producer.connect, and after it.
unfoldable pub start : Lifecycle → Lifecycle
start l = if l.is_running then l else record l { connecting = l.connecting + 1 }

abbrev one_less : Lifecycle → Lifecycle
one_less l = record l { connecting = l.connecting - 1 }

unfoldable pub connected : Lifecycle → Lifecycle
unfolding schedule_poll
connected l =
    if l.connecting =? 0 then l else schedule_poll (record (one_less l) { is_running = true })

unfoldable pub connect_failed : Lifecycle → Lifecycle
connect_failed l = one_less l

abbrev cleared : Option ℕ → List ℕ → List ℕ
cleared none timers = timers
cleared (some id) timers = delete_where (λ t. t =? id) timers

-- clearTimeout does nothing to a timer that has fired.
unfoldable pub stop : Lifecycle → Lifecycle
stop l = record l { is_running = false; timers = cleared l.poll_timer l.timers }

-- processBatch up to its first wait: where another sweep runs, it returns at once.
abbrev begin_sweep : Caller → Lifecycle → Lifecycle
begin_sweep c l = record l { is_processing = true; sweeps = c ∷ l.sweeps }

unfoldable pub trigger : Lifecycle → Lifecycle
trigger l = if not l.is_running || l.is_processing then l else begin_sweep trigger_call l

-- The timer's callback.
unfoldable pub poll : Lifecycle → Lifecycle
unfolding schedule_poll
poll l = if l.is_processing then schedule_poll l else begin_sweep poll_callback l

unfoldable pub fire : ℕ → Lifecycle → Lifecycle
unfolding poll
fire id l =
    if any (λ t. t =? id) l.timers
    then poll (record l { timers = delete_where (λ t. t =? id) l.timers })
    else l

abbrev after_sweep : Caller → Lifecycle → Lifecycle
after_sweep poll_callback l = schedule_poll l
after_sweep trigger_call l = l

abbrev remove_at : ℕ → List Caller → List Caller
remove_at n [] = []
remove_at zero (c ∷ cs) = cs
remove_at (suc n) (c ∷ cs) = c ∷ remove_at n cs

abbrev caller_at : ℕ → List Caller → Option Caller
caller_at n [] = none
caller_at zero (c ∷ cs) = some c
caller_at (suc n) (c ∷ cs) = caller_at n cs

abbrev ended : Option Caller → ℕ → Lifecycle → Lifecycle
ended none n l = l
ended (some c) n l =
    after_sweep c (record l { is_processing = false; sweeps = remove_at n l.sweeps })

-- The `finally` of a sweep, and what its caller does then.
unfoldable pub end_sweep : ℕ → Lifecycle → Lifecycle
unfolding schedule_poll
end_sweep n l = ended (caller_at n l.sweeps) n l

pub data Event : Type 0 where
  start_called connect_done connect_error stop_called trigger_called : Event
  timer_fires sweep_ends : ℕ → Event

unfoldable pub step : Event → Lifecycle → Lifecycle
unfolding start connected connect_failed stop trigger fire end_sweep
step start_called = start
step connect_done = connected
step connect_error = connect_failed
step stop_called = stop
step trigger_called = trigger
step (timer_fires id) = fire id
step (sweep_ends n) = end_sweep n

unfoldable pub run : List Event → Lifecycle → Lifecycle
run [] l = l
run (e ∷ es) l = run es (step e l)

abbrev pub is_poll : Caller → Bool
is_poll poll_callback = true
is_poll trigger_call = false

abbrev pub has_timer : List ℕ → Bool
has_timer [] = false
has_timer (t ∷ ts) = true

-- The flag says whether a sweep runs, there is at most one, and while the relay runs a timer is set or
-- a poll is under way.
pub record IsSteady (l : Lifecycle) : Type 0 where
  pub single : length l.sweeps ≤ 1
  pub flagged : l.is_processing ≡ (if length l.sweeps =? 0 then false else true)
  pub polls : l.is_running ≡ true → (has_timer l.timers || any is_poll l.sweeps) ≡ true

end_sweep-IsSteady :
    (n : ℕ) (cs : List Caller) (l : Lifecycle)
    → IsSteady (record l { sweeps = cs })
    → IsSteady (end_sweep n (record l { sweeps = cs }))
unfolding end_sweep
end_sweep-IsSteady n [] l x = x
end_sweep-IsSteady zero (poll_callback ∷ []) l x = ground arith
end_sweep-IsSteady zero (trigger_call ∷ []) l x = ground arith
end_sweep-IsSteady (suc n) (c ∷ []) l x = x
end_sweep-IsSteady n (c ∷ d ∷ cs) l x = absurd (omega (arith, x.single))

step-IsSteady : (e : Event) (l : Lifecycle) → IsSteady l → IsSteady (step e l)
unfolding step
step-IsSteady start_called l x = ground arith
step-IsSteady connect_done l x = ground arith
step-IsSteady connect_error l x = ground arith
step-IsSteady stop_called l x = ground arith
step-IsSteady trigger_called l x = ground arith
step-IsSteady (timer_fires id) l x = ground arith
step-IsSteady (sweep_ends n) l x = end_sweep-IsSteady n l.sweeps l x

-- However calls of start, stop and trigger, the timers, the answers of the broker and the ends of
-- sweeps interleave, also when several calls of start overlap: a relay that begins with no sweep
-- never has two sweeps at a time, the flag isProcessing is set exactly while one runs, and as long
-- as the relay is running, a timer is set for the next poll or a poll is under way.
pub run-IsSteady : (es : List Event) (l : Lifecycle) → IsSteady l → IsSteady (run es l)
unfolding run
run-IsSteady [] l x = x
run-IsSteady (e ∷ es) l x = run-IsSteady es (step e l) (step-IsSteady e l x)
