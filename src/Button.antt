-- ===== src/Button.antt =====
-- components/sys/button.c: the edges of the button, told apart as clicks and long presses, and what the daemon
-- does about them. The tick count and the queue are outside the repository: the count is an argument, and the queue a
-- list of at most 10 events.
pub mod Presses
mod Tests
use rfmarkit_esp_node.Base.{
  ℕ, ◌+◌, ◌-◌, ◌%◌, ◌^◌, Bool, true, false, not, Option, none, some, List, [], ◌∷◌, ◌++◌, length,
  ltb, if◌then◌else◌,
}

-- `button_state_t`
pub data ButtonState : Type 0 where
  idle pressed released : ButtonState

-- `button_event_t`
pub data ButtonEvent : Type 0 where
  no_event click long_press : ButtonEvent

-- The static variables; `has_queue` says whether `button_event_queue` is not NULL, and `queue` has the events that
-- wait in it, the oldest first.
pub record Button : Type 0 where
  pub button_state : ButtonState
  pub press_timestamp : ℕ
  pub release_timestamp : ℕ
  pub has_queue : Bool
  pub queue : List ButtonEvent

-- The first switch: the edge at a tick count.
unfoldable pub edge : ℕ → ButtonState → Button → Button
edge now idle b = record b { button_state = pressed; press_timestamp = now }
edge now pressed b = record b { button_state = released; release_timestamp = now }
edge now released b = record b { button_state = released; release_timestamp = now }

-- Which event the two timestamps make; their difference wraps around in 32 bits.
unfoldable pub event_of : ℕ → Button → ButtonEvent
event_of long_press_duration b =
    if ltb long_press_duration ((b.release_timestamp + 2 ^ 32 - b.press_timestamp) % 2 ^ 32)
    then long_press
    else click

-- `xQueueSendFromISR` on a queue of 10 entries: where it is full, the event is dropped.
unfoldable pub enqueue : List ButtonEvent → ButtonEvent → List ButtonEvent
enqueue queue ev = if ltb (length queue) 10 then queue ++ (ev ∷ []) else queue

-- After the edge: a release is sent, and the button is idle again.
unfoldable pub settle : ℕ → ButtonState → Button → Button
unfolding event_of enqueue
settle long_press_duration released b = record b {
  button_state = idle;
  queue = if b.has_queue then enqueue b.queue (event_of long_press_duration b) else b.queue;
}
settle long_press_duration idle b = b
settle long_press_duration pressed b = b

-- `button_fn_isr_handler`
unfoldable pub button_fn_isr_handler : ℕ → ℕ → Button → Button
unfolding edge settle
button_fn_isr_handler long_press_duration now b =
    let b' = edge now b.button_state b in settle long_press_duration b'.button_state b'

-- What the daemon does about an event.
pub data Action : Type 0 where
  no_action : Action
  set_operation_mode : Bool → Action
  enter_deep_sleep : Action

-- One round of `button_daemon`: the event received, the one received within the time of a double click if any,
-- and `g_mcu.state.active`.
unfoldable pub button_daemon_round : ButtonEvent → Option ButtonEvent → Bool → Action
button_daemon_round no_event second active = no_action
button_daemon_round click (some ev) active = no_action
button_daemon_round click none active = set_operation_mode (not active)
button_daemon_round long_press second active = enter_deep_sleep
