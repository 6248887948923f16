-- ===== src/Loop/Pending.antt =====
-- components/apps/system_loop.c: the bits of the tasks `EV_TASK_WIFI_RECONNECT` and `EV_TASK_LED_STATUS`, and the
-- events that are posted and not yet handled.
use rfmarkit_esp_node.Base.{
  ℕ, ◌+◌, ◌≡◌, refl, ap, arith, Bool, true, false, not, ◌&&◌, ◌||◌, List, [], ◌∷◌, ◌++◌,
  if◌then◌else◌,
}
use rfmarkit_esp_node.Esp.{EspErr, is_ok}
use rfmarkit_esp_node.Node.{
  Node, SysEvent, LoopEvent, time_sync_event, discovery_event, led_status_event,
  wifi_reconnect_event, mode_change_event, power_mgmt_event, ota_event, post,
  sys_set_operation_mode, set_sys_event, call,
}
use rfmarkit_esp_node.Wifi.{clear_wifi_reconnect}
use rfmarkit_esp_node.Loop.{
  discovery_timer_cb, time_sync_timer_cb, power_mgmt_timer_cb, sys_ota_perform, on_connected,
  on_disconnected, on_ota, on_power_mgmt, on_mode_change, on_led, first_part, second_part,
  loop_round, led_status_handler,
}

unfoldable pub is_reconnect : LoopEvent → Bool
is_reconnect wifi_reconnect_event = true
is_reconnect _ = false

unfoldable pub is_led_status : LoopEvent → Bool
is_led_status led_status_event = true
is_led_status _ = false

-- How many of the events pass a test.
unfoldable pub count : (LoopEvent → Bool) → List LoopEvent → ℕ
count p [] = 0
count p (e ∷ es) = (if p e then 1 else 0) + count p es

count-posted :
    (p : LoopEvent → Bool) (es : List LoopEvent) (e : LoopEvent)
    → count p (es ++ (e ∷ [])) ≡ count p es + (if p e then 1 else 0)
unfolding count
count-posted p [] e = omega arith
count-posted p (x ∷ es) e = omega (arith, count-posted p es e)

-- A bit is set while exactly one event of its task is pending, and clear while none is.
pub record IsPending (n : Node) : Type 0 where
  pub reconnect : count is_reconnect n.posted ≡ (if n.task_wifi_reconnect then 1 else 0)
  pub led : count is_led_status n.posted ≡ (if n.task_led_status then 1 else 0)

either : (t : Bool) {x y : Node} → IsPending x → IsPending y → IsPending (if t then x else y)
either true a b = a
either false a b = b

-- Posting an event of neither task.
post-IsPending :
    (e : LoopEvent) (n : Node)
    → is_reconnect e ≡ false
    → is_led_status e ≡ false
    → IsPending n
    → IsPending (post e n)
unfolding post
post-IsPending e n r l h = record {
  reconnect = ground (arith, count-posted is_reconnect n.posted e, h.reconnect);
  led = ground (arith, count-posted is_led_status n.posted e, h.led);
}

on_disconnected-IsPending :
    (bits : List SysEvent) (n : Node) → IsPending n → IsPending (on_disconnected bits n)
unfolding on_disconnected post is_reconnect is_led_status
on_disconnected-IsPending bits n h = record {
  reconnect = ground (arith, count-posted is_reconnect n.posted wifi_reconnect_event, h.reconnect);
  led = ground (arith, count-posted is_led_status n.posted wifi_reconnect_event, h.led);
}

on_led-IsPending : (n : Node) → IsPending n → IsPending (on_led n)
unfolding on_led post is_reconnect is_led_status
on_led-IsPending n h = record {
  reconnect = ground (arith, count-posted is_reconnect n.posted led_status_event, h.reconnect);
  led = ground (arith, count-posted is_led_status n.posted led_status_event, h.led);
}

-- What leaves the queue and the two bits as they are.
pub record IsOutside (n m : Node) : Type 0 where
  pub posted : m.posted ≡ n.posted
  pub reconnect : m.task_wifi_reconnect ≡ n.task_wifi_reconnect
  pub led : m.task_led_status ≡ n.task_led_status

outside-IsPending : {n m : Node} → IsOutside n m → IsPending n → IsPending m
outside-IsPending o h = record {
  reconnect = rw o.posted (rw o.reconnect h.reconnect);
  led = rw o.posted (rw o.led h.led);
}

on_connected-IsPending :
    (bits : List SysEvent) (n : Node) → IsPending n → IsPending (on_connected bits n)
unfolding on_connected is_reconnect is_led_status
on_connected-IsPending bits n h =
    either _
      (post-IsPending discovery_event _ refl refl (post-IsPending time_sync_event n refl refl h)) h

sys_ota_perform-IsPending :
    (ret : EspErr) (n : Node) → IsPending n → IsPending (sys_ota_perform ret n)
unfolding sys_ota_perform call
sys_ota_perform-IsPending ret n h =
    either (is_ok ret)
      (outside-IsPending (record { posted = refl; reconnect = refl; led = refl }) h)
      (outside-IsPending (record { posted = refl; reconnect = refl; led = refl }) h)

on_ota-IsPending :
    (ret : EspErr) (bits : List SysEvent) (n : Node) → IsPending n → IsPending (on_ota ret bits n)
unfolding on_ota sys_set_operation_mode set_sys_event is_reconnect is_led_status
on_ota-IsPending ret bits n h =
    either _
      (sys_ota_perform-IsPending ret _ (
        outside-IsPending {n = post ota_event n}
          (record { posted = refl; reconnect = refl; led = refl })
          (post-IsPending ota_event n refl refl h)))
      h

second_part-IsPending :
    (bits : List SysEvent) (n : Node) → IsPending n → IsPending (second_part bits n)
unfolding second_part on_power_mgmt on_mode_change is_reconnect is_led_status
second_part-IsPending bits n h =
    on_led-IsPending _ (either _ (post-IsPending mode_change_event _ refl refl power) power)
  where
    power : IsPending (on_power_mgmt bits n)
    power = either _ (post-IsPending power_mgmt_event n refl refl h) h

first_part-IsPending :
    (ret : EspErr) (bits : List SysEvent) (n : Node)
    → IsPending n
    → IsPending (first_part ret bits n)
unfolding first_part
first_part-IsPending ret bits n h =
    on_ota-IsPending ret bits _ (on_disconnected-IsPending bits _ (on_connected-IsPending bits n h))

loop_round-IsPending : (ret : EspErr) (n : Node) → IsPending n → IsPending (loop_round ret n)
unfolding loop_round
loop_round-IsPending ret n h = either _ first (second_part-IsPending n.sys_events _ first)
  where
    first : IsPending (first_part ret n.sys_events (record n { sys_events = [] }))
    first =
        first_part-IsPending ret n.sys_events _
          (outside-IsPending (record { posted = refl; reconnect = refl; led = refl }) h)

discovery_timer-IsPending : (n : Node) → IsPending n → IsPending (discovery_timer_cb n)
unfolding discovery_timer_cb is_reconnect is_led_status
discovery_timer-IsPending n h = either _ (post-IsPending discovery_event n refl refl h) h

time_sync_timer-IsPending : (n : Node) → IsPending n → IsPending (time_sync_timer_cb n)
unfolding time_sync_timer_cb is_reconnect is_led_status
time_sync_timer-IsPending n h =
    either ((n.wifi_connected && not n.task_time_sync) || not n.ntp_synced)
      (post-IsPending time_sync_event (record n { task_time_sync = true }) refl refl
        (outside-IsPending {n = n} {m = record n { task_time_sync = true }}
          (record { posted = refl; reconnect = refl; led = refl }) h))
      h

power_mgmt_timer-IsPending : (n : Node) → IsPending n → IsPending (power_mgmt_timer_cb n)
unfolding power_mgmt_timer_cb is_reconnect is_led_status
power_mgmt_timer-IsPending n h = either _ h (post-IsPending power_mgmt_event n refl refl h)

-- The steps of the node, in any order: the timers, a round of the loop, the ends of the handlers of the event at the
-- head of the queue, and whatever else leaves the queue and the two bits as they are. An event leaves the queue when its
-- handler ends.
pub data Step : Node → Node → Type 0 where
  discovery_timer : (n : Node) → Step n (discovery_timer_cb n)
  time_sync_timer : (n : Node) → Step n (time_sync_timer_cb n)
  power_mgmt_timer : (n : Node) → Step n (power_mgmt_timer_cb n)
  round : (ret : EspErr) (n : Node) → Step n (loop_round ret n)
  reconnect_end :
      (n : Node) (q : List LoopEvent)
      → n.posted ≡ wifi_reconnect_event ∷ q
      → Step n (clear_wifi_reconnect (record n { posted = q }))
  led_status_end :
      (n : Node) (q : List LoopEvent)
      → n.posted ≡ led_status_event ∷ q
      → Step n (led_status_handler (record n { posted = q }))
  other_end :
      (n : Node) (e : LoopEvent) (q : List LoopEvent)
      → n.posted ≡ e ∷ q
      → is_reconnect e ≡ false
      → is_led_status e ≡ false
      → Step n (record n { posted = q })
  outside : (n m : Node) → IsOutside n m → Step n m

pub data Reachable : Node → Type 0 where
  start :
      (n : Node)
      → n.posted ≡ []
      → n.task_wifi_reconnect ≡ false
      → n.task_led_status ≡ false
      → Reachable n
  next : (n m : Node) → Reachable n → Step n m → Reachable m

Step-IsPending : {n m : Node} → Step n m → IsPending n → IsPending m
unfolding clear_wifi_reconnect led_status_handler count is_reconnect is_led_status
Step-IsPending (discovery_timer n) h = discovery_timer-IsPending n h
Step-IsPending (time_sync_timer n) h = time_sync_timer-IsPending n h
Step-IsPending (power_mgmt_timer n) h = power_mgmt_timer-IsPending n h
Step-IsPending (round ret n) h = loop_round-IsPending ret n h
Step-IsPending (reconnect_end n q e) h = record {
  reconnect = ground (arith, h.reconnect, ap (count is_reconnect) e);
  led = ground (arith, h.led, ap (count is_led_status) e);
}
Step-IsPending (led_status_end n q e) h = record {
  reconnect = ground (arith, h.reconnect, ap (count is_reconnect) e);
  led = ground (arith, h.led, ap (count is_led_status) e);
}
Step-IsPending (other_end n e q at r l) h = record {
  reconnect = ground (arith, h.reconnect, ap (count is_reconnect) at);
  led = ground (arith, h.led, ap (count is_led_status) at);
}
Step-IsPending (outside n m o) h = outside-IsPending o h

-- In whatever order the timers, the loop and the handlers run: the bit of a reconnection, and that of the status of
-- the LED, is set exactly while one event of that kind is pending, and no second one is ever posted.
pub Reachable-IsPending : {n : Node} → Reachable n → IsPending n
unfolding count
Reachable-IsPending (start n p r l) = record {
  reconnect = rw p (rw r refl);
  led = rw p (rw l refl);
}
Reachable-IsPending (next n m reached s) = Step-IsPending s (Reachable-IsPending reached)
