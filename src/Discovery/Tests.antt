-- ===== src/Discovery/Tests.antt =====
-- The theorem on components/sys/discovery.c at a concrete reply, after a round without one.
use Prim.{tt}
use rfmarkit_esp_node.Base.{ℕ, ◌≡◌, refl, arith, true, false, none, some, List, [], ◌∷◌, replicate}
use rfmarkit_esp_node.Base.Text.{c_text}
use rfmarkit_esp_node.Node.{Node, discovery_completed, wifi_disconnected}
use rfmarkit_esp_node.Node.Example.{a_node}
use rfmarkit_esp_node.Discovery.Reply.{reply}
use rfmarkit_esp_node.Discovery.Handler.{
  Round, sys_discovery_handler, discovery_msg, is_refused, sys_discovery_handler-reply,
}

abbrev packet : List ℕ
packet = b'9' ∷ replicate 63 0

abbrev silence : Round
silence = record { send_ok = true; received = none }

abbrev answer : Round
answer = record { send_ok = true; received = some (reply 0 1 packet (0 ∷ []), b'8' ∷ []) }

sys_discovery_handler-reply_example :
    (n' : Node) × (sys_discovery_handler (silence ∷ answer ∷ []) a_node
      ≡ some (discovery_msg true (b'e' ∷ b'2' ∷ []), n'))
    × (n'.discovery_completed ≡ true)
    × (n'.data_host_ip_addr ≡ b'8' ∷ [])
    × (n'.ntp_host_ip_addr ≡ b'9' ∷ [])
    × (n'.sys_events ≡ discovery_completed ∷ wifi_disconnected ∷ [])
    × (n'.task_discovery ≡ false)
unfolding is_refused c_text
sys_discovery_handler-reply_example =
    sys_discovery_handler-reply (silence ∷ []) [] (b'8' ∷ []) 1 packet (0 ∷ []) a_node refl
      (refl, refl, tt) refl (omega arith)
