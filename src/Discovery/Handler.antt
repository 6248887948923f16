-- ===== src/Discovery/Handler.antt =====
-- `sys_discovery_handler` of components/sys/discovery.c. What the network does is a list of rounds: whether the message
-- went out, and the datagram that came back, with its sender's address, if one did before the timeout; the list ends when
-- the interval is over.
use rfmarkit_esp_node.Base.{
  ℕ, ◌≡◌, ◌<◌, ◌∙◌, refl, ap, arith, Bool, true, false, Option, none, some, not, List, [], ◌∷◌,
  ◌++◌, length, take, ltb, lt→ltb, ◌==◌, if◌then◌else◌,
}
use mathlib.Core.Bool.{true≢false}
use rfmarkit_esp_node.Base.OptionDo.{◌>>=◌}
use rfmarkit_esp_node.Base.Text.{c_text}
use rfmarkit_esp_node.Esp.{EspErr, is_ok}
use rfmarkit_esp_node.Node.{Node, discovery_completed, set_sys_event}
use rfmarkit_esp_node.Discovery.{sys_decode_discovery_reply_control}
use rfmarkit_esp_node.Discovery.Reply.{reply, sys_decode_discovery_reply_control-reply}

pub record Round : Type 0 where
  pub send_ok : Bool
  pub received : Option (List ℕ × List ℕ)

-- `discovery_msg_buffer` after `sys_set_discovery_msg_reply_control`, without the terminator
unfoldable pub discovery_msg : Bool → List ℕ → List ℕ
discovery_msg reply_control device_id =
    229 ∷ 229 ∷ 229 ∷ 229 ∷ 229 ∷ 1 ∷ (if reply_control then 1 else 0) ∷ device_id

-- What is taken over from a packet: its text is undefined where no zero byte ends it.
unfoldable pub complete : List ℕ → List ℕ → Node → Option Node
unfolding c_text set_sys_event
complete addr packet n =
    if ltb (length (c_text packet)) (length packet)
    then some (
        set_sys_event discovery_completed (record n {
          data_host_ip_addr = take 63 addr;
          ntp_host_ip_addr =
              if length (c_text packet) == 0 then n.ntp_host_ip_addr else take 63 (c_text packet);
          discovery_completed = true;
        }))
    else none

-- What a decoded datagram leads to; `rest` is what the further rounds do.
unfoldable pub decoded : EspErr × Option (List ℕ) → List ℕ → Option Node → Node → Option Node
unfolding complete
decoded (err, none) addr rest n = rest
decoded (err, some packet) addr rest n =
    let accepted = complete addr packet n in if is_ok err then accepted else rest

unfoldable pub heard : Option (List ℕ × List ℕ) → Option Node → Node → Option Node
unfolding decoded sys_decode_discovery_reply_control
heard none rest n = rest
heard (some (buf, addr)) rest n = decoded (sys_decode_discovery_reply_control buf) addr rest n

-- The loop that waits for a reply.
unfoldable pub await_reply : List Round → Node → Option Node
unfolding heard
await_reply [] n = some n
await_reply (r ∷ rounds) n =
    let rest = await_reply rounds n in
    let answer = heard r.received rest n in if r.send_ok then answer else some n

-- `sys_discovery_handler`, under its mutex: the message that it sends, and the node after it.
unfoldable pub sys_discovery_handler : List Round → Node → Option (List ℕ × Node)
unfolding discovery_msg await_reply
sys_discovery_handler rounds n =
    let awaited = (do
      n' ← await_reply rounds n
      some (discovery_msg true n.device_id, record n' { task_discovery = false })) in
    if n.discovery_completed
    then some (discovery_msg false n.device_id, record n { task_discovery = false })
    else awaited

-- The rounds in which a message goes out and nothing is accepted.
unfoldable pub is_refused : Option (List ℕ × List ℕ) → Bool
unfolding sys_decode_discovery_reply_control
is_refused none = true
is_refused (some (buf, addr)) = not (is_ok (sys_decode_discovery_reply_control buf).0)

abbrev pub AllSilent : List Round → Type 0
AllSilent [] = Unit {0}
AllSilent (r ∷ rs) = (r.send_ok ≡ true) × (is_refused r.received ≡ true) × AllSilent rs

decoded-refused :
    (d : EspErr × Option (List ℕ)) (addr : List ℕ) (rest : Option Node) (n : Node)
    → not (is_ok d.0) ≡ true
    → decoded d addr rest n ≡ rest
unfolding decoded
decoded-refused (err, none) addr rest n e = refl
decoded-refused (err, some packet) addr rest n e = ground arith

heard-refused :
    (received : Option (List ℕ × List ℕ)) (rest : Option Node) (n : Node)
    → is_refused received ≡ true
    → heard received rest n ≡ rest
unfolding heard is_refused
heard-refused none rest n e = refl
heard-refused (some (buf, addr)) rest n e =
    decoded-refused (sys_decode_discovery_reply_control buf) addr rest n e

await_reply-silent :
    (silent rounds : List Round) (n : Node)
    → AllSilent silent
    → await_reply (silent ++ rounds) n ≡ await_reply rounds n
unfolding await_reply
await_reply-silent [] rounds n h = refl
await_reply-silent (r ∷ rs) rounds n h = rw h.0 (
    heard-refused r.received (await_reply (rs ++ rounds) n) n h.1
    ∙ await_reply-silent rs rounds n h.2)

-- The node that a reply leaves.
abbrev completed : List ℕ → List ℕ → Node → Node
completed addr packet n = record n {
  data_host_ip_addr = take 63 addr;
  ntp_host_ip_addr =
      if length (c_text packet) == 0 then n.ntp_host_ip_addr else take 63 (c_text packet);
  discovery_completed = true;
  sys_events = discovery_completed ∷ n.sys_events;
}

await_reply-reply :
    (rounds : List Round) (addr : List ℕ) (flag : ℕ) (packet rest : List ℕ) (n : Node)
    → length packet ≡ 64
    → length (c_text packet) < 64
    → await_reply
        ((record { send_ok = true; received = some (reply 0 flag packet rest, addr) }) ∷ rounds)
        n
      ≡ some (completed addr packet n)
unfolding await_reply heard decoded complete set_sys_event
await_reply-reply rounds addr flag packet rest n size ended =
    rw (sys_decode_discovery_reply_control-reply flag packet rest size)
      (rw (lt→ltb (length (c_text packet)) (length packet) (omega (arith, ended, size))) refl)

if_false : {A : Type 0} (t : Bool) (x y : A) → t ≡ false → (if t then x else y) ≡ y
if_false true x y e = absurd (true≢false e)
if_false false x y e = refl

undone :
    (rounds : List Round) (n n' : Node)
    → n.discovery_completed ≡ false
    → await_reply rounds n ≡ some n'
    → sys_discovery_handler rounds n
      ≡ some (discovery_msg true n.device_id, record n' { task_discovery = false })
unfolding sys_discovery_handler
undone rounds n n' fresh e =
    if_false n.discovery_completed _ _ fresh
    ∙ ap
        (λ (o : Option Node). o >>= λ (m : Node).
          some (discovery_msg true n.device_id, record m { task_discovery = false }))
        e

-- However many rounds go by in silence, the first reply of the controller, whatever its flag and whatever follows its
-- 64 bytes, completes the discovery, if a zero byte ends the text in it: the data go to its sender from then on, the
-- clock is asked of the host in it, if it has one, and the event is set. Further rounds are not looked at.
pub sys_discovery_handler-reply :
    (silent rounds : List Round) (addr : List ℕ) (flag : ℕ) (packet rest : List ℕ) (n : Node)
    → n.discovery_completed ≡ false
    → AllSilent silent
    → length packet ≡ 64
    → length (c_text packet) < 64
    → (n' : Node) × (sys_discovery_handler
          (silent
            ++ (record { send_ok = true; received = some (reply 0 flag packet rest, addr) })
              ∷ rounds)
          n
        ≡ some (discovery_msg true n.device_id, n'))
      × (n'.discovery_completed ≡ true)
      × (n'.data_host_ip_addr ≡ take 63 addr)
      × (n'.ntp_host_ip_addr
          ≡ (if length (c_text packet) == 0 then n.ntp_host_ip_addr else take 63 (c_text packet)))
      × (n'.sys_events ≡ discovery_completed ∷ n.sys_events)
      × (n'.task_discovery ≡ false)
sys_discovery_handler-reply silent rounds addr flag packet rest n fresh h size ended = (
  record (completed addr packet n) { task_discovery = false },
  undone _ n (completed addr packet n) fresh (
      await_reply-silent silent _ n h
      ∙ await_reply-reply rounds addr flag packet rest n size ended),
  refl,
  refl,
  refl,
  refl,
  refl,
)
