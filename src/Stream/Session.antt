-- ===== src/Stream/Session.antt =====
-- What the two tasks of components/apps have done with the streamed readings, and each round of them on it.
use rfmarkit_esp_node.Base.{
  ℕ, zero, suc, ◌+◌, ◌-◌, ◌≤◌, ◌<◌, ◌≡◌, ◌∙◌, refl, sym, ap, arith, Bool, true, false, ◌&&◌, ◌||◌,
  List, [], ◌∷◌, ◌++◌, length, take, get_or, length-append,
}
use rfmarkit_esp_node.RingBuf.Inv.{pushed}
use rfmarkit_esp_node.RingBuf.History.{Holds, IsKept, push-Holds}
use rfmarkit_esp_node.Udp.{Stack}
use rfmarkit_esp_node.Node.{Node, set_sys_event, sys_set_operation_mode}
use rfmarkit_esp_node.Stream.{Monitor, Client}
use rfmarkit_esp_node.Stream.Rounds.{sent_one, not_sent, counted}

-- The end of a list one item further.
take-suc :
    (items : List (List ℕ)) (k : ℕ)
    → k < length items
    → take (suc k) items ≡ take k items ++ (get_or items k [] ∷ [])
take-suc [] k h = absurd (omega arith)
take-suc (x ∷ xs) zero h = refl
take-suc (x ∷ xs) (suc k) h = ap (λ (l : List (List ℕ)). x ∷ l) (take-suc xs k (omega arith))

take-before :
    (items : List (List ℕ)) (x : List ℕ) (k : ℕ)
    → k ≤ length items
    → take k (items ++ (x ∷ [])) ≡ take k items
take-before items x zero h = refl
take-before [] x (suc k) h = absurd (omega arith)
take-before (y ∷ ys) x (suc k) h =
    ap (λ (l : List (List ℕ)). y ∷ l) (take-before ys x k (omega arith))

-- How many readings the client has sent, or would have but for the one that was lost when a send failed.
unfoldable pub sent_count : Bool → ℕ → ℕ
sent_count false curr_index = curr_index - 1
sent_count true curr_index = curr_index - 2

sent_count-small : (lost : Bool) (i n : ℕ) → i ≤ n + 1 → sent_count lost i ≤ n
unfolding sent_count
sent_count-small false i n h = omega (arith, h)
sent_count-small true i n h = omega (arith, h)

module _ (tag : ℕ → List ℕ → List ℕ) where
  -- The datagrams of the readings, numbered from k on.
  unfoldable pub tagged : ℕ → List (List ℕ) → List (List ℕ)
  tagged k [] = []
  tagged k (d ∷ ds) = tag k d ∷ tagged (k + 1) ds

  tagged-append :
      (k : ℕ) (ds : List (List ℕ)) (d : List ℕ)
      → tagged k (ds ++ (d ∷ [])) ≡ tagged k ds ++ (tag (k + length ds) d ∷ [])
  unfolding tagged
  tagged-append k [] d = ap (λ (i : ℕ). tag i d ∷ []) (omega arith)
  tagged-append k (x ∷ ds) d =
      ap (λ (l : List (List ℕ)). tag k x ∷ l)
        (tagged-append (k + 1) ds d
          ∙ ap (λ (i : ℕ). tagged (k + 1) ds ++ (tag i d ∷ [])) (omega arith))

  pub tagged-length : (k : ℕ) (ds : List (List ℕ)) → length (tagged k ds) ≡ length ds
  unfolding tagged
  tagged-length k [] = refl
  tagged-length k (d ∷ ds) = ap suc (tagged-length (k + 1) ds)

  -- The streaming of the readings `ds`, as the two tasks see it.
  pub record Session (lost : Bool) (ds : List (List ℕ)) (m : Monitor) (c : Client) (n : Node)
      : Type 0 where
    pub holds : Holds n.imu_ring_buf (tagged 0 ds)
    pub seq : m.seq ≡ length ds
    pub started : 1 ≤ c.curr_index
    pub behind : c.curr_index ≤ n.imu_ring_buf.head
    pub sent : c.sent ≡ take (sent_count lost c.curr_index) (tagged 0 ds)
    pub stopped : (lost && (c.sending || n.active)) ≡ false

  one_more :
      (ds : List (List ℕ)) (d : List ℕ) (k : ℕ)
      → k ≡ length ds
      → tagged 0 (ds ++ (d ∷ [])) ≡ tagged 0 ds ++ (tag k d ∷ [])
  one_more ds d k e =
      tagged-append 0 ds d ∙ ap (λ (i : ℕ). tagged 0 ds ++ (tag i d ∷ [])) (omega (arith, e))

  pub reading-Session :
      (lost : Bool) (ds : List (List ℕ)) (d : List ℕ) (m : Monitor) (c : Client) (n : Node)
      → Session lost ds m c n
      → length (tag m.seq d) ≡ n.imu_ring_buf.item_width
      → Session lost
          (ds ++ (d ∷ []))
          (record m { seq = m.seq + 1 })
          c
          (record n { imu_ring_buf = pushed n.imu_ring_buf (tag m.seq d) })
  reading-Session lost ds d m c n h w = record {
    holds = rw (one_more ds d m.seq h.seq) (push-Holds n.imu_ring_buf (tag m.seq d) h.holds w);
    seq = omega (arith, h.seq, length-append {0} ds (d ∷ []));
    started = h.started;
    behind = omega (arith, h.behind);
    sent = rw (one_more ds d m.seq h.seq) (
        h.sent
        ∙ sym (
            take-before (tagged 0 ds) (tag m.seq d) (sent_count lost c.curr_index) (
              sent_count-small lost c.curr_index (length (tagged 0 ds))
                (omega (arith, h.behind, h.holds.count)))));
    stopped = h.stopped;
  }

  pub sent-Session :
      (ds : List (List ℕ)) (stack : Stack) (m : Monitor) (c : Client) (n : Node)
      → Session false ds m c n
      → IsKept n.imu_ring_buf c.curr_index
      → Session false ds m (sent_one stack (get_or (tagged 0 ds) (c.curr_index - 1) []) c) n
  unfolding sent_count
  sent-Session ds stack m c n h k = record {
    holds = h.holds;
    seq = h.seq;
    started = omega arith;
    behind = omega (arith, k.1);
    sent =
        ap (λ (l : List (List ℕ)). l ++ (get_or (tagged 0 ds) (c.curr_index - 1) [] ∷ [])) h.sent
        ∙ sym (
            take-suc (tagged 0 ds) (c.curr_index - 1)
              (omega (arith, h.holds.count, k.1, h.started)))
        ∙ ap (λ (i : ℕ). take i (tagged 0 ds)) {x = suc (c.curr_index - 1)}
            {y = c.curr_index + 1 - 1} (omega (arith, h.started));
    stopped = refl;
  }

  pub lost-Session :
      (no_memory : Bool) (ds : List (List ℕ)) (stack : Stack) (m : Monitor) (c : Client) (n : Node)
      → Session false ds m c n
      → IsKept n.imu_ring_buf c.curr_index
      → Session true ds m (not_sent stack c) (sys_set_operation_mode false (counted no_memory n))
  unfolding sent_count sys_set_operation_mode set_sys_event
  lost-Session true ds stack m c n h k = record {
    holds = h.holds;
    seq = h.seq;
    started = omega arith;
    behind = omega (arith, k.1);
    sent =
        h.sent
        ∙ ap (λ (i : ℕ). take i (tagged 0 ds)) {x = c.curr_index - 1} {y = c.curr_index + 1 - 2}
            (omega arith);
    stopped = refl;
  }
  lost-Session false ds stack m c n h k = record {
    holds = h.holds;
    seq = h.seq;
    started = omega arith;
    behind = omega (arith, k.1);
    sent =
        h.sent
        ∙ ap (λ (i : ℕ). take i (tagged 0 ds)) {x = c.curr_index - 1} {y = c.curr_index + 1 - 2}
            (omega arith);
    stopped = refl;
  }
