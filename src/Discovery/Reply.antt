-- ===== src/Discovery/Reply.antt =====
-- What is taken from a reply of the controller.
use rfmarkit_esp_node.Base.{
  ℕ, zero, suc, ◌≡◌, refl, ap, arith, some, List, [], ◌∷◌, ◌++◌, length, length-append, take,
  not_ltb,
}
use rfmarkit_esp_node.Esp.{ok}
use rfmarkit_esp_node.Discovery.{magic_from, sys_decode_discovery_reply_control}

-- A reply: the magic number, the source, the reply flag, the packet and what follows it.
unfoldable pub reply : ℕ → ℕ → List ℕ → List ℕ → List ℕ
reply source flag packet rest = 229 ∷ 229 ∷ 229 ∷ 229 ∷ 229 ∷ source ∷ flag ∷ (packet ++ rest)

take-append : (n : ℕ) (xs ys : List ℕ) → length xs ≡ n → take n (xs ++ ys) ≡ xs
take-append zero [] ys h = refl
take-append zero (x ∷ xs) ys h = absurd (omega arith)
take-append (suc n) [] ys h = absurd (omega arith)
take-append (suc n) (x ∷ xs) ys h = ap (λ (l : List ℕ). x ∷ l) (take-append n xs ys (omega arith))

-- A reply of the controller (source 0) with a packet of 64 bytes is accepted, whatever its flag and whatever
-- follows the packet, and the packet is what is taken from it.
pub sys_decode_discovery_reply_control-reply :
    (flag : ℕ) (packet rest : List ℕ)
    → length packet ≡ 64
    → sys_decode_discovery_reply_control (reply 0 flag packet rest) ≡ (ok, some packet)
unfolding sys_decode_discovery_reply_control magic_from reply
sys_decode_discovery_reply_control-reply flag packet rest h =
    rw
      (not_ltb (length (reply 0 flag packet rest)) 71
        (omega (arith, length-append {0} packet rest)))
      (ap (λ (l : List ℕ). (ok, some l)) (take-append 64 packet rest h))
