-- ===== src/Nvs/Limits.antt =====
-- components/sys/nvs_mgmt.c: the limits of the loaded values.
use rfmarkit_esp_node.Base.{
  ℕ, ◌≤◌, ◌≡◌, refl, ap, ◌∙◌, arith, ◌==◌, Bool, true, false, ◌||◌, if◌then◌else◌, ltb,
}
use rfmarkit_esp_node.Base.Int.{ℤ, pos, negsuc}
use rfmarkit_esp_node.Nvs.{min_int32, max_int32, limit_seq, limit_target_fps}

limit_seq-pos : (n : ℕ) → limit_seq (pos n) ≡ pos (if ltb n 255 then n else 255)
unfolding limit_seq min_int32 max_int32
limit_seq-pos n = ground arith

limit_seq-negsuc : (n : ℕ) → limit_seq (negsuc n) ≡ pos 0
unfolding limit_seq min_int32 max_int32
limit_seq-negsuc n = ground arith

limited : (z : ℤ) → (n : ℕ) × (limit_seq z ≡ pos n) × (n ≤ 255)
limited (pos n) = (if ltb n 255 then n else 255, limit_seq-pos n, ground arith)
limited (negsuc n) = (0, limit_seq-negsuc n, omega arith)

-- Whatever was stored, the sequence number is at most 255 and not negative afterwards, and a stored number of at
-- most 255 is kept as it is.
pub limit_seq-byte :
    (z : ℤ)
    → ((n : ℕ) × (limit_seq z ≡ pos n) × (n ≤ 255))
      × ((k : ℕ) → k ≤ 255 → limit_seq (pos k) ≡ pos k)
limit_seq-byte z = (limited z, λ k h. limit_seq-pos k ∙ ap pos (ground arith))

limit_target_fps-negsuc :
    (max_fps target_fps n : ℕ)
    → limit_target_fps max_fps target_fps (negsuc n)
      ≡ pos (if ltb target_fps max_fps then target_fps else max_fps)
unfolding limit_target_fps min_int32 max_int32
limit_target_fps-negsuc max_fps target_fps n = ground arith

limit_target_fps-pos :
    (max_fps target_fps n : ℕ)
    → limit_target_fps max_fps target_fps (pos n) ≡ (
        if (n == 0) || ltb max_fps n
        then pos (if ltb target_fps max_fps then target_fps else max_fps)
        else pos n)
unfolding limit_target_fps min_int32 max_int32
limit_target_fps-pos max_fps target_fps n = ground arith

chosen :
    (t : Bool) (max_fps low n : ℕ) (z : ℤ)
    → z ≡ (if t then pos low else pos n)
    → (1 ≤ low) × (low ≤ max_fps)
    → (t ≡ false → (1 ≤ n) × (n ≤ max_fps))
    → (k : ℕ) × (z ≡ pos k) × (1 ≤ k) × (k ≤ max_fps)
chosen true max_fps low n z e h h' = (low, e, h.0, h.1)
chosen false max_fps low n z e h h' = let r = h' refl in (n, e, r.0, r.1)

-- With a highest and a default rate that are not 0, the frame rate is between 1 and the highest afterwards,
-- whatever was stored.
pub limit_target_fps-range :
    (max_fps target_fps : ℕ) (z : ℤ)
    → 1 ≤ max_fps
    → 1 ≤ target_fps
    → (k : ℕ) × (limit_target_fps max_fps target_fps z ≡ pos k) × (1 ≤ k) × (k ≤ max_fps)
limit_target_fps-range max_fps target_fps (negsuc n) some_fps some_target =
    (_, limit_target_fps-negsuc max_fps target_fps n, ground arith, ground arith)
limit_target_fps-range max_fps target_fps (pos n) some_fps some_target =
    chosen ((n == 0) || ltb max_fps n) max_fps
      (if ltb target_fps max_fps then target_fps else max_fps) n _
      (limit_target_fps-pos max_fps target_fps n) (ground arith, ground arith)
      (λ e. (ground (arith, e), ground (arith, e)))
