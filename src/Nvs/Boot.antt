-- ===== src/Nvs/Boot.antt =====
-- What `sys_load_nvs_configuration` of components/sys/nvs_mgmt.c loads, whatever stands in flash, and after
-- `sys_set_nvs_var` has stored a variable.
use rfmarkit_esp_node.Base.{
  drop, ◌++◌, ℕ, ◌≤◌, ◌≡◌, refl, ap, sym, ◌∙◌, arith, Bool, true, false, Option, none, some, List,
  [], ◌∷◌, length, ltb, ◌==◌, if◌then◌else◌,
}
use rfmarkit_esp_node.Base.Text.{strtol10}
use rfmarkit_esp_node.Base.Int.{ℤ, pos, negsuc}
use rfmarkit_esp_node.Base.Outcome.{Outcome, done, undefined, out_of_fuel, ◌>>=◌}
use rfmarkit_esp_node.Nvs.{
  stored_value, sys_find_var, strncmp_is_0, longer, var_type, min_int32, max_int32, limit_seq,
  limit_target_fps, wifi_ssid_name, wifi_psk_name, data_host_name, ntp_host_name, imu_baud_name,
  seq_name, target_fps_name,
}
use rfmarkit_esp_node.Nvs.Limits.{limit_seq-byte, limit_target_fps-range}
use rfmarkit_esp_node.Nvs.Lookup.{is_name}
use rfmarkit_esp_node.Nvs.Load.{
  Flash, IsFlash, Defaults, Loaded, value_or, name_at, c_string, zeros, write, limit_imu_baud,
  sys_get_nvs_var, get_value, read_into, load_str, text_or, sys_load_str_conf, sys_load_int32_conf,
  sys_load_nvs_configuration,
}

limit_imu_baud-range : (z : ℤ) → (k : ℕ) × (limit_imu_baud z ≡ pos k) × (9600 ≤ k) × (k ≤ 921600)
unfolding limit_imu_baud min_int32 max_int32
limit_imu_baud-range (pos n) = (
  if ltb n 9600 then 9600 else if ltb n 921600 then n else 921600,
  ground arith,
  ground arith,
  ground arith,
)
limit_imu_baud-range (negsuc n) = (9600, ground arith, omega arith, omega arith)

limited_baud :
    (t : Bool) (z : ℤ)
    → t ≡ true
    → (k : ℕ) × ((if t then limit_imu_baud z else z) ≡ pos k) × (9600 ≤ k) × (k ≤ 921600)
limited_baud true z e = limit_imu_baud-range z
limited_baud false z e = ground (arith, e)

-- The text of a buffer that the read left.
text_of : ℤ → List ℕ → Option (List ℕ) → Outcome (List ℕ)
unfolding read_into c_string zeros
text_of j default_value stored =
    read_into j (zeros 64) stored
    >>= (λ r. c_string r.1 >>= (λ text. done (if ltb 0 (length text) then text else default_value)))

-- The end of the loading, from the texts and the numbers that were read.
finish :
    Defaults
    → Outcome (List ℕ)
    → Outcome (List ℕ)
    → Outcome (List ℕ)
    → Outcome (List ℕ)
    → Outcome ℤ
    → ℤ
    → ℤ
    → Outcome Loaded
unfolding limit_seq limit_target_fps limit_imu_baud
finish d ssid psk data_host ntp_host baud seq fps = ssid >>= (λ ssid'. psk >>= (λ psk'.
    data_host >>= (λ data_host'. ntp_host >>= (λ ntp_host'. baud >>= (λ baud'. done (record {
      wifi_ssid = ssid';
      wifi_psk = psk';
      data_host_ip_addr = data_host';
      ntp_host_ip_addr = ntp_host';
      imu_baud = if d.imu_sensor_hi229 then limit_imu_baud baud' else baud';
      seq = limit_seq seq;
      target_fps = limit_target_fps d.max_fps d.target_fps fps;
    }))))))

finish-seq :
    (d : Defaults) (ssid psk data_host ntp_host : Outcome (List ℕ)) (baud : Outcome ℤ)
    (seq seq' fps : ℤ)
    → finish d ssid psk data_host ntp_host baud seq fps ≡ (
        finish d ssid psk data_host ntp_host baud seq' fps
        >>= (λ c. done (record c { seq = limit_seq seq })))
unfolding finish
finish-seq d (done a) (done b) (done c) (done e) (done z) seq seq' fps = refl
finish-seq d (done a) (done b) (done c) (done e) undefined seq seq' fps = refl
finish-seq d (done a) (done b) (done c) (done e) out_of_fuel seq seq' fps = refl
finish-seq d (done a) (done b) (done c) undefined baud seq seq' fps = refl
finish-seq d (done a) (done b) (done c) out_of_fuel baud seq seq' fps = refl
finish-seq d (done a) (done b) undefined n baud seq seq' fps = refl
finish-seq d (done a) (done b) out_of_fuel n baud seq seq' fps = refl
finish-seq d (done a) undefined h n baud seq seq' fps = refl
finish-seq d (done a) out_of_fuel h n baud seq seq' fps = refl
finish-seq d undefined b h n baud seq seq' fps = refl
finish-seq d out_of_fuel b h n baud seq seq' fps = refl

-- The buffer has a terminator, and room for what was read.
unfoldable pub is_text : List ℕ → Bool
is_text [] = false
is_text (c ∷ cs) = let rest = is_text cs in if c == 0 then true else rest

c_string-is_text : (b : List ℕ) → is_text b ≡ true → (t : List ℕ) × (c_string b ≡ done t)
unfolding is_text c_string
c_string-is_text [] h = ground arith
c_string-is_text (c ∷ cs) h =
    elim (c == 0)
        as (λ t.
          (if t then true else is_text cs) ≡ true
          → (r : List ℕ) × ((if t then done [] else (c_string cs >>= (λ text. done (c ∷ text))))
              ≡ done r)) [
                | true ↦ λ _. ([], refl)
                | false ↦ λ e.
                    let r = c_string-is_text cs e in
                    (c ∷ r.0, ap (λ o. o >>= (λ text. done (c ∷ text))) r.1)
              ]
      h

is_text-more : (b rest : List ℕ) → is_text b ≡ true → is_text (b ++ rest) ≡ true
unfolding is_text
is_text-more [] rest h = ground arith
is_text-more (c ∷ cs) rest h =
    elim (c == 0)
        as (λ t.
          (if t then true else is_text cs) ≡ true
          → (if t then true else is_text (cs ++ rest)) ≡ true) [
            | true ↦ λ _. refl
            | false ↦ λ e. is_text-more cs rest e
          ]
      h

if_room :
    {A B : Type 0} (n : ℕ) (a : A) (k : A → Outcome B)
    → n ≤ 64
    → ((if ltb 64 n then undefined else done a) >>= k) ≡ k a
if_room n a k h =
    elim (ltb 64 n) as (λ t. t ≡ false → ((if t then undefined else done a) >>= k) ≡ k a) [
      | true ↦ λ e. ground (arith, e)
      | false ↦ λ _. refl
    ]
      (ground arith)

text_of-some :
    (j : ℤ) (default_value b : List ℕ)
    → length b ≤ 64
    → text_of j default_value (some b) ≡ (
        c_string (b ++ drop (length b) (zeros 64))
        >>= (λ text. done (if ltb 0 (length text) then text else default_value)))
unfolding text_of read_into
text_of-some j default_value b h =
    if_room {A = ℤ × List ℕ} (length b) (j, b ++ drop (length b) (zeros 64))
      (λ r. c_string r.1 >>= (λ text. done (if ltb 0 (length text) then text else default_value))) h

text_of-done :
    (j : ℤ) (default_value : List ℕ) (stored : Option (List ℕ))
    → ((b : List ℕ) → stored ≡ some b → (is_text b ≡ true) × (length b ≤ 64))
    → (t : List ℕ) × (text_of j default_value stored ≡ done t)
unfolding text_of read_into c_string zeros
text_of-done j default_value none h = (default_value, refl)
text_of-done j default_value (some b) h =
    let good = h b refl in
    let r = c_string-is_text _ (is_text-more b _ good.0) in
    (
      _,
      text_of-some j default_value b good.1
          ∙ ap (λ o. o >>= (λ text. done (if ltb 0 (length text) then text else default_value)))
              r.1,
    )

module _ {S : Type 0} (fs : Flash S) (junk : List ℕ → ℤ) (tmp : List ℕ → ℕ)
    (print : ℤ → List ℕ) where
  int_read : S → List ℕ → ℤ
  unfolding value_or
  int_read s name = value_or (junk name) (fs.get_i32 s name)

  text_read : S → List ℕ → List ℕ → Outcome (List ℕ)
  unfolding text_of
  text_read s name default_value = text_of (junk name) default_value (fs.get_blob s name (tmp name))

  baud_read : Defaults → S → Outcome ℤ
  unfolding int_read
  baud_read d s = if d.imu_sensor_hi229 then done (int_read s imu_baud_name) else done (pos 0)

  load-finish :
      (d : Defaults) (s : S)
      → sys_load_nvs_configuration fs junk tmp print d s
        ≡ finish d
            (text_read s wifi_ssid_name d.wifi_ssid)
            (text_read s wifi_psk_name d.wifi_psk)
            (text_read s data_host_name d.data_host_ip_addr)
            (text_read s ntp_host_name d.ntp_host_ip_addr)
            (baud_read d s)
            (int_read s seq_name)
            (int_read s target_fps_name)
  unfolding sys_load_nvs_configuration sys_load_str_conf sys_load_int32_conf sys_get_nvs_var
      get_value read_into load_str text_or finish text_read baud_read text_of int_read sys_find_var
      strncmp_is_0 longer name_at var_type value_or
  load-finish d s = refl

  baud-done : (d : Defaults) (s : S) → (z : ℤ) × (baud_read d s ≡ done z)
  unfolding baud_read
  baud-done d s =
      elim d.imu_sensor_hi229
        as (λ t.
          (z : ℤ) × ((if t then done (int_read s imu_baud_name) else done (pos 0)) ≡ done z)) [
            | true ↦ (_, refl)
            | false ↦ (_, refl)
          ]

  -- Whatever stands in flash, as long as every text that can be read has its terminator within 64 bytes: the loading
  -- ends, the sequence number is at most 255, the frame rate is between 1 and the highest, and the speed of an
  -- HI229 between 9600 and 921600.
  pub load-bounds :
      (d : Defaults) (s : S)
      → ((name b : List ℕ)
          → fs.get_blob s name (tmp name) ≡ some b
          → (is_text b ≡ true) × (length b ≤ 64))
      → 1 ≤ d.max_fps
      → 1 ≤ d.target_fps
      → (c : Loaded) × (sys_load_nvs_configuration fs junk tmp print d s ≡ done c)
        × ((k : ℕ) × (c.seq ≡ pos k) × (k ≤ 255))
        × ((k : ℕ) × (c.target_fps ≡ pos k) × (1 ≤ k) × (k ≤ d.max_fps))
        × (d.imu_sensor_hi229 ≡ true → (k : ℕ) × (c.imu_baud ≡ pos k) × (9600 ≤ k) × (k ≤ 921600))
  unfolding text_read finish
  load-bounds d s good some_fps some_target =
      let ssid = text_of-done (junk wifi_ssid_name) d.wifi_ssid _ (good wifi_ssid_name) in
      let psk = text_of-done (junk wifi_psk_name) d.wifi_psk _ (good wifi_psk_name) in
      let data_host =
        text_of-done (junk data_host_name) d.data_host_ip_addr _ (good data_host_name) in
      let ntp_host = text_of-done (junk ntp_host_name) d.ntp_host_ip_addr _ (good ntp_host_name) in
      let baud = baud-done d s in
      (
        _,
        load-finish d s ∙ (λ i.
            finish d (ssid.1 i) (psk.1 i) (data_host.1 i) (ntp_host.1 i) (baud.1 i)
              (int_read s seq_name) (int_read s target_fps_name)),
        (limit_seq-byte (int_read s seq_name)).0,
        limit_target_fps-range d.max_fps d.target_fps (int_read s target_fps_name) some_fps
            some_target,
        limited_baud d.imu_sensor_hi229 baud.0,
      )

  -- After `sys_set_nvs_var` has stored a sequence number, the loading gives its number within the limits, and all
  -- else as without it.
  pub load-seq :
      (d : Defaults) (s : S) (value behind : List ℕ)
      → IsFlash fs
      → sys_load_nvs_configuration fs junk tmp print d
          (write fs seq_name behind (stored_value (var_type 7) value) s)
        ≡ (sys_load_nvs_configuration fs junk tmp print d s
            >>= (λ c. done (record c { seq = limit_seq (strtol10 value).0 })))
  unfolding write stored_value var_type text_read baud_read int_read value_or is_name
  load-seq d s value behind law =
      let z = (strtol10 value).0 in
      let kept = λ (name : List ℕ) (e : is_name name seq_name ≡ false).
        law.i32_blob seq_name name z s (tmp name) e in
      let kept_int =
        λ (name : List ℕ) (e : is_name name seq_name ≡ false). law.i32_other seq_name name z s e in
      load-finish d (fs.set_i32 seq_name z s)
      ∙ (λ i.
          finish d (text_of (junk wifi_ssid_name) d.wifi_ssid (kept wifi_ssid_name refl i))
            (text_of (junk wifi_psk_name) d.wifi_psk (kept wifi_psk_name refl i))
            (text_of (junk data_host_name) d.data_host_ip_addr (kept data_host_name refl i))
            (text_of (junk ntp_host_name) d.ntp_host_ip_addr (kept ntp_host_name refl i))
            (if d.imu_sensor_hi229
              then done (value_or (junk imu_baud_name) (kept_int imu_baud_name refl i))
              else done (pos 0))
            (value_or (junk seq_name) (law.i32_same seq_name z s i))
            (value_or (junk target_fps_name) (kept_int target_fps_name refl i)))
      ∙ finish-seq d _ _ _ _ _ z (int_read s seq_name) (int_read s target_fps_name)
      ∙ ap (λ (o : Outcome Loaded). o >>= (λ c. done (record c { seq = limit_seq z })))
          (sym (load-finish d s))
