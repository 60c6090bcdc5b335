-- ===== src/Metarec/Ptc/Gps.antt =====
-- What a GPS message puts into the queue.
use recording_agent_continuo.Prelude.{
  ℕ, ◌≡◌, refl, ◌∙◌, ap, true, false, Bool, ◌&&◌, ◌||◌, ◌==◌, if◌then◌else◌, [], ◌∷◌, ◌++◌, arith,
}
use recording_agent_continuo.Prelude.Int.{ℤ, pos, negsuc, is_zero, negate_ℕ}
use recording_agent_continuo.Queue.Inv.{IsValid}
use recording_agent_continuo.Queue.Window.{contents}
use recording_agent_continuo.Metarec.{Layout, gps, gps_memory, Payload}
use recording_agent_continuo.Metarec.Intf.{Intf, Env, describe, set_gps}
use recording_agent_continuo.Metarec.Intf.Fifo.{IsUp, own_block, enq_metadata_descriptor-room}
use recording_agent_continuo.Metarec.Ptc.{
  Ptc, GpsData, GpsParser, southern, western, msgcb_gps_data_meta_rec,
}

-- -|x|
abbrev pub minus_abs : ℤ → ℤ
minus_abs (pos n) = negate_ℕ n
minus_abs (negsuc n) = negsuc n

-- 's' or 'S', and 'w' or 'W'.
abbrev pub is_south : ℕ → Bool
is_south d = d == 115 || d == 83

abbrev pub is_west : ℕ → Bool
is_west d = d == 119 || d == 87

-- The coordinates that a message stands for: the southern and the western ones are not positive.
abbrev pub signed_memory : GpsParser → GpsData → Payload
signed_memory p m =
    let latitude = p.parse_gps_latitude m.latitude in
    let longitude = p.parse_gps_longitude m.longitude in
    gps_memory (if is_south (p.get_gps_direction m.latitude) then minus_abs latitude else latitude)
      (if is_west (p.get_gps_direction m.longitude) then minus_abs longitude else longitude)
      (p.parse_gps_speed m.speed)

-- All of the position and the speed are 0.
abbrev pub is_nowhere : GpsParser → GpsData → Bool
is_nowhere p m =
    is_zero (p.parse_gps_latitude m.latitude)
    && is_zero (p.parse_gps_longitude m.longitude)
    && is_zero (p.parse_gps_speed m.speed)

module _ (l : Layout) (e : Env) (verified : Bool) where
  southern_sign :
      (d : ℕ) (x : ℤ) → southern l e verified d x ≡ (if is_south d then minus_abs x else x)
  unfolding southern
  southern_sign d x = ground arith

  western_sign : (d : ℕ) (x : ℤ) → western l e verified d x ≡ (if is_west d then minus_abs x else x)
  unfolding western
  western_sign d x = ground arith

module _ (l : Layout) (e : Env) where
  set_gps-contents :
      (latitude longitude speed : ℤ) (s : Intf)
      → IsUp e s
      → IsValid s.queue
      → s.queue.full ≡ false
      → contents (set_gps l e latitude longitude speed s).queue
        ≡ contents s.queue
          ++ (own_block s (describe e gps l.gps_size (gps_memory latitude longitude speed)) ∷ [])
  unfolding set_gps
  set_gps-contents latitude longitude speed s up v room =
      (enq_metadata_descriptor-room e s
        (describe e gps l.gps_size (gps_memory latitude longitude speed)) up v room).1

  handled :
      (p : GpsParser) (m : GpsData) (s : Ptc)
      → m.version ≡ l.gps_version
      → is_nowhere p m ≡ false
      → (msgcb_gps_data_meta_rec l e true p m s).intf
        ≡ set_gps l e
            (southern l e true (p.get_gps_direction m.latitude) (p.parse_gps_latitude m.latitude))
            (western l e true (p.get_gps_direction m.longitude) (p.parse_gps_longitude m.longitude))
            (p.parse_gps_speed m.speed)
            s.intf
  unfolding msgcb_gps_data_meta_rec
  handled p m s version somewhere = ground (arith, version, somewhere)

  -- With the queue initialized, its mutex taken, and the ring valid with room: a verified GPS
  -- message of the expected version whose position and speed are not all 0 puts one descriptor,
  -- with a block of its own, behind what waits, with the speed and the coordinates of the message,
  -- of which a southern latitude and a western longitude are minus their absolute value.
  pub msgcb_gps_data_meta_rec-contents :
      (p : GpsParser) (m : GpsData) (s : Ptc)
      → IsUp e s.intf
      → IsValid s.intf.queue
      → s.intf.queue.full ≡ false
      → m.version ≡ l.gps_version
      → is_nowhere p m ≡ false
      → contents (msgcb_gps_data_meta_rec l e true p m s).intf.queue
        ≡ contents s.intf.queue
          ++ (own_block s.intf (describe e gps l.gps_size (signed_memory p m)) ∷ [])
  msgcb_gps_data_meta_rec-contents p m s up v room version somewhere =
      ap (λ i. contents i.queue) (handled p m s version somewhere)
      ∙ set_gps-contents _ _ _ s.intf up v room
      ∙ rw
          (
            southern_sign l e true (p.get_gps_direction m.latitude)
                (p.parse_gps_latitude m.latitude),
            western_sign l e true (p.get_gps_direction m.longitude)
                (p.parse_gps_longitude m.longitude),
          )
          refl
