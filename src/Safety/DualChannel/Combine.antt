-- ===== src/Safety/DualChannel/Combine.antt =====
-- `combine`: the safe direction of two channels' results.
use safeedge.Common.{min_double, ◌≡◌, true, false, FloatingPoint, gt, arith}
use safeedge.Safety.Types.{SafetyState, SafetyOutputs, min_state}
use safeedge.Safety.Machine.{SafetyStateMachine, outputs_for}
use safeedge.Safety.DualChannel.{combine}

module _ {Double : Type 0} ⦃fp : FloatingPoint Double⦄ where
  -- The order of `double`, and a speed limit that is positive and finite.
  pub record IsLimit (speed : Double) : Type 0 where
    pub asymmetric : (x y : Double) → fp.lt x y ≡ true → fp.lt y x ≡ false
    pub positive : fp.lt fp.zero_value speed ≡ true
    pub finite : fp.lt speed fp.infinity ≡ true
    pub unbounded : fp.lt fp.zero_value fp.infinity ≡ true

  -- `std::min` on the speed limits of two states, with the same limit in both channels.
  min_double-speed_limit :
      (a b : SafetyStateMachine Double) (s t : SafetyState)
      → IsLimit a.limits.limited_speed
      → b.limits.limited_speed ≡ a.limits.limited_speed
      → min_double (outputs_for a s).speed_limit (outputs_for b t).speed_limit
        ≡ (outputs_for a (min_state s t)).speed_limit
  unfolding outputs_for
  min_double-speed_limit a b s t h e =
      let l = a.limits.limited_speed in
      let p = h.asymmetric fp.zero_value l h.positive in
      let f = h.asymmetric l fp.infinity h.finite in
      let u = h.asymmetric fp.zero_value fp.infinity h.unbounded in ground arith

  -- The results of two channels with the same positive and finite speed limit combine to what a
  -- machine in the more restrictive of their two states permits: `std::min` on the enumerators agrees
  -- with each of the permissions, of torque, of motion and of speed, and with the brake. It relies on
  -- `<` being asymmetric and on infinity being above zero.
  pub combine-outputs_for :
      (a b : SafetyStateMachine Double) (s t : SafetyState)
      → IsLimit a.limits.limited_speed
      → b.limits.limited_speed ≡ a.limits.limited_speed
      → let c = combine (outputs_for a s) (outputs_for b t) in
        let safer = outputs_for a (min_state s t) in
        (c.state ≡ safer.state)
        × (c.torque_permitted ≡ safer.torque_permitted)
        × (c.motion_permitted ≡ safer.motion_permitted)
        × (c.speed_limit ≡ safer.speed_limit)
        × (c.brake_engaged ≡ safer.brake_engaged)
  unfolding combine outputs_for
  combine-outputs_for a b s t h e =
      let speed = min_double-speed_limit a b s t h e in
      (ground arith, ground arith, ground arith, speed, ground arith)

  -- If `<` on `double` is asymmetric, the combined speed limit is above neither channel's.
  pub combine-speed_limit :
      (a b : SafetyOutputs Double)
      → ((x y : Double) → fp.lt x y ≡ true → fp.lt y x ≡ false)
      → (gt (combine a b).speed_limit a.speed_limit ≡ false)
        × (gt (combine a b).speed_limit b.speed_limit ≡ false)
  unfolding combine
  combine-speed_limit a b asym = ground (
    arith,
    asym a.speed_limit a.speed_limit,
    asym b.speed_limit b.speed_limit,
    asym b.speed_limit a.speed_limit,
  )
