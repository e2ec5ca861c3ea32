-- ===== src/Opcua/AddressSpace.antt =====
-- src/opcua/address_space.cpp and include/safeedge/opcua/address_space.hpp: the variables of the server
-- and what a snapshot writes into them. The calls of open62541 are seen as what they return and as the
-- writes that are made.
use safeedge.Common.{
  ℕ, ◌-◌, ◌^◌, ltb, ◌==◌, ℤ, pos, negsuc, Bool, true, false, not, if◌then◌else◌, List, [], ◌∷◌, ◌≡◌,
  refl, All,
}
use safeedge.Rt.Histogram.{Arithmetic}
use safeedge.Edge.Snapshot.{RuntimeSnapshot}

-- The data types of `UA_TYPES` that the server uses.
pub data DataType : Type 0 where
  uint32 boolean uint64 int64 double : DataType

-- A scalar of one of them.
pub data Scalar (Double : Type 0) : Type 0 where
  a_uint32 : ℕ → Scalar Double
  a_boolean : Bool → Scalar Double
  a_uint64 : ℕ → Scalar Double
  an_int64 : ℤ → Scalar Double
  a_double : Double → Scalar Double

abbrev pub type_of : {Double : Type 0} → Scalar Double → DataType
type_of (a_uint32 _) = uint32
type_of (a_boolean _) = boolean
type_of (a_uint64 _) = uint64
type_of (an_int64 _) = int64
type_of (a_double _) = double

-- The numbers and types of `specs()`.
unfoldable pub specs : List (ℕ × DataType)
specs =
    (1001, uint32)
    ∷ (1002, boolean)
    ∷ (1003, boolean)
    ∷ (1004, uint32)
    ∷ (1005, boolean)
    ∷ (1006, uint64)
    ∷ (1007, double)
    ∷ (1008, int64)
    ∷ (1010, uint64)
    ∷ (1011, uint64)
    ∷ (1012, int64)
    ∷ (1013, int64)
    ∷ (1014, boolean)
    ∷ (1015, double)
    ∷ []

-- A call of `UA_Server_writeDataValue`: the node, the type that the code names, the value, and whether
-- the status is Good or BadNoData.
pub record Write (Double : Type 0) : Type 0 where
  pub node : ℕ
  pub type : DataType
  pub value : Scalar Double
  pub good : Bool

-- The loop of `buildAddressSpace` over the variables, by what `addVariable` returns for each; a
-- variable after one that is refused is not asked for.
unfoldable pub add_all : (ℕ × DataType → Bool) → List (ℕ × DataType) → Bool
add_all add_variable [] = true
add_all add_variable (spec ∷ rest) =
    let others = add_all add_variable rest in if add_variable spec then others else false

-- `buildAddressSpace`, by whether there is a server, the index that `UA_Server_addNamespace` gives,
-- whether the object is added, and which variables are.
unfoldable pub build_address_space : Bool → ℕ → Bool → (ℕ × DataType → Bool) → Bool
unfolding add_all specs
build_address_space server index object add_variable =
    if not server
    then false
    else if index == 0
    then false
    else if not object
    then false
    else add_all add_variable specs

-- `static_cast<UA_Int64>` of a `std::uint64_t`.
unfoldable pub int64_of : ℕ → ℤ
int64_of n = if ltb n (2 ^ 63) then pos n else negsuc (2 ^ 64 - 1 - n)

module _ {Double : Type 0} ⦃ar : Arithmetic Double⦄ where
  -- Nanoseconds as seconds, `/ 1e9`.
  seconds : Double → Double
  seconds ns = ar.over ns (ar.of_ℕ 1000000000)

  -- The writes of `publishSnapshot`, in order.
  unfoldable pub publish_snapshot : RuntimeSnapshot → Bool → List (Write Double)
  unfolding seconds
  publish_snapshot s fresh =
      record { node = 1001; type = uint32; value = a_uint32 s.safety_state; good = fresh }
      ∷ record {
        node = 1002;
        type = boolean;
        value = a_boolean (not (s.torque_permitted == 0));
        good = fresh;
      }
      ∷ record {
        node = 1003;
        type = boolean;
        value = a_boolean (not (s.fault_latched == 0));
        good = fresh;
      }
      ∷ record { node = 1004; type = uint32; value = a_uint32 s.fault_reason; good = fresh }
      ∷ record {
        node = 1005;
        type = boolean;
        value = a_boolean (not (s.estop_asserted == 0));
        good = fresh;
      }
      ∷ record { node = 1006; type = uint64; value = a_uint64 s.safety_sequence; good = fresh }
      ∷ record {
        node = 1007;
        type = double;
        value = a_double (seconds (ar.of_ℕ s.safety_state_age_ns));
        good = fresh;
      }
      ∷ record {
        node = 1008;
        type = int64;
        value = an_int64 (int64_of s.safety_transition_monotonic_ns);
        good = fresh;
      }
      ∷ record { node = 1010; type = uint64; value = a_uint64 s.cycles_executed; good = fresh }
      ∷ record { node = 1011; type = uint64; value = a_uint64 s.overruns; good = fresh }
      ∷ record { node = 1012; type = int64; value = an_int64 s.jitter_p99_ns; good = fresh }
      ∷ record { node = 1013; type = int64; value = an_int64 s.jitter_max_ns; good = fresh }
      ∷ record {
        node = 1014;
        type = boolean;
        value = a_boolean (not (s.realtime_scheduling_granted == 0));
        good = fresh;
      }
      ∷ record {
        node = 1015;
        type = double;
        value = a_double (seconds (ar.of_ℤ s.uptime_ns));
        good = fresh;
      }
      ∷ []

-- The nodes and the named types of writes.
abbrev pub written_nodes : {Double : Type 0} → List (Write Double) → List (ℕ × DataType)
written_nodes [] = []
written_nodes (w ∷ ws) = (w.node, w.type) ∷ written_nodes ws

-- Every snapshot writes each of the declared variables once, in the order and with the type of its
-- declaration; every value is of the type that is named with it; and all of them have the status that
-- the snapshot has.
pub publish_snapshot-specs :
    (Double : Type 0) ⦃ar : Arithmetic Double⦄ (s : RuntimeSnapshot) (fresh : Bool)
    → (written_nodes (publish_snapshot {Double = Double} s fresh) ≡ specs)
      × All (λ w. type_of w.value ≡ w.type) (publish_snapshot {Double = Double} s fresh)
      × All (λ w. w.good ≡ fresh) (publish_snapshot {Double = Double} s fresh)
unfolding publish_snapshot specs
publish_snapshot-specs Double s fresh = (
  refl,
  (
    refl,
    (
      refl,
      (
        refl,
        (refl, (refl, (refl, (refl, (refl, (refl, (refl, (refl, (refl, (refl, (refl, tt))))))))))),
      ),
    ),
  ),
  (
    refl,
    (
      refl,
      (
        refl,
        (refl, (refl, (refl, (refl, (refl, (refl, (refl, (refl, (refl, (refl, (refl, tt))))))))))),
      ),
    ),
  ),
)
