-- ===== src/Opcua/Security/Endpoints.antt =====
-- src/opcua/security.cpp, `dropUnencryptedEndpoints`: the endpoints are compacted in place.
pub mod Laws
use safeedge.Common.{
  ℕ, zero, suc, ◌==◌, if◌then◌else◌, List, [], ◌∷◌, set, get_or, Bool, true, false,
}
use safeedge.Opcua.Security.{SecurityMode, invalid, none, Endpoint, ServerConfig}

unfoldable pub is_unencrypted : SecurityMode → Bool
is_unencrypted none = true
is_unencrypted _ = false

-- What `UA_EndpointDescription_clear` leaves.
abbrev pub cleared : Endpoint
cleared = record { security_mode = invalid; application_uri = [] }

pub record Compaction : Type 0 where
  pub endpoints : List Endpoint
  pub kept : ℕ
  pub removed : ℕ

-- One round of the loop.
unfoldable pub compact_one : Compaction → ℕ → Compaction
unfolding is_unencrypted
compact_one c i =
    let endpoint = get_or c.endpoints i cleared in
    if is_unencrypted endpoint.security_mode
    then record c { endpoints = set c.endpoints i cleared; removed = suc c.removed }
    else record c {
      endpoints = if c.kept == i then c.endpoints else set c.endpoints c.kept endpoint;
      kept = suc c.kept;
    }

-- The rounds from `i` on, `rest` of them.
unfoldable pub compact : Compaction → ℕ → ℕ → Compaction
compact c i zero = c
compact c i (suc rest) = compact (compact_one c i) (suc i) rest

unfoldable pub drop_unencrypted_endpoints : ServerConfig → ServerConfig × ℕ
unfolding compact compact_one
drop_unencrypted_endpoints config =
    let start : Compaction = record { endpoints = config.endpoints; kept = 0; removed = 0 } in
    let c = compact start 0 config.endpoints_size in
    (record config { endpoints = c.endpoints; endpoints_size = c.kept }, c.removed)

-- The endpoints that are not unencrypted, in order, and how many are.
abbrev pub encrypted : List Endpoint → List Endpoint
encrypted [] = []
encrypted (e ∷ es) = if is_unencrypted e.security_mode then encrypted es else e ∷ encrypted es
