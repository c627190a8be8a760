-- ===== src/Replicas/Tests.antt =====
-- A copy to a target, run.
use mooncake_maca_spdk_dmabu.Prelude.{true, false, none, some, [], ◌∷◌, ◌≡◌, refl}
use mooncake_maca_spdk_dmabu.Put.Types.{ok_code, other_code, ok, memory, Replica}
use mooncake_maca_spdk_dmabu.Replicas.{
  Descriptor, Store, execute_replica_transfer, get_preferred_replica, first_local,
  is_local_endpoint,
}
use mooncake_maca_spdk_dmabu.Replicas.Settled.{IsSettled, execute_replica_transfer-IsSettled}

abbrev store : Store
store = record {
  invalid_replica = other_code 1;
  replica_not_in_local_memory = other_code 2;
  lease_expired = other_code 3;
  is_p2p_handshake = false;
  local_hostname = "node";
  transport_endpoint = "ip";
  has_submitter = true;
  write = λ r slices. some ok_code;
  read = λ r slices. some ok_code;
  read_range = λ r slices offset. some ok_code;
  has_hot_cache = false;
  redirect_to_hot_cache = λ key r. none;
  split_into_slices = λ ptr size. record { ptr = ptr; size = size } ∷ [];
}

abbrev here : Replica
here = record { kind = memory; endpoint = "node"; size = 100 }

abbrev there : Replica
there = record { kind = memory; endpoint = "other"; size = 100 }

abbrev source : Descriptor
source = record { replica = here; is_complete = true; buffer_address = 4096 }

execute_replica_transfer-IsSettled_example :
    IsSettled store source (there ∷ []) (execute_replica_transfer store (ok tt) source (there ∷ []))
execute_replica_transfer-IsSettled_example =
    execute_replica_transfer-IsSettled store source (there ∷ []) (ok tt)

prefers_local : get_preferred_replica ("node" ∷ []) (there ∷ here ∷ []) ≡ ok here
unfolding get_preferred_replica first_local is_local_endpoint
prefers_local = refl
