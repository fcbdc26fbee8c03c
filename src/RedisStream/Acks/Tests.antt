-- ===== src/RedisStream/Acks/Tests.antt =====
-- Acknowledgements at a server that loses the answer to its first request.
use agora_etl_plugins.Common.{
  ℕ, ◌+◌, Bool, true, false, Option, none, some, List, [], ◌∷◌, ◌++◌, nat_beq, ltb,
}
use agora_etl_plugins.RedisStream.Acks.{Acks}

-- What was confirmed, and the number of the requests.
abbrev Server : Type 0
Server = List ℕ × ℕ

answered : Bool → List ℕ → Server → Server × Option ℕ
answered true ids (confirmed, requests) = ((confirmed ++ ids, requests + 1), some requests)
answered false ids (confirmed, requests) = ((confirmed ++ ids, requests + 1), none)

xack : List ℕ → Server → Server × Option ℕ
unfolding answered
xack ids s = answered (nat_beq s.1 0) ids s

abbrev connects : Server → Server × Option ℕ
connects s = (s, none)

abbrev should_retry : ℕ → ℕ → Bool
should_retry e attempt = ltb attempt 3

abbrev acks : Acks ℕ ℕ
acks = record {
  connected = true;
  pending_ack_ids = 11 ∷ [];
  ack_batch_size = 2;
  ack_flush_count = 0;
  acked_message_count = 0;
  reconnect_count = 0;
  last_error = none;
}
