-- ===== src/Errors.antt =====
-- The error enums of the pallets, and how a call can end.

-- `Error` of pallets/offchain-rollup/src/anchor.rs
pub data AnchorError : Type 0 where
  name_already_claimed name_not_exist not_owner cond_not_met : AnchorError
  failed_to_decode_action queue_is_full invalid_queue_head : AnchorError

-- `Error` of pallets/oracle/src/lib.rs
pub data OracleError : Type 0 where
  failed_to_authenticate_response failed_to_decode_response failed_to_push_response : OracleError
  failed_to_push_message_to_anchor failed_to_get_api_feed api_feed_not_active : OracleError
  failed_to_encode_data failed_to_find_oracle_feeds failed_to_get_feed_request : OracleError

-- `Error` of pallets/para-oracle/src/lib.rs
pub data ParaOracleError : Type 0 where
  too_large no_permission already_feeded xcm_send_error : ParaOracleError

-- FRAME's `DispatchError`: the variants that the pallets raise, and a module's own error.
pub data DispatchError : Type 0 where
  bad_origin cannot_lookup : DispatchError
  anchor : AnchorError → DispatchError
  oracle : OracleError → DispatchError
  para_oracle : ParaOracleError → DispatchError
