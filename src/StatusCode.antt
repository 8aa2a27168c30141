-- ===== src/StatusCode.antt =====
-- The error codes of include/rkavp/status.hpp.
pub data StatusCode : Type 0 where
  ok invalid_argument not_found already_exists failed_precondition unavailable internal cancelled :
      StatusCode
